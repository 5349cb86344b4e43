-- ===== src/Program.antt =====
-- The two programs: the socket functions of src/socket.c, and `main` of src/receiver.c and of
-- src/sender.c.
pub mod Opened
pub mod Receives
pub mod Unfinished
mod Tests
use lingi1341_trtp_gr.Base.{
  ℕ, ◌+◌, ◌-◌, ◌*◌, ◌/◌, ◌%◌, ◌^◌, Bool, true, false, not, Option, none, some, List, [], ◌∷◌, map,
  ltb, if◌then◌else◌,
}
use lingi1341_trtp_gr.Base.Int.{ℤ, pos, negsuc}
use lingi1341_trtp_gr.Base.Run.{Run, fault, exit_failure, done, ◌>>=◌, or_fault, or_exit}
use lingi1341_trtp_gr.Zlib.{Crc32}
use lingi1341_trtp_gr.Receiver.State.{Receiver, Round, start}
use lingi1341_trtp_gr.Receiver.Loop.{selective_repeat_receiver}
use lingi1341_trtp_gr.Sender.{Sender, Resize, Turn, at_start, selective_repeat_sender}
use lingi1341_trtp_gr.Command.{
  Atoi, Printf, ReceiverOption, ReceiverOptions, parse_receiver_commands, SenderOption,
  SenderOptions, parse_sender_commands, create_file,
}
use lingi1341_trtp_gr.Driver.{is_one}

-- An address with its port, in the order of the network.
pub record Address : Type 0 where
  pub host : ℕ
  pub sin6_port : ℕ

-- `htons` of an `int`, on a little-endian machine.
abbrev pub u16_of : ℤ → ℕ
u16_of (pos n) = n % 2 ^ 16
u16_of (negsuc n) = 2 ^ 16 - 1 - n % 2 ^ 16

abbrev pub htons : ℤ → ℕ
htons n = let w : ℕ = u16_of n in w % 256 * 256 + w / 256

-- `results` is what `getaddrinfo` finds, or `none` when it fails. The addresses are only printed, but
-- for the first.
unfoldable pub resolve : Option (List Address) → ℤ → Run (ℤ × Option Address)
resolve none port = done (negsuc 0, none)
resolve (some []) port = fault
resolve (some (a ∷ rest)) port = done (pos 1, some (record a { sin6_port = htons port }))

-- The result of `socket`, a descriptor or -1.
unfoldable pub create_socket : Option ℕ → Run ℕ
create_socket fd = or_exit fd

unfoldable pub bind_socket : Bool → ℕ → Run ℕ
bind_socket bound fd = if bound then done fd else exit_failure

-- What the system does for a program, outside its loop; `opened` is whether `fopen` succeeds.
pub record Calls : Type 0 where
  pub granted : Bool
  pub results : Option (List Address)
  pub socket : Option ℕ
  pub bound : Bool
  pub opened : Bool

-- What `create_file` does with the format, which may be NULL, and number 0.
abbrev pub first_created : Printf → Bool → Option (List ℕ) → Run (ℕ × Option (List ℕ))
first_created printf opened none = fault
first_created printf opened (some format) = create_file printf opened format 0

abbrev pub with_file : Run (ℕ × Option (List ℕ)) → Round → Round
with_file created sys = record sys { created = created }

-- EXIT_SUCCESS, or `none` while the program is in its loop.
abbrev pub status_of : Bool → Option ℕ
status_of ended = if ended then some 0 else none

unfoldable pub receiver_main :
    Crc32
    → Atoi
    → Printf
    → Calls
    → List ReceiverOption
    → List (List ℕ)
    → ReceiverOptions
    → List Round
    → Run (Option ℕ × Receiver)
receiver_main z atoi printf sys options arguments c rounds = do
  (rslt, c1) ← parse_receiver_commands atoi sys.granted options arguments c
  (found, addr) ← if is_one rslt then resolve sys.results c1.port else exit_failure
  sfd ← if is_one found then create_socket sys.socket else exit_failure
  bound ← bind_socket sys.bound sfd
  r ←
      selective_repeat_receiver z
        (map (with_file (first_created printf sys.opened c1.format)) rounds) start
  done (status_of r.ended, r)

-- The sender's loop is over when it made ten packets; what stands behind it is a fault, so that
-- EXIT_SUCCESS is not reached.
unfoldable pub sender_main :
    Crc32
    → Atoi
    → Resize
    → ℕ
    → Calls
    → List SenderOption
    → List (List ℕ)
    → SenderOptions
    → List Turn
    → Run (Option ℕ × Sender)
sender_main z atoi resize_buffer free_receiver sys options arguments d turns = do
  (rslt, d1) ← parse_sender_commands atoi sys.granted options arguments d
  (found, addr) ← if is_one rslt then resolve sys.results d1.port else exit_failure
  fd ← if is_one found then create_socket sys.socket else exit_failure
  s ← selective_repeat_sender z resize_buffer free_receiver turns at_start
  done (status_of (not (ltb s.k 10)), s)
