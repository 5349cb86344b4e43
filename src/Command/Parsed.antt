-- ===== src/Command/Parsed.antt =====
-- What the two programs make of their command lines (src/receiver.c, src/sender.c).
use lingi1341_trtp_gr.Base.{
  ℕ, ◌<◌, ◌≡◌, refl, arith, true, false, Option, some, List, [], ◌∷◌, length, ltb, if◌then◌else◌,
}
use lingi1341_trtp_gr.Base.Int.{ℤ, pos}
use lingi1341_trtp_gr.Base.Run.{Run, fault, exit_failure, done}
use lingi1341_trtp_gr.Command.{
  Atoi, is_zero, copy_argument, ReceiverOptions, ReceiverOption, option_o, option_m, unknown,
  read_receiver_options, parse_receiver_commands, SenderOptions, SenderOption, option_f,
  unknown_one, read_sender_options, parse_sender_commands,
}

-- The arguments of the last `-o`, `-m` and `-f`, or what was there before.
abbrev pub last_o : List ReceiverOption → Option (List ℕ) → Option (List ℕ)
last_o [] before = before
last_o (option_o text ∷ later) before = last_o later (some text)
last_o (_ ∷ later) before = last_o later before

abbrev pub last_m : Atoi → List ReceiverOption → ℤ → ℤ
last_m atoi [] before = before
last_m atoi (option_m text ∷ later) before = last_m atoi later (atoi text)
last_m atoi (_ ∷ later) before = last_m atoi later before

abbrev pub last_f : List SenderOption → Option (List ℕ) → Option (List ℕ)
last_f [] before = before
last_f (option_f text ∷ later) before = last_f later (some text)
last_f (unknown_one ∷ later) before = last_f later before

-- The argument of each `-m` is a number that is not 0, and that of each `-f` is short.
abbrev pub Numbers : Atoi → List ReceiverOption → Type 0
Numbers atoi [] = Unit {0}
Numbers atoi (option_m text ∷ later) = (is_zero (atoi text) ≡ false) × Numbers atoi later
Numbers atoi (_ ∷ later) = Numbers atoi later

abbrev pub AreShort : List SenderOption → Type 0
AreShort [] = Unit {0}
AreShort (option_f text ∷ later) = (length text < 8) × AreShort later
AreShort (unknown_one ∷ later) = AreShort later

read_receiver_options_lem :
    (atoi : Atoi) (options : List ReceiverOption) (c : ReceiverOptions)
    → Numbers atoi options
    → read_receiver_options atoi options c
      ≡ done (record c {
        format = last_o options c.format;
        connections = last_m atoi options c.connections;
      })
unfolding read_receiver_options
read_receiver_options_lem atoi [] c numbers = refl
read_receiver_options_lem atoi (option_o text ∷ later) c numbers =
    read_receiver_options_lem atoi later (record c { format = some text }) numbers
read_receiver_options_lem atoi (option_m text ∷ later) c (number, numbers) = ground (
  arith,
  number,
  read_receiver_options_lem atoi later (record c { connections = atoi text }) numbers,
)
read_receiver_options_lem atoi (unknown ∷ later) c numbers =
    read_receiver_options_lem atoi later c numbers

read_sender_options_lem :
    (options : List SenderOption) (c : SenderOptions)
    → AreShort options
    → read_sender_options true options c ≡ done (record c { filename = last_f options c.filename })
unfolding read_sender_options copy_argument
read_sender_options_lem [] c short = refl
read_sender_options_lem (option_f text ∷ later) c (fits, short) =
    ground (arith, fits, read_sender_options_lem later (record c { filename = some text }) short)
read_sender_options_lem (unknown_one ∷ later) c short = read_sender_options_lem later c short

-- The hostname and the port, read into `x`.
abbrev pub two_arguments : {A : Type 0} → List ℕ → ℤ → A → Run A
two_arguments hostname port x =
    if ltb (length hostname) 8 then if is_zero port then exit_failure else done x else fault

-- Only short hostnames are safe. When memory is granted, each number given with `-m` is not 0, and
-- each file name given with `-f` is shorter than 8, both programs, called with a hostname and a
-- port, return 1 with these, and with the arguments of the last options, in their global variables,
-- if the hostname is shorter than 8 bytes and the port is not 0; with port 0 they end; and a
-- hostname of 8 bytes or more overflows the 8 bytes it is copied to, whatever the port.
pub parse_commands_lem :
    (atoi : Atoi) (options : List ReceiverOption) (sender_options : List SenderOption)
    (hostname port : List ℕ) (c : ReceiverOptions) (d : SenderOptions)
    → Numbers atoi options
    → AreShort sender_options
    → (parse_receiver_commands atoi true options (hostname ∷ port ∷ []) c
        ≡ two_arguments hostname (atoi port) (
          pos 1,
          record {
            format = last_o options c.format;
            connections = last_m atoi options c.connections;
            hostname = some hostname;
            port = atoi port;
          },
        ))
      × (parse_sender_commands atoi true sender_options (hostname ∷ port ∷ []) d
          ≡ two_arguments hostname (atoi port) (
            pos 1,
            record {
              filename = last_f sender_options d.filename;
              hostname = some hostname;
              port = atoi port;
            },
          ))
unfolding parse_receiver_commands parse_sender_commands copy_argument
parse_commands_lem atoi options sender_options hostname port c d numbers short = (
  ground (arith, read_receiver_options_lem atoi options c numbers),
  ground (arith, read_sender_options_lem sender_options d short),
)
