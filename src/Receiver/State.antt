-- ===== src/Receiver/State.antt =====
-- The state of `selective_repeat_receiver` (src/receiver.c), its integers, and its accesses to packets.
-- Packets live in a store, since the receive buffer and `data_packet` share them: an access to a
-- packet that was freed, or through NULL, is a fault. The store never gives an address out twice.
use lingi1341_trtp_gr.Base.{
  ℕ, zero, suc, ◌+◌, ◌-◌, ◌%◌, Bool, true, false, Option, none, some, List, [], ◌∷◌, ◌++◌, ◌==◌,
  if◌then◌else◌, replicate,
}
use lingi1341_trtp_gr.Base.Int.{ℤ, pos, negsuc}
use lingi1341_trtp_gr.Base.Memory.{load}
use lingi1341_trtp_gr.Base.Run.{Run, done, ◌>>=◌, or_fault}
use lingi1341_trtp_gr.Packet.{Pkt, max_seq_num, pkt_get_length, pkt_get_payload}
use lingi1341_trtp_gr.Transfer.{SendResult}

-- `next` is the address that the next allocation returns.
pub record Store : Type 0 where
  pub next : ℕ
  pub cell : ℕ → Option Pkt

abbrev pub update : (ℕ → Option Pkt) → ℕ → Option Pkt → ℕ → Option Pkt
update f a v b = if a == b then v else f b

-- The local variables, the output file, and the datagrams sent, in order.
pub record Receiver : Type 0 where
  pub store : Store
  pub free : ℤ
  pub window_start : ℕ
  pub window_end : ℕ
  pub last_ack : ℤ
  pub buffer : List (Option ℕ)
  pub first_time : Bool
  pub ended : Bool
  pub file : Option (List ℕ)
  pub acks : List (List ℕ)

abbrev pub window_size : ℕ
window_size = 3

-- The state in front of the loop.
abbrev pub start : Receiver
start = record {
  store = record { next = 0; cell = λ _. none };
  free = pos window_size;
  window_start = 0;
  window_end = window_size - 1;
  last_ack = negsuc 0;
  buffer = replicate window_size none;
  first_time = true;
  ended = false;
  file = none;
  acks = [];
}

-- What the system does in one round: whether each call succeeds, the receive buffer, the result of
-- `recv`, what `create_file` does if it is called, and whether the C library prints anything for `%s`
-- and NULL, which C leaves undefined; glibc prints `(null)`.
pub record Round : Type 0 where
  pub peeked : Bool
  pub packet_granted : Bool
  pub payload_granted : Bool
  pub bytes : List ℕ
  pub len : ℤ
  pub created : Run (ℕ × Option (List ℕ))
  pub null_shown : Bool
  pub ack_granted : Bool
  pub ack_sent : SendResult

-- `last_ack + 1`, and the remainder that C computes of an `int`.
abbrev pub one_more : ℤ → ℤ
one_more (pos n) = pos (n + 1)
one_more (negsuc zero) = pos 0
one_more (negsuc (suc n)) = negsuc n

abbrev pub one_less : ℤ → ℤ
one_less (pos zero) = negsuc 0
one_less (pos (suc n)) = pos n
one_less (negsuc n) = negsuc (n + 1)

abbrev pub rem_256 : ℤ → ℤ
rem_256 (pos n) = pos (n % max_seq_num)
rem_256 (negsuc n) = let r : ℕ = (n + 1) % max_seq_num in if r == 0 then pos 0 else negsuc (r - 1)

abbrev pub is_nat : ℕ → ℤ → Bool
is_nat n (pos m) = n == m
is_nat n (negsuc m) = false

-- A packet behind a pointer that is not NULL.
unfoldable pub deref : Store → ℕ → Run Pkt
deref h a = or_fault (h.cell a)

-- `pkt_del` on a pointer that is not NULL; a second one on the same packet is a fault.
unfoldable pub pkt_del : Store → ℕ → Run Store
pkt_del h a = do p ← or_fault (h.cell a); done (record h { cell = update h.cell a none })

-- `fwrite(payload, 1, length, fp)` reads `length` bytes; NULL has none, and `fp` must be open.
unfoldable pub fwrite_payload : Pkt → Option (List ℕ) → Run (Option (List ℕ))
fwrite_payload p file = do
  out ← or_fault file
  bytes ← or_fault (elim (pkt_get_payload p) [
    | none ↦ if pkt_get_length p == 0 then some [] else none
    | some obj ↦ load obj 0 (pkt_get_length p)
  ])
  done (some (out ++ bytes))

abbrev pub has_zero : List ℕ → Bool
has_zero [] = false
has_zero (b ∷ rest) = let later : Bool = has_zero rest in if b == 0 then true else later

-- Whether `print_data` ends: its `%s` reads the payload up to the first zero byte, and past the end
-- of an object with none.
unfoldable pub print_data : Bool → Pkt → Bool
print_data null_shown p = elim (pkt_get_payload p) [ none ↦ null_shown | some obj ↦ has_zero obj ]
