-- ===== src/Sender.antt =====
-- The loop of `selective_repeat_sender` (src/sender.c).
-- The file calls `resize_buffer` and reads `free_receiver`, which no file declares: they are
-- parameters. What it does after a call of `error` is not reached.
pub mod Acknowledged
pub mod Unfinished
mod Tests
use lingi1341_trtp_gr.Base.{
  ℕ, zero, suc, ◌+◌, ◌-◌, ◌%◌, ◌^◌, Bool, true, false, not, ◌&&◌, Option, none, some, List, [], ◌∷◌,
  ◌++◌, ltb, leb, ◌==◌, if◌then◌else◌, length, get_elem?, set, replicate,
}
use lingi1341_trtp_gr.Base.Int.{ℤ, pos, negsuc}
use lingi1341_trtp_gr.Base.Run.{Run, fault, exit_failure, done, ◌>>=◌, or_fault, or_exit}
use lingi1341_trtp_gr.Zlib.{Crc32}
use lingi1341_trtp_gr.Packet.{
  Pkt, pkt_new, max_window_size, max_seq_num, pkt_get_seqnum, pkt_get_timestamp, pkt_get_window,
}
use lingi1341_trtp_gr.Window.{is_in_window}
use lingi1341_trtp_gr.Transfer.{SendResult, create_data_pkt, send_pkt, receive_pkt}
use lingi1341_trtp_gr.Receiver.Steps.{is_error}

-- "Hello World !" with its final zero: `strlen(payload)+1` bytes.
abbrev pub hello : List ℕ
hello = 72 ∷ 101 ∷ 108 ∷ 108 ∷ 111 ∷ 32 ∷ 87 ∷ 111 ∷ 114 ∷ 108 ∷ 100 ∷ 32 ∷ 33 ∷ 0 ∷ []

-- The local variables, and the datagrams sent, in order. Each packet in the buffer is held by its
-- slot alone.
pub record Sender : Type 0 where
  pub window_size : ℕ
  pub window_start : ℕ
  pub window_end : ℕ
  pub free : ℕ
  pub seqnum : ℕ
  pub buffer : List (Option Pkt)
  pub k : ℕ
  pub sent : List (List ℕ)

-- The state in front of the loop.
abbrev pub at_start : Sender
at_start = record {
  window_size = 1;
  window_start = 0;
  window_end = 0;
  free = 1;
  seqnum = 0;
  buffer = replicate max_window_size none;
  k = 0;
  sent = [];
}

-- What `resize_buffer(&window_size, &window_end, &buffer, new_window_size)` returns and leaves.
pub record Resized : Type 0 where
  pub rslt : ℤ
  pub size : ℕ
  pub high : ℕ
  pub slots : List (Option Pkt)

abbrev pub Resize : Type 0
Resize = ℕ → ℕ → List (Option Pkt) → ℕ → Resized

-- What the system does in one turn of the loop: for the packet made for each slot, whether there is
-- memory for it and its payload and what sending it gives; and the same for the acknowledgement.
pub record Turn : Type 0 where
  pub made : ℕ → Bool
  pub copied : ℕ → Bool
  pub send : ℕ → SendResult
  pub ack_granted : Bool
  pub payload_granted : Bool
  pub bytes : List ℕ
  pub len : ℤ

-- Slot `i`, which holds `slot`: a packet is made for it when it is empty, stored and sent.
unfoldable pub send_at : Crc32 → Turn → ℕ → Option (Option Pkt) → Sender → Run Sender
send_at z sys i none s = fault
send_at z sys i (some (some _)) s = done s
send_at z sys i (some none) s = do
  fresh ← or_exit (pkt_new (sys.made i))
  (rslt, p) ← or_fault (
      create_data_pkt (sys.copied i) 0 (s.window_size % 2 ^ 8) (length hello) (s.seqnum % 2 ^ 8)
        (s.k % 2 ^ 32) (some hello) fresh)
  (status, datagram) ← if is_error rslt then exit_failure else send_pkt z (sys.send i) p
  if is_error status
      then exit_failure
      else done (record s {
        k = s.k + 1;
        buffer = set s.buffer i (some p);
        free = s.free - 1;
        seqnum = s.seqnum + 1;
        sent = s.sent ++ (datagram ∷ []);
      })

unfoldable pub send_slot : Crc32 → Turn → ℕ → Sender → Run Sender
send_slot z sys i s = send_at z sys i (get_elem? s.buffer i) s

-- The sending phase, from slot `i` on, `n` slots.
unfoldable pub send_slots : Crc32 → Turn → ℕ → ℕ → Sender → Run Sender
send_slots z sys zero i s = done s
send_slots z sys (suc n) i s = elim (ltb 0 s.free) [
  | false ↦ done s
  | true ↦ do s1 ← send_slot z sys i s; send_slots z sys n (i + 1) s1
]

-- A packet that is not later than the acknowledgement leaves its slot.
unfoldable pub clear_at : ℕ → ℕ → Option (Option Pkt) → Sender → Run Sender
clear_at timestamp i none s = fault
clear_at timestamp i (some none) s = done s
clear_at timestamp i (some (some p)) s =
    if leb (pkt_get_timestamp p) timestamp
    then done (record s { buffer = set s.buffer i none; free = s.free + 1 })
    else done s

unfoldable pub clear_slot : ℕ → ℕ → Sender → Run Sender
clear_slot timestamp i s = clear_at timestamp i (get_elem? s.buffer i) s

unfoldable pub clear_slots : ℕ → ℕ → ℕ → Sender → Run Sender
clear_slots timestamp zero i s = done s
clear_slots timestamp (suc n) i s = do
  s1 ← clear_slot timestamp i s
  clear_slots timestamp n (i + 1) s1

unfoldable pub slide_to : ℕ → ℕ → Sender → Sender
slide_to free_receiver seqnum s =
    let low : ℕ = (seqnum + 1) % max_seq_num in
    record s { window_start = low; window_end = (low + free_receiver) % max_window_size }

-- The acknowledgement was freed before the test; outside the window it is freed again, a fault.
unfoldable pub settle : ℕ → Pkt → Sender → Run Sender
settle free_receiver a s =
    if is_in_window (pkt_get_seqnum a) s.window_start s.window_end
    then (do
      s1 ← clear_slots (pkt_get_timestamp a) s.window_size 0 s
      done (slide_to free_receiver (pkt_get_seqnum a) s1))
    else fault

-- The test on the result of `resize_buffer`, and what comes after it.
unfoldable pub settle_resized : ℕ → Pkt → Resized → ℤ → Sender → Run Sender
settle_resized free_receiver a new (negsuc _) s = exit_failure
settle_resized free_receiver a new (pos n) s =
    if n == 1
    then settle free_receiver a
        (record s { window_size = new.size; window_end = new.high; buffer = new.slots })
    else exit_failure

-- The acknowledgment phase.
unfoldable pub await_ack : Crc32 → Resize → ℕ → Turn → Sender → Run Sender
await_ack z resize_buffer free_receiver sys s = do
  fresh ← or_exit (pkt_new sys.ack_granted)
  (rslt, a) ← or_fault (receive_pkt z sys.payload_granted sys.bytes sys.len fresh)
  let new : Resized = resize_buffer s.window_size s.window_end s.buffer (pkt_get_window a)
  if is_error rslt then exit_failure else settle_resized free_receiver a new new.rslt s

unfoldable pub turn : Crc32 → Resize → ℕ → Turn → Sender → Run Sender
turn z resize_buffer free_receiver sys s = do
  s1 ← send_slots z sys s.window_size 0 s
  await_ack z resize_buffer free_receiver sys s1

-- The loop, on as many turns as the system gives; `end` is never set. Behind the loop stands
-- `free(buffer)`: `buffer` is an array on the stack, and `free` the local integer, which cannot be
-- called, so that this end of the function is a fault.
unfoldable pub selective_repeat_sender : Crc32 → Resize → ℕ → List Turn → Sender → Run Sender
selective_repeat_sender z resize_buffer free_receiver [] s = if ltb s.k 10 then done s else fault
selective_repeat_sender z resize_buffer free_receiver (sys ∷ later) s = elim (ltb s.k 10) [
  | false ↦ fault
  | true ↦ do
    s1 ← turn z resize_buffer free_receiver sys s
    selective_repeat_sender z resize_buffer free_receiver later s1
]
