-- ===== src/Receiver/Steps.antt =====
-- The steps of the loop of `selective_repeat_receiver` (src/receiver.c) on a packet in the window.
use lingi1341_trtp_gr.Base.{
  ℕ, zero, suc, ◌+◌, ◌%◌, Bool, true, false, Option, none, List, some, [], ◌∷◌, ◌++◌, ◌==◌,
  if◌then◌else◌, get_elem?, set,
}
use lingi1341_trtp_gr.Base.Int.{ℤ, pos, negsuc, u8_of}
use lingi1341_trtp_gr.Base.Run.{Run, fault, exit_failure, done, ◌>>=◌, or_exit}
use lingi1341_trtp_gr.Zlib.{Crc32}
use lingi1341_trtp_gr.Packet.{
  Pkt, pkt_new, max_seq_num, pkt_get_seqnum, pkt_get_length, pkt_get_timestamp,
}
use lingi1341_trtp_gr.Transfer.{create_ack_pkt, send_pkt}
use lingi1341_trtp_gr.Receiver.State.{
  Receiver, window_size, Round, one_more, one_less, rem_256, is_nat, deref, pkt_del, fwrite_payload,
}

-- What `*fp` is: an empty file, or NULL.
abbrev pub opened : Option (List ℕ) → Option (List ℕ)
opened none = none
opened (some _) = some []

-- A file is made for the first packet.
unfoldable pub open_file : Round → Receiver → Run Receiver
open_file sys r =
    if r.first_time
    then (do named ← sys.created; done (record r { file = opened named.1; first_time = false }))
    else done r

-- `last_ack` and both ends of the window move on by one.
unfoldable pub slide : Receiver → Receiver
slide r = record r {
  last_ack = rem_256 (one_more r.last_ack);
  window_start = (r.window_start + 1) % max_seq_num;
  window_end = (r.window_end + 1) % max_seq_num;
}

-- The packet received is the next expected.
unfoldable pub in_sequence : Round → Pkt → Receiver → Run Receiver
in_sequence sys p r = do
  r1 ← open_file sys r
  out ← fwrite_payload p r1.file
  let r2 = slide (record r1 { file = out })
  done (if pkt_get_length p == 0 then record r2 { ended = true } else r2)

-- The packet received is not the next expected: its address is kept.
unfoldable pub keep_packet : ℕ → Pkt → Receiver → Receiver
keep_packet a p r = record r {
  buffer = set r.buffer (pkt_get_seqnum p % window_size) (some a);
  free = one_less r.free;
}

-- `pkt_get_length(buffer[i]) == 0` ends the loop; NULL is a fault.
unfoldable pub end_if_empty : ℕ → Receiver → Run Receiver
end_if_empty i r = elim (get_elem? r.buffer i) [
  | none ↦ fault
  | some none ↦ fault
  | some (some b) ↦ do
    q ← deref r.store b
    done (if pkt_get_length q == 0 then record r { ended = true } else r)
]

-- A kept packet `b` is next: the payload of `data_packet`, at `a`, is written.
unfoldable pub take_kept : ℕ → ℕ → ℕ → Receiver → Run Receiver
take_kept a b i r = do
  p ← deref r.store a
  out ← fwrite_payload p r.file
  h ← pkt_del r.store b
  end_if_empty i (
      slide
        (record r { file = out; store = h; buffer = set r.buffer i none; free = one_more r.free }))

unfoldable pub flush_slot : ℕ → ℕ → Receiver → Run Receiver
flush_slot a i r = elim (get_elem? r.buffer i) [
  | none ↦ fault
  | some none ↦ done r
  | some (some b) ↦ do
    q ← deref r.store b
    if is_nat (pkt_get_seqnum q) (one_more r.last_ack) then take_kept a b i r else done r
]

-- The slots from `i` on, `n` of them.
unfoldable pub flush_slots : ℕ → ℕ → ℕ → Receiver → Run Receiver
flush_slots a zero i r = done r
flush_slots a (suc n) i r = do r1 ← flush_slot a i r; flush_slots a n (i + 1) r1

abbrev pub is_error : ℤ → Bool
is_error (pos n) = false
is_error (negsuc n) = n == 0

-- The acknowledgement packet is made and freed here, and nothing else points to it, so that it is
-- not put into the store.
unfoldable pub acknowledge : Crc32 → Round → ℕ → Receiver → Run Receiver
acknowledge z sys a r = do
  fresh ← or_exit (pkt_new sys.ack_granted)
  p ← deref r.store a
  (rslt, ack) ← create_ack_pkt (u8_of r.free) (u8_of r.last_ack) (pkt_get_timestamp p) fresh
  (status, datagram) ← if is_error rslt then exit_failure else send_pkt z sys.ack_sent ack
  h ← if is_error status then exit_failure else pkt_del r.store a
  done (record r { store = h; acks = r.acks ++ (datagram ∷ []) })
