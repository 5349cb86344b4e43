-- ===== src/Receiver/Loop.antt =====
-- The loop of `selective_repeat_receiver` (src/receiver.c).
use lingi1341_trtp_gr.Base.{ℕ, ◌+◌, true, false, ◌&&◌, some, List, [], ◌∷◌, ◌==◌, if◌then◌else◌}
use lingi1341_trtp_gr.Base.Run.{Run, fault, exit_failure, done, ◌>>=◌, or_fault, or_exit}
use lingi1341_trtp_gr.Zlib.{Crc32}
use lingi1341_trtp_gr.Packet.{Pkt, pkt_new, ptype_data, pkt_get_type, pkt_get_seqnum}
use lingi1341_trtp_gr.Window.{is_in_window}
use lingi1341_trtp_gr.Transfer.{receive_pkt}
use lingi1341_trtp_gr.Receiver.State.{
  update, Receiver, window_size, Round, one_more, rem_256, is_nat, pkt_del, print_data,
}
use lingi1341_trtp_gr.Receiver.Steps.{in_sequence, keep_packet, flush_slots, is_error, acknowledge}

-- The packet `p`, at `a`, is data inside the window.
unfoldable pub accept : Crc32 → Round → ℕ → Pkt → Receiver → Run Receiver
accept z sys a p r = do
  r1 ←
      if is_nat (pkt_get_seqnum p) (rem_256 (one_more r.last_ack))
      then in_sequence sys p r
      else done (keep_packet a p r)
  r2 ← flush_slots a window_size 0 r1
  acknowledge z sys a r2

unfoldable pub discard : ℕ → Receiver → Run Receiver
discard a r = do h ← pkt_del r.store a; done (record r { store = h })

unfoldable pub handle : Crc32 → Round → ℕ → Pkt → Receiver → Run Receiver
handle z sys a p r =
    if is_in_window (pkt_get_seqnum p) r.window_start r.window_end && pkt_get_type p == ptype_data
    then accept z sys a p r
    else discard a r

-- `data_packet` is put at a new address.
unfoldable pub allocate : Pkt → Receiver → Receiver
allocate p r = record r {
  store = record { next = r.store.next + 1; cell = update r.store.cell r.store.next (some p) };
}

-- The body of the loop.
unfoldable pub round : Crc32 → Round → Receiver → Run Receiver
round z sys r = do
  fresh ← if sys.peeked then or_exit (pkt_new sys.packet_granted) else exit_failure
  (rslt, p) ← or_fault (receive_pkt z sys.payload_granted sys.bytes sys.len fresh)
  if is_error rslt
      then exit_failure
      else if print_data sys.null_shown p
      then handle z sys r.store.next p (allocate p r)
      else fault

-- The loop, on as many rounds as the system gives.
unfoldable pub selective_repeat_receiver : Crc32 → List Round → Receiver → Run Receiver
selective_repeat_receiver z [] r = done r
selective_repeat_receiver z (sys ∷ later) r = elim r.ended [
  | true ↦ done r
  | false ↦ do r1 ← round z sys r; selective_repeat_receiver z later r1
]
