-- ===== src/Receiver/Kept.antt =====
-- A packet that is kept in the buffer, and the round after it.
use lingi1341_trtp_gr.Base.{
  ℕ, zero, suc, ◌+◌, ◌%◌, ◌<◌, ◌^◌, ◌≡◌, ◌≢◌, refl, arith, true, false, Option, none, some, List,
  [], ◌∷◌, ◌++◌, set,
}
use lingi1341_trtp_gr.Base.Int.{pos, u8_of}
use lingi1341_trtp_gr.Base.Run.{done, fault}
use lingi1341_trtp_gr.Zlib.{Crc32}
use lingi1341_trtp_gr.Packet.{Pkt, ptype_data, pkt_new, zeroed}
use lingi1341_trtp_gr.Window.{is_in_window}
use lingi1341_trtp_gr.Transfer.{receive_pkt}
use lingi1341_trtp_gr.Transfer.Create.{ack_packet}
use lingi1341_trtp_gr.Packet.Encode.Layout.{encoding}
use lingi1341_trtp_gr.Receiver.State.{
  print_data, Store, Receiver, Round, update, window_size, one_more, is_nat, deref,
}
use lingi1341_trtp_gr.Receiver.Steps.{
  keep_packet, flush_slot, flush_slots, in_sequence, open_file, slide,
}
use lingi1341_trtp_gr.Receiver.Loop.{accept, handle, allocate, round}
use lingi1341_trtp_gr.Receiver.InOrder.{
  Synced, Smooth, IsWhole, last_of, next_expected, acknowledge_sends, after, at_low_end,
  fwrite_whole,
}

-- The store after a packet was put into it and freed.
abbrev pub passed : Store → Pkt → Store
passed h q = record { next = h.next + 1; cell = update (update h.cell h.next (some q)) h.next none }

-- The slots when only one holds an address `b`.
abbrev pub one_kept : ℕ → ℕ → List (Option ℕ)
one_kept i b = set (none ∷ none ∷ none ∷ []) i (some b)

pub flush_slots-kept :
    (a b i : ℕ) (q : Pkt) (r : Receiver)
    → i < 3
    → r.buffer ≡ one_kept i b
    → r.store.cell b ≡ some q
    → is_nat q.seqnum (one_more r.last_ack) ≡ false
    → flush_slots a window_size 0 r ≡ done r
unfolding flush_slots flush_slot deref
flush_slots-kept a b zero q r h e held early = ground arith
flush_slots-kept a b (suc zero) q r h e held early = ground arith
flush_slots-kept a b (suc (suc zero)) q r h e held early = ground arith
flush_slots-kept a b (suc (suc (suc i))) q r h e held early = absurd (omega arith)

pub flush_slots-dangling :
    (a b i : ℕ) (r : Receiver)
    → i < 3
    → r.buffer ≡ one_kept i b
    → r.store.cell b ≡ none
    → flush_slots a window_size 0 r ≡ fault
unfolding flush_slots flush_slot deref
flush_slots-dangling a b zero r h e freed = ground arith
flush_slots-dangling a b (suc zero) r h e freed = ground arith
flush_slots-dangling a b (suc (suc zero)) r h e freed = ground arith
flush_slots-dangling a b (suc (suc (suc i))) r h e freed = absurd (omega arith)

-- No sequence number but the next expected is one more than `last_ack`.
pub not_next : (n s : ℕ) → s < 256 → s ≢ n % 256 → is_nat s (one_more (last_of n)) ≡ false
not_next zero s h other = ground arith
not_next (suc k) s h other = ground arith

-- The sequence number in the acknowledgement when `n` packets were received.
abbrev pub acked : ℕ → ℕ
acked n = (n + 255) % 256

u8_of-last_of : (n : ℕ) → u8_of (last_of n) ≡ acked n
u8_of-last_of zero = refl
u8_of-last_of (suc k) = ground arith

-- The state behind a packet `q` that was kept.
abbrev pub kept : Crc32 → ℕ → Pkt → Receiver → Receiver
kept z n q r = record r {
  store = passed r.store q;
  free = pos 2;
  buffer = one_kept (q.seqnum % 3) r.store.next;
  acks = r.acks ++ (encoding z (ack_packet 2 (acked n) q.timestamp) ∷ []);
}

pub round_keeps :
    (z : Crc32) (sys : Round) (n : ℕ) (out : List ℕ) (q : Pkt) (r : Receiver)
    → Smooth sys
    → receive_pkt z sys.payload_granted sys.bytes sys.len zeroed ≡ some (pos 1, q)
    → Synced n out r
    → q.type ≡ ptype_data
    → is_in_window q.seqnum r.window_start r.window_end ≡ true
    → q.seqnum < 256
    → q.seqnum ≢ n % 256
    → q.timestamp < 2 ^ 32
    → print_data sys.null_shown q ≡ true
    → round z sys r ≡ done (kept z n q r)
unfolding round handle accept allocate pkt_new keep_packet
round_keeps z sys n out q r smooth arrives s t inside hs other ht shown =
    let r1 : Receiver = keep_packet r.store.next q (allocate q r) in
    ground (
      arith,
      next_expected n,
      not_next n q.seqnum hs other,
      u8_of-last_of n,
      flush_slots-kept r.store.next r.store.next (q.seqnum % 3) q r1,
      acknowledge_sends z sys r.store.next 2 (acked n) q r1 smooth,
    )

-- `in_sequence` on a state that agrees with one in step in all that it reads.
in_sequence_as :
    (sys : Round) (n : ℕ) (out : List ℕ) (p : Pkt) (r r' : Receiver)
    → Smooth sys
    → IsWhole p
    → Synced n out r
    → r'.last_ack ≡ r.last_ack
    → r'.window_start ≡ r.window_start
    → r'.window_end ≡ r.window_end
    → r'.first_time ≡ r.first_time
    → r'.ended ≡ r.ended
    → r'.file ≡ r.file
    → in_sequence sys p r' ≡ done (after n out p r')
unfolding in_sequence open_file slide
in_sequence_as sys n out p r r' smooth whole s e1 e2 e3 e4 e5 e6 =
    ground (arith, fwrite_whole p [] whole, fwrite_whole p out whole, next_expected n)

-- The expected packet after one that was kept: its round reads the packet that was freed.
pub round_after_kept :
    (z : Crc32) (sys : Round) (n : ℕ) (out : List ℕ) (k q : Pkt) (r : Receiver)
    → Smooth sys
    → receive_pkt z sys.payload_granted sys.bytes sys.len zeroed ≡ some (pos 1, q)
    → Synced n out r
    → IsWhole q
    → q.type ≡ ptype_data
    → q.seqnum ≡ n % 256
    → round z sys (kept z n k r) ≡ fault
unfolding round handle accept allocate pkt_new
round_after_kept z sys n out k q r smooth arrives s whole t seq =
    let r1 : Receiver = allocate q (kept z n k r) in
    let r2 : Receiver = after n out q r1 in
    ground (
      arith,
      at_low_end n,
      next_expected n,
      in_sequence_as sys n out q r r1 smooth whole s,
      flush_slots-dangling (r.store.next + 1) r.store.next (k.seqnum % 3) r2,
    )
