-- ===== src/Receiver/Faults.antt =====
-- What a round does with packets out of order, outside the window, or damaged.
use lingi1341_trtp_gr.Base.{
  ℕ, ◌+◌, ◌%◌, ◌≤◌, ◌<◌, ◌^◌, ◌≡◌, ◌≢◌, arith, true, false, some, List, ◌∷◌, ◌⊎◌, inl, Bool-cases,
  inr,
}
use lingi1341_trtp_gr.Base.Int.{pos}
use lingi1341_trtp_gr.Base.Run.{done, fault}
use lingi1341_trtp_gr.Zlib.{Crc32}
use lingi1341_trtp_gr.Packet.{Pkt, ptype_data, pkt_new, zeroed}
use lingi1341_trtp_gr.Packet.Valid.{IsValid}
use lingi1341_trtp_gr.Packet.Decode.Message.{message, wrong_crc1}
use lingi1341_trtp_gr.Window.{is_in_window}
use lingi1341_trtp_gr.Transfer.{receive_pkt}
use lingi1341_trtp_gr.Packet.Encode.Layout.{header_crc}
use lingi1341_trtp_gr.Receiver.State.{Receiver, Round, pkt_del, fwrite_payload, print_data}
use lingi1341_trtp_gr.Receiver.Steps.{in_sequence, open_file}
use lingi1341_trtp_gr.Receiver.Loop.{
  accept, discard, handle, allocate, round, selective_repeat_receiver,
}
use lingi1341_trtp_gr.Receiver.Kept.{passed, round_keeps, round_after_kept}
use lingi1341_trtp_gr.Receiver.InOrder.{Synced, Smooth, IsWhole, next_expected, at_low_end}

-- In a round in which every call succeeds, also that of `print_data`, a packet that is not data, or whose sequence
-- number is outside the window, leaves the receiver as it was but for the address that it was
-- freed from: nothing is written, and no acknowledgement is sent.
pub round_discards :
    (z : Crc32) (sys : Round) (q : Pkt) (r : Receiver)
    → Smooth sys
    → receive_pkt z sys.payload_granted sys.bytes sys.len zeroed ≡ some (pos 1, q)
    → (q.type ≢ ptype_data) ⊎ (is_in_window q.seqnum r.window_start r.window_end ≡ false)
    → print_data sys.null_shown q ≡ true
    → round z sys r ≡ done (record r { store = passed r.store q })
unfolding round handle discard pkt_new pkt_del allocate
round_discards z sys q r smooth arrives (inl other) shown = ground arith
round_discards z sys q r smooth arrives (inr outside) shown = ground arith

-- A packet that `print_data` reads past the end of.
pub round_unshown :
    (z : Crc32) (sys : Round) (q : Pkt) (r : Receiver)
    → Smooth sys
    → receive_pkt z sys.payload_granted sys.bytes sys.len zeroed ≡ some (pos 1, q)
    → print_data sys.null_shown q ≡ false
    → round z sys r ≡ fault
unfolding round pkt_new
round_unshown z sys q r smooth arrives unshown = ground arith

-- Reordering breaks the receiver. After `n` packets in order, let a data packet inside the window
-- arrive that is not the next expected, and then the next expected one, whole, in rounds in which
-- every system call succeeds: unless `print_data` reads past the first one's payload, that packet
-- is kept in the buffer and freed, and the second round reads it there, a use after free. Either
-- way it is a fault, and no later round is reached.
pub reordering_faults :
    (z : Crc32) (early expected : Round) (later : List Round) (n : ℕ) (out : List ℕ) (k q : Pkt)
    (r : Receiver)
    → Synced n out r
    → Smooth early
    → Smooth expected
    → receive_pkt z early.payload_granted early.bytes early.len zeroed ≡ some (pos 1, k)
    → receive_pkt z expected.payload_granted expected.bytes expected.len zeroed ≡ some (pos 1, q)
    → k.type ≡ ptype_data
    → is_in_window k.seqnum r.window_start r.window_end ≡ true
    → k.seqnum < 256
    → k.seqnum ≢ n % 256
    → k.timestamp < 2 ^ 32
    → q.type ≡ ptype_data
    → q.seqnum ≡ n % 256
    → IsWhole q
    → selective_repeat_receiver z (early ∷ expected ∷ later) r ≡ fault
unfolding selective_repeat_receiver
reordering_faults z early expected later n out k q r s se sx ae ax tk inside hs other ht tq seq
      whole =
    elim (Bool-cases (print_data early.null_shown k)) [
      | inl shown ↦ ground (
        arith,
        s.going,
        round_keeps z early n out k r se ae s tk inside hs other ht shown,
        round_after_kept z expected n out k q r sx ax s whole tq seq,
      )
      | inr unshown ↦ ground (arith, s.going, round_unshown z early k r se ae unshown)
    ]

-- Damage breaks the receiver. After `n` packets in order, when the next expected data packet,
-- valid, with TR 0 and not empty, arrives in a round in which every system call succeeds, in a
-- datagram of at least `11 + length` bytes, with its header intact but another word in place of
-- the header's CRC, `pkt_decode` returns E_CRC without copying the payload; `receive_pkt` hides
-- that, and the round faults: where the C library prints something for NULL, it writes `length`
-- bytes from NULL.
pub damage_faults :
    (z : Crc32) (sys : Round) (n : ℕ) (out : List ℕ) (p : Pkt) (w m : ℕ) (rest : List ℕ)
    (r : Receiver)
    → Synced n out r
    → Smooth sys
    → IsValid p
    → p.type ≡ ptype_data
    → p.tr ≡ 0
    → 1 ≤ p.length
    → p.seqnum ≡ n % 256
    → w < 2 ^ 32
    → w ≢ header_crc z p
    → sys.bytes ≡ message p w rest
    → 11 + p.length ≤ m
    → sys.len ≡ pos m
    → round z sys r ≡ fault
unfolding round handle accept allocate pkt_new in_sequence open_file fwrite_payload receive_pkt
damage_faults z sys n out p w m rest r s smooth v t whole nonempty seq hw wrong bytes long len =
    ground
      (arith, at_low_end n, next_expected n, wrong_crc1 p w rest z sys.payload_granted m hw wrong v)
