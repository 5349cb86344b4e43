-- ===== src/Driver/Unordered.antt =====
-- The packets of `unorder_test` (src/test.c) and the receiver's loop (src/receiver.c).
use lingi1341_trtp_gr.Base.{
  ℕ, ◌%◌, ◌≤◌, ◌<◌, ◌≡◌, ◌≢◌, refl, arith, true, some, List, [], ◌∷◌, ◌++◌, map, length, Bool-cases,
  inl, inr,
}
use lingi1341_trtp_gr.Base.Int.{pos}
use lingi1341_trtp_gr.Base.Run.{done, fault}
use lingi1341_trtp_gr.Zlib.{Crc32}
use lingi1341_trtp_gr.Packet.{Pkt, ptype_data, pkt_new, zeroed}
use lingi1341_trtp_gr.Packet.Encode.Layout.{encoding, header_crc}
use lingi1341_trtp_gr.Window.{is_in_window}
use lingi1341_trtp_gr.Transfer.{receive_pkt}
use lingi1341_trtp_gr.Transfer.EndToEnd.{received_data}
use lingi1341_trtp_gr.Receiver.State.{Receiver, Round, start, print_data}
use lingi1341_trtp_gr.Receiver.Loop.{accept, handle, allocate, round, selective_repeat_receiver}
use lingi1341_trtp_gr.Receiver.InOrder.{Synced, Smooth, next_expected}
use lingi1341_trtp_gr.Receiver.Rounds.{message_round, message_round-Smooth, IsData}
use lingi1341_trtp_gr.Receiver.Kept.{kept, round_keeps}
use lingi1341_trtp_gr.Receiver.Faults.{round_unshown}
use lingi1341_trtp_gr.Receiver.Standing.Early.{kept_twice}
use lingi1341_trtp_gr.Receiver.Transfer.{start-Synced}
use lingi1341_trtp_gr.Driver.{unordered_text, unorder_test}
use lingi1341_trtp_gr.Driver.Arrived.{datagram_round}
use lingi1341_trtp_gr.Driver.Sent.{
  all_sent, text_packet, IsText, text_packet-IsValid, send_text-sends,
}

-- Another early packet, for another slot.
round_keeps_twice :
    (z : Crc32) (sys : Round) (n : ℕ) (out : List ℕ) (k q : Pkt) (r : Receiver)
    → Smooth sys
    → receive_pkt z sys.payload_granted sys.bytes sys.len zeroed ≡ some (pos 1, q)
    → Synced n out r
    → q.type ≡ ptype_data
    → is_in_window q.seqnum r.window_start r.window_end ≡ true
    → q.seqnum < 256
    → q.seqnum ≢ n % 256
    → k.seqnum % 3 ≢ q.seqnum % 3
    → round z sys (kept z n k r) ≡ fault
unfolding round handle accept allocate pkt_new
round_keeps_twice z sys n out k q r smooth arrives s t inside hs other differ = ground (
  arith,
  next_expected n,
  kept_twice n (k.seqnum % 3) r.store.next q (kept z n k r) s.last (omega arith) refl (omega arith)
      (ground arith) differ hs other,
)

-- The packet as the receiver reads it.
abbrev read : Crc32 → Pkt → List ℕ → Pkt
read z p obj = record p { crc1 = header_crc z p; crc2 = z.crc32 (some obj) }

inside : (seqnum : ℕ) → seqnum ≤ 2 → is_in_window seqnum 0 2 ≡ true
unfolding is_in_window
inside seqnum h = ground (arith, h)

-- An early packet for the window that the receiver starts with.
pub record IsEarly (p : Pkt) : Type 0 where
  pub carries : IsData p
  pub not_first : 1 ≤ p.seqnum
  pub in_window : p.seqnum ≤ 2

-- Two early packets in a row break the receiver: when its first two rounds bring two data packets
-- with different sequence numbers, each 1 or 2, in front of anything, and every call succeeds, it
-- faults, whatever the packets carry and whatever would come later.
pub two_early :
    (z : Crc32) (p q : Pkt) (junk behind : List ℕ) (later : List Round)
    → IsEarly p
    → IsEarly q
    → p.seqnum ≢ q.seqnum
    → selective_repeat_receiver z (message_round z p junk ∷ message_round z q behind ∷ later) start
      ≡ fault
unfolding selective_repeat_receiver
two_early z p q junk behind later first_early second_early differ =
    let (obj, held) = first_early.carries.has_payload in
    let arrives =
      received_data z p obj junk first_early.carries.valid first_early.carries.data_type
        first_early.carries.whole held in
    let (obj', held') = second_early.carries.has_payload in
    let slots : p.seqnum % 3 ≢ q.seqnum % 3 =
      omega (arith, differ, first_early.in_window, second_early.in_window) in
    elim (Bool-cases (print_data true (read z p obj))) [
      | inr unshown ↦ ground (
        arith,
        round_unshown z (message_round z p junk) (read z p obj) start
            (message_round-Smooth z p junk) arrives unshown,
      )
      | inl shown ↦ ground (
        arith,
        round_keeps z (message_round z p junk) 0 [] (read z p obj) start
            (message_round-Smooth z p junk) arrives start-Synced first_early.carries.data_type
            (inside p.seqnum first_early.in_window) (omega (arith, first_early.in_window))
            (omega (arith, first_early.not_first, first_early.in_window))
            (omega (arith, first_early.carries.valid)) shown,
        round_keeps_twice z (message_round z q behind) 0 [] (read z p obj) (read z q obj') start
            (message_round-Smooth z q behind)
            (received_data z q obj' behind second_early.carries.valid second_early.carries.data_type
              second_early.carries.whole held')
            start-Synced second_early.carries.data_type (inside q.seqnum second_early.in_window)
            (omega (arith, second_early.in_window))
            (omega (arith, second_early.not_first, second_early.in_window)) slots,
      )
    ]

unordered_text-IsText : IsText unordered_text
unordered_text-IsText = record { bytes = ground arith; fits = omega arith }

text-IsEarly : (seqnum : ℕ) → 1 ≤ seqnum → seqnum ≤ 2 → IsEarly (text_packet unordered_text seqnum)
text-IsEarly seqnum h h' = record {
  carries = record {
    valid = text_packet-IsValid unordered_text seqnum unordered_text-IsText;
    data_type = refl;
    whole = refl;
    has_payload = (unordered_text ++ (0 ∷ []), refl);
  };
  not_first = omega (arith, h, h');
  in_window = omega (arith, h, h');
}

-- The driver's own test of reordering breaks the receiver. When every call succeeds, and the
-- datagrams of `unorder_test` arrive one after the other in the receive buffer, in front of the same
-- bytes, the receiver faults.
unorder_test_faults :
    (z : Crc32) (junk : List ℕ)
    → (ds : List (List ℕ)) × (unorder_test z (λ _. all_sent) ≡ done ds)
      × (length ds ≡ 5)
      × (selective_repeat_receiver z (map (datagram_round junk) ds) start ≡ fault)
unfolding unorder_test
unorder_test_faults z junk =
    let d : ℕ → List ℕ = λ n. encoding z (text_packet unordered_text n) in
    (
      d 2 ∷ d 1 ∷ d 3 ∷ d 0 ∷ d 3 ∷ [],
      ground (
        arith,
        send_text-sends z unordered_text 2 unordered_text-IsText,
        send_text-sends z unordered_text 1 unordered_text-IsText,
        send_text-sends z unordered_text 3 unordered_text-IsText,
        send_text-sends z unordered_text 0 unordered_text-IsText,
      ),
      refl,
      two_early z (text_packet unordered_text 2) (text_packet unordered_text 1) junk junk
          (map (datagram_round junk) (d 3 ∷ d 0 ∷ d 3 ∷ []))
          (text-IsEarly 2 (omega arith) (omega arith)) (text-IsEarly 1 (omega arith) (omega arith))
          (omega arith),
    )
