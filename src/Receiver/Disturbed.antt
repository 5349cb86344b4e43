-- ===== src/Receiver/Disturbed.antt =====
-- Transfers with other datagrams in between: packets that come again, packets that are not data.
mod Tests
use lingi1341_trtp_gr.Base.{
  ℕ, suc, ◌%◌, ◌+◌, ◌≡◌, ◌≢◌, ◌⊎◌, inl, inr, refl, ap, ◌∙◌, arith, true, false, some, List, [], ◌∷◌,
  ◌++◌, length, append_assoc, append-nil,
}
use lingi1341_trtp_gr.Base.Int.{pos}
use lingi1341_trtp_gr.Base.Run.{done}
use lingi1341_trtp_gr.Zlib.{Crc32}
use lingi1341_trtp_gr.Packet.{Pkt, ptype_data, zeroed}
use lingi1341_trtp_gr.Packet.Encode.Layout.{encoding}
use lingi1341_trtp_gr.Window.{is_in_window}
use lingi1341_trtp_gr.Transfer.{receive_pkt}
use lingi1341_trtp_gr.Transfer.Create.{ack_packet}
use lingi1341_trtp_gr.Receiver.State.{Receiver, Round, start, print_data}
use lingi1341_trtp_gr.Receiver.Loop.{round, selective_repeat_receiver}
use lingi1341_trtp_gr.Receiver.InOrder.{Synced, Smooth, content}
use lingi1341_trtp_gr.Receiver.Kept.{passed}
use lingi1341_trtp_gr.Receiver.Faults.{round_discards}
use lingi1341_trtp_gr.Receiver.Rounds.{
  message_round, IsData, IsShown, IsLast, round_data, round_last,
}
use lingi1341_trtp_gr.Receiver.Transfer.{
  start-Synced, contents, replies, count, loop_step, loop_stop,
}

-- The next packet of the transfer, in front of some bytes, or another round with what `pkt_decode`
-- makes of its datagram.
pub data Arrival : Type 0 where
  fresh : Pkt → List ℕ → Arrival
  stray : Round → Pkt → Arrival

-- After `n` packets of the transfer, what arrives is not data, or outside the window.
pub record IsStray (z : Crc32) (n : ℕ) (sys : Round) (q : Pkt) : Type 0 where
  pub smooth : Smooth sys
  pub arrives : receive_pkt z sys.payload_granted sys.bytes sys.len zeroed ≡ some (pos 1, q)
  pub shown : print_data sys.null_shown q ≡ true
  pub unwanted : (q.type ≢ ptype_data) ⊎ (is_in_window q.seqnum (n % 256) ((n + 2) % 256) ≡ false)

abbrev pub IsDisturbed : Crc32 → ℕ → List Arrival → Type 0
IsDisturbed z n [] = Unit {0}
IsDisturbed z n (fresh p junk ∷ later) =
    IsData p × IsShown p × (p.seqnum ≡ n % 256) × IsDisturbed z (suc n) later
IsDisturbed z n (stray sys q ∷ later) = IsStray z n sys q × IsDisturbed z n later

abbrev pub fresh_ones : List Arrival → List (Pkt × List ℕ)
fresh_ones [] = []
fresh_ones (fresh p junk ∷ later) = (p, junk) ∷ fresh_ones later
fresh_ones (stray sys q ∷ later) = fresh_ones later

abbrev pub arrival_rounds : Crc32 → List Arrival → List Round
arrival_rounds z [] = []
arrival_rounds z (fresh p junk ∷ later) = message_round z p junk ∷ arrival_rounds z later
arrival_rounds z (stray sys q ∷ later) = sys ∷ arrival_rounds z later

stray-Synced :
    (n : ℕ) (out : List ℕ) (q : Pkt) (r : Receiver)
    → Synced n out r
    → Synced n out (record r { store = passed r.store q })
stray-Synced n out q r s = ground (arith, s)

round_stray :
    (z : Crc32) (n : ℕ) (out : List ℕ) (sys : Round) (q : Pkt) (r : Receiver)
    → Synced n out r
    → IsStray z n sys q
    → round z sys r ≡ done (record r { store = passed r.store q })
round_stray z n out sys q r s x = elim x.unwanted [
  | inl other ↦ round_discards z sys q r x.smooth x.arrives (inl other) x.shown
  | inr outside ↦
      round_discards z sys q r x.smooth x.arrives (inr (rw (s.low, s.high) outside)) x.shown
]

pub arrivals_arrive :
    (z : Crc32) (xs : List Arrival) (later : List Round) (n : ℕ) (out : List ℕ) (r : Receiver)
    → IsDisturbed z n xs
    → Synced n out r
    → (r' : Receiver) × (selective_repeat_receiver z (arrival_rounds z xs ++ later) r
        ≡ selective_repeat_receiver z later r')
      × Synced (count (fresh_ones xs) n) (out ++ contents (fresh_ones xs)) r'
      × (r'.acks ≡ r.acks ++ replies z n (fresh_ones xs))
arrivals_arrive z [] later n out r o s = (r, refl, rw append-nil s, rw append-nil)
arrivals_arrive z (fresh p junk ∷ xs) later n out r (d, shown, seq, o) s =
    let (r1, e1, s1, a1) = round_data z p junk n out r d shown seq s in
    let (r2, e2, s2, a2) = arrivals_arrive z xs later (suc n) (out ++ content p) r1 o s1 in
    (
      r2,
      loop_step z (message_round z p junk) (arrival_rounds z xs ++ later) r r1 s.going e1 ∙ e2,
      rw append_assoc at s2,
      ground (
        arith,
        a1,
        a2,
        append_assoc r.acks (encoding z (ack_packet 3 (n % 256) p.timestamp) ∷ [])
            (replies z (suc n) (fresh_ones xs)),
      ),
    )
arrivals_arrive z (stray sys q ∷ xs) later n out r (x, o) s =
    let r1 : Receiver = record r { store = passed r.store q } in
    let (r2, e2, s2, a2) = arrivals_arrive z xs later n out r1 o (stray-Synced n out q r s) in
    (
      r2,
      loop_step z sys (arrival_rounds z xs ++ later) r r1 s.going (round_stray z n out sys q r s x)
          ∙ e2,
      s2,
      a2,
    )

-- Other datagrams do no harm to a transfer in order, and get no answer from the code, though the
-- pseudocode at the end of src/receiver.c says to send one. From the start state, over the packets
-- in order, each whole and with a zero byte in its payload, in its own round in which every call
-- succeeds, where the C library prints something for `%s` and NULL, with any number of such rounds
-- in between whose datagram `receive_pkt` makes a packet of that `print_data` ends on and that is
-- not data or whose sequence number is outside the window, such as a packet that comes again, and
-- then the packet of length 0 that ends the transfer, with at least four bytes behind it in the
-- receive buffer, the loop ends; the file holds the payloads of the packets in order and nothing
-- else; and one acknowledgement was sent for each packet of the transfer and none for the others.
pub disturbed_arrives :
    (z : Crc32) (xs : List Arrival) (p : Pkt) (word tail : List ℕ) (later : List Round)
    → IsDisturbed z 0 xs
    → IsLast p
    → length word ≡ 4
    → p.seqnum ≡ count (fresh_ones xs) 0 % 256
    → (r : Receiver) × (selective_repeat_receiver z
          (arrival_rounds z xs ++ (message_round z p (word ++ tail) ∷ later))
          start
        ≡ done r)
      × (r.ended ≡ true)
      × (r.file ≡ some (contents (fresh_ones xs)))
      × (r.acks
          ≡ replies z 0 (fresh_ones xs)
            ++ (encoding z (ack_packet 3 (count (fresh_ones xs) 0 % 256) p.timestamp) ∷ []))
disturbed_arrives z xs p word tail later o l four seq =
    let n : ℕ = count (fresh_ones xs) 0 in
    let (r1, e1, s1, a1) =
      arrivals_arrive z xs (message_round z p (word ++ tail) ∷ later) 0 [] start o start-Synced in
    let (r2, e2, ended, written, a2) =
      round_last z p word tail n (contents (fresh_ones xs)) r1 l four seq s1 in
    let reply : List (List ℕ) = encoding z (ack_packet 3 (n % 256) p.timestamp) ∷ [] in
    (
      r2,
      e1 ∙ loop_step z _ later r1 r2 s1.going e2 ∙ loop_stop z later r2 ended,
      ended,
      written,
      a2 ∙ ap (λ sent. sent ++ reply) a1,
    )
