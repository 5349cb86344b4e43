-- ===== src/Receiver/Transfer.antt =====
-- Whole transfers that arrive in order.
use lingi1341_trtp_gr.Base.{
  ℕ, suc, ◌%◌, ◌≡◌, refl, ap, ◌∙◌, arith, true, false, some, List, [], ◌∷◌, ◌++◌, length,
  append_assoc, append-nil,
}
use lingi1341_trtp_gr.Base.Run.{done}
use lingi1341_trtp_gr.Zlib.{Crc32}
use lingi1341_trtp_gr.Packet.{Pkt}
use lingi1341_trtp_gr.Packet.Encode.Layout.{encoding}
use lingi1341_trtp_gr.Transfer.Create.{ack_packet}
use lingi1341_trtp_gr.Receiver.State.{Receiver, Round, start}
use lingi1341_trtp_gr.Receiver.Loop.{round, selective_repeat_receiver}
use lingi1341_trtp_gr.Receiver.Rounds.{
  message_round, IsData, IsShown, IsLast, round_data, round_last,
}
use lingi1341_trtp_gr.Receiver.InOrder.{Synced, content}

pub start-Synced : Synced 0 [] start
start-Synced = ground arith

-- The packets of a transfer from the `n`-th on, each with what stands behind it in the buffer.
abbrev pub InOrder : ℕ → List (Pkt × List ℕ) → Type 0
InOrder n [] = Unit {0}
InOrder n ((p, junk) ∷ ps) = IsData p × IsShown p × (p.seqnum ≡ n % 256) × InOrder (suc n) ps

abbrev pub contents : List (Pkt × List ℕ) → List ℕ
contents [] = []
contents ((p, junk) ∷ ps) = content p ++ contents ps

-- One acknowledgement for each packet: its own sequence number and timestamp, and a window of 3.
abbrev pub replies : Crc32 → ℕ → List (Pkt × List ℕ) → List (List ℕ)
replies z n [] = []
replies z n ((p, junk) ∷ ps) =
    encoding z (ack_packet 3 (n % 256) p.timestamp) ∷ replies z (suc n) ps

abbrev pub rounds_of : Crc32 → List (Pkt × List ℕ) → List Round
rounds_of z [] = []
rounds_of z ((p, junk) ∷ ps) = message_round z p junk ∷ rounds_of z ps

abbrev pub count : List (Pkt × List ℕ) → ℕ → ℕ
count [] n = n
count (p ∷ ps) n = count ps (suc n)

pub loop_step :
    (z : Crc32) (sys : Round) (later : List Round) (r r' : Receiver)
    → r.ended ≡ false
    → round z sys r ≡ done r'
    → selective_repeat_receiver z (sys ∷ later) r ≡ selective_repeat_receiver z later r'
unfolding selective_repeat_receiver
loop_step z sys later r r' going e = ground arith

pub loop_stop :
    (z : Crc32) (later : List Round) (r : Receiver)
    → r.ended ≡ true
    → selective_repeat_receiver z later r ≡ done r
unfolding selective_repeat_receiver
loop_stop z [] r ended = refl
loop_stop z (sys ∷ later) r ended = ground arith

-- The packets of a transfer, whatever rounds come later.
pub rounds_arrive :
    (z : Crc32) (ps : List (Pkt × List ℕ)) (later : List Round) (n : ℕ) (out : List ℕ)
    (r : Receiver)
    → InOrder n ps
    → Synced n out r
    → (r' : Receiver) × (selective_repeat_receiver z (rounds_of z ps ++ later) r
        ≡ selective_repeat_receiver z later r')
      × Synced (count ps n) (out ++ contents ps) r'
      × (r'.acks ≡ r.acks ++ replies z n ps)
rounds_arrive z [] later n out r o s = (r, refl, rw append-nil s, rw append-nil)
rounds_arrive z ((p, junk) ∷ ps) later n out r (d, shown, seq, o) s =
    let (r1, e1, s1, a1) = round_data z p junk n out r d shown seq s in
    let (r2, e2, s2, a2) = rounds_arrive z ps later (suc n) (out ++ content p) r1 o s1 in
    (
      r2,
      loop_step z (message_round z p junk) (rounds_of z ps ++ later) r r1 s.going e1 ∙ e2,
      rw append_assoc at s2,
      ground (
        arith,
        a1,
        a2,
        append_assoc r.acks (encoding z (ack_packet 3 (n % 256) p.timestamp) ∷ [])
            (replies z (suc n) ps),
      ),
    )

-- A transfer that arrives in order: from its start state, over the packets in order, each whole
-- and with a zero byte in its payload, on which `print_data` ends, in its own round in which every
-- system call succeeds, and then the packet of length 0 that ends it, with at least four bytes
-- behind it in the receive buffer, for whose payload NULL the C library prints something, as glibc
-- does, the loop ends by its test before it looks at any later round; the file holds the payloads
-- in order and nothing else, and one acknowledgement was sent for each packet, with its sequence
-- number and timestamp and a window of 3.
pub transfer_arrives :
    (z : Crc32) (ps : List (Pkt × List ℕ)) (p : Pkt) (word tail : List ℕ) (later : List Round)
    → InOrder 0 ps
    → IsLast p
    → length word ≡ 4
    → p.seqnum ≡ count ps 0 % 256
    → (r : Receiver) × (selective_repeat_receiver z
          (rounds_of z ps ++ (message_round z p (word ++ tail) ∷ later))
          start
        ≡ done r)
      × (r.ended ≡ true)
      × (r.file ≡ some (contents ps))
      × (r.acks ≡ replies z 0 ps ++ (encoding z (ack_packet 3 (count ps 0 % 256) p.timestamp) ∷ []))
transfer_arrives z ps p word tail later o l four seq =
    let (r1, e1, s1, a1) =
      rounds_arrive z ps (message_round z p (word ++ tail) ∷ later) 0 [] start o start-Synced in
    let (r2, e2, ended, written, a2) =
      round_last z p word tail (count ps 0) (contents ps) r1 l four seq s1 in
    let reply : List (List ℕ) = encoding z (ack_packet 3 (count ps 0 % 256) p.timestamp) ∷ [] in
    (
      r2,
      e1 ∙ loop_step z _ later r1 r2 s1.going e2 ∙ loop_stop z later r2 ended,
      ended,
      written,
      a2 ∙ ap (λ sent. sent ++ reply) a1,
    )
