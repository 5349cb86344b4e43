-- ===== src/Transfer/Tests.antt =====
-- The packets of the utility functions at concrete arguments.
use lingi1341_trtp_gr.Base.{
  ℕ, zero, suc, ◌≡◌, refl, arith, true, false, some, List, [], ◌∷◌, ◌++◌, length, take, replicate,
  All,
}
use lingi1341_trtp_gr.Base.Int.{pos, negsuc}
use lingi1341_trtp_gr.Base.Bytes.{IsByte}
use lingi1341_trtp_gr.Base.Run.{done}
use lingi1341_trtp_gr.Packet.{Pkt, ptype_data, ptype_ack, zeroed}
use lingi1341_trtp_gr.Packet.Valid.{IsValid}
use lingi1341_trtp_gr.Packet.Decode.Sound.{Returns}
use lingi1341_trtp_gr.Transfer.{create_data_pkt, create_ack_pkt, send_pkt, receive_pkt}
use lingi1341_trtp_gr.Transfer.Send.{granted_send}
use lingi1341_trtp_gr.Transfer.EndToEnd.{ack_arrives, data_arrives, receive_pkt-succeeds}
use lingi1341_trtp_gr.Samples.{checksum}

abbrev hi : List ℕ
hi = 72 ∷ 105 ∷ []

ack_arrives_example :
    (p q : Pkt) × (datagram : List ℕ) × (create_ack_pkt 3 5 9 zeroed ≡ done (pos 11, p))
    × (send_pkt checksum granted_send p ≡ done (pos 1, datagram))
    × (length datagram ≡ 11)
    × (receive_pkt checksum false (datagram ++ (1 ∷ [])) (pos (length datagram)) zeroed
        ≡ some (pos 1, q))
    × (q.type ≡ ptype_ack)
    × (q.window ≡ 3)
    × (q.seqnum ≡ 5)
    × (q.timestamp ≡ 9)
ack_arrives_example =
    ack_arrives checksum 3 5 9 (1 ∷ []) false (omega arith) (omega arith) (omega arith)

data_arrives_example :
    (p q : Pkt) × (datagram : List ℕ) × (create_data_pkt true 0 3 2 0 7 (some hi) zeroed
      ≡ some (pos 1, p))
    × (send_pkt checksum granted_send p ≡ done (pos 1, datagram))
    × (receive_pkt checksum true (datagram ++ (1 ∷ [])) (pos (length datagram)) zeroed
        ≡ some (pos 1, q))
    × (q.type ≡ ptype_data)
    × (q.window ≡ 3)
    × (q.seqnum ≡ 0)
    × (q.timestamp ≡ 7)
    × (q.payload ≡ some (take 2 hi))
data_arrives_example =
    data_arrives checksum 3 2 0 7 hi (1 ∷ []) (omega arith) (omega arith) (omega arith)
      (omega arith) (omega arith) (omega arith) (omega arith)

All-zeros : (n : ℕ) → All IsByte (replicate n 0)
All-zeros zero = tt
All-zeros (suc n) = (omega arith, All-zeros n)

receive_pkt-succeeds_example :
    Returns
      (λ r. (r.0 ≡ pos 1) × IsValid r.1)
      (receive_pkt checksum true (replicate 528 0) (negsuc 0) zeroed)
receive_pkt-succeeds_example =
    receive_pkt-succeeds checksum true (replicate 528 0) (negsuc 0) zeroed (omega arith)
      (All-zeros 528) (omega arith) refl
