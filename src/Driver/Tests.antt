-- ===== src/Driver/Tests.antt =====
-- The driver's packets and the receiver, with a checksum in place of the CRC.
use lingi1341_trtp_gr.Base.{ℕ, ◌%◌, ◌≡◌, refl, arith, false, some, List, [], ◌∷◌, map, length}
use lingi1341_trtp_gr.Base.Run.{fault, done}
use lingi1341_trtp_gr.Packet.{Pkt}
use lingi1341_trtp_gr.Receiver.State.{Receiver, start}
use lingi1341_trtp_gr.Receiver.Loop.{selective_repeat_receiver}
use lingi1341_trtp_gr.Receiver.Rounds.{message_round}
use lingi1341_trtp_gr.Driver.{send_texts}
use lingi1341_trtp_gr.Driver.Arrived.{datagram_round, hellos}
use lingi1341_trtp_gr.Driver.Sent.{all_sent}
use lingi1341_trtp_gr.Driver.Ordered.{texts_arrive}
use lingi1341_trtp_gr.Driver.Unordered.{IsEarly, two_early}
use lingi1341_trtp_gr.Samples.{checksum, yo_packet}

texts_arrive_example :
    (ds : List (List ℕ)) × (r : Receiver) × (send_texts checksum (λ _. all_sent) 258 0 ≡ done ds)
    × (selective_repeat_receiver checksum (map (datagram_round (9 ∷ [])) ds) start ≡ done r)
    × (r.file ≡ some (hellos 258))
    × (length r.acks ≡ 258)
    × (r.window_start ≡ 258 % 256)
    × (r.ended ≡ false)
texts_arrive_example = texts_arrive checksum (9 ∷ []) 258 (omega arith)

abbrev second_yo : Pkt
second_yo = record yo_packet { seqnum = 2 }

yo_packet-IsEarly : IsEarly yo_packet
yo_packet-IsEarly = record {
  carries = record {
    valid = omega arith;
    data_type = refl;
    whole = refl;
    has_payload = (121 ∷ 111 ∷ 0 ∷ [], refl);
  };
  not_first = omega arith;
  in_window = omega arith;
}

second_yo-IsEarly : IsEarly second_yo
second_yo-IsEarly = record {
  carries = record {
    valid = omega arith;
    data_type = refl;
    whole = refl;
    has_payload = (121 ∷ 111 ∷ 0 ∷ [], refl);
  };
  not_first = omega arith;
  in_window = omega arith;
}

two_early_example :
    selective_repeat_receiver checksum
      (message_round checksum second_yo (9 ∷ []) ∷ message_round checksum yo_packet [] ∷ [])
      start
    ≡ fault
two_early_example =
    two_early checksum second_yo yo_packet (9 ∷ []) [] [] second_yo-IsEarly yo_packet-IsEarly
      (omega arith)
