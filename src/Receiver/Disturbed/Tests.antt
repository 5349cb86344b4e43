-- ===== src/Receiver/Disturbed/Tests.antt =====
-- A transfer with an acknowledgement and a packet that comes again in between.
use lingi1341_trtp_gr.Base.{◌%◌, ◌≡◌, refl, arith, true, some, List, [], ◌∷◌, ◌++◌, inl, inr, false}
use lingi1341_trtp_gr.Base.Run.{done}
use lingi1341_trtp_gr.Packet.{Pkt}
use lingi1341_trtp_gr.Packet.Encode.Layout.{encoding, header_crc}
use lingi1341_trtp_gr.Transfer.Create.{ack_packet}
use lingi1341_trtp_gr.Transfer.EndToEnd.{received_data, received_ack}
use lingi1341_trtp_gr.Window.{is_in_window}
use lingi1341_trtp_gr.Receiver.State.{Receiver, start, print_data}
use lingi1341_trtp_gr.Receiver.Loop.{selective_repeat_receiver}
use lingi1341_trtp_gr.Receiver.Rounds.{message_round, message_round-Smooth, IsShown, read-IsShown}
use lingi1341_trtp_gr.Receiver.Transfer.{contents, replies, count}
use lingi1341_trtp_gr.Samples.{checksum, hi_packet, last_packet, ack_sample}
use lingi1341_trtp_gr.Receiver.Disturbed.{
  Arrival, fresh, stray, IsDisturbed, fresh_ones, arrival_rounds, disturbed_arrives,
}

-- The packets as they are received.
abbrev hi_read : Pkt
hi_read = record hi_packet {
  crc1 = header_crc checksum hi_packet;
  crc2 = checksum.crc32 (some (72 ∷ 105 ∷ 0 ∷ []));
}

abbrev ack_read : Pkt
ack_read = record ack_sample { crc1 = header_crc checksum ack_sample; crc2 = 0 }

hi-IsShown : IsShown hi_packet
unfolding print_data
hi-IsShown = refl

ack-IsShown : IsShown ack_sample
unfolding print_data
ack-IsShown = refl

behind_window : is_in_window 0 1 3 ≡ false
unfolding is_in_window
behind_window = refl

-- An acknowledgement, "Hi", and "Hi" again.
abbrev mixed : List Arrival
mixed =
    stray (message_round checksum ack_sample []) ack_read
    ∷ fresh hi_packet (1 ∷ [])
    ∷ stray (message_round checksum hi_packet (2 ∷ [])) hi_read
    ∷ []

mixed-IsDisturbed : IsDisturbed checksum 0 mixed
mixed-IsDisturbed = (
  record {
    smooth = message_round-Smooth checksum ack_sample [];
    arrives = received_ack checksum ack_sample [] true (omega arith) refl refl refl;
    shown = read-IsShown ack_sample ack_read.crc1 0 ack-IsShown;
    unwanted = inl (omega arith);
  },
  (
    record {
      valid = omega arith;
      data_type = refl;
      whole = refl;
      has_payload = (72 ∷ 105 ∷ 0 ∷ [], refl);
    },
    hi-IsShown,
    refl,
    (
      record {
        smooth = message_round-Smooth checksum hi_packet (2 ∷ []);
        arrives =
            received_data checksum hi_packet (72 ∷ 105 ∷ 0 ∷ []) (2 ∷ []) (omega arith) refl refl
              refl;
        shown = read-IsShown hi_packet hi_read.crc1 hi_read.crc2 hi-IsShown;
        unwanted = inr behind_window;
      },
      tt,
    ),
  ),
)

disturbed_arrives_example :
    (r : Receiver) × (selective_repeat_receiver checksum
        (arrival_rounds checksum mixed
          ++ (message_round checksum last_packet ((0 ∷ 0 ∷ 0 ∷ 1 ∷ []) ++ []) ∷ []))
        start
      ≡ done r)
    × (r.ended ≡ true)
    × (r.file ≡ some (contents (fresh_ones mixed)))
    × (r.acks
        ≡ replies checksum 0 (fresh_ones mixed)
          ++ (encoding checksum
                (ack_packet 3 (count (fresh_ones mixed) 0 % 256) last_packet.timestamp)
              ∷ []))
disturbed_arrives_example =
    disturbed_arrives checksum mixed last_packet (0 ∷ 0 ∷ 0 ∷ 1 ∷ []) [] [] mixed-IsDisturbed
      (record {
        valid = omega arith;
        data_type = refl;
        whole = refl;
        no_payload = refl;
        empty = refl;
      })
      refl refl
