-- ===== src/Sender/Tests.antt =====
-- Turns of the sender at concrete acknowledgements.
use lingi1341_trtp_gr.Base.{◌+◌, ◌%◌, ◌≡◌, refl, arith, true, [], ◌∷◌, ◌++◌}
use lingi1341_trtp_gr.Base.Run.{done}
use lingi1341_trtp_gr.Packet.{Pkt}
use lingi1341_trtp_gr.Packet.Encode.Layout.{encoding, header_crc}
use lingi1341_trtp_gr.Transfer.EndToEnd.{received_ack}
use lingi1341_trtp_gr.Window.{is_in_window}
use lingi1341_trtp_gr.Sender.{at_start, turn}
use lingi1341_trtp_gr.Sender.Acknowledged.{next_packet, turn_acknowledged}
use lingi1341_trtp_gr.Samples.{checksum}
use lingi1341_trtp_gr.Samples.Turns.{one_slot, ack_0, turn_of}

abbrev read : Pkt → Pkt
read p = record p { crc1 = header_crc checksum p; crc2 = 0 }

inside : is_in_window 0 0 0 ≡ true
unfolding is_in_window
inside = refl

turn_acknowledged_example :
    turn checksum one_slot 0 (turn_of ack_0) at_start
    ≡ done (record at_start {
      window_size = 1;
      window_start = (0 + 1) % 256;
      window_end = ((0 + 1) % 256 + 0) % 31;
      seqnum = 0 + 1;
      k = 0 + 1;
      sent = [] ++ (encoding checksum (next_packet at_start) ∷ []);
    })
turn_acknowledged_example =
    turn_acknowledged checksum one_slot 0 (turn_of ack_0) (read ack_0) 1 0 at_start (omega arith)
      (omega arith) refl refl refl refl refl refl
      (received_ack checksum ack_0 [] true (omega arith) refl refl refl) refl (omega arith)
      (omega arith) inside (omega arith)
