-- ===== src/Samples/Turns.antt =====
-- Turns of the sender in which every call succeeds, and a function in place of `resize_buffer`.
use lingi1341_trtp_gr.Base.{true, [], ◌++◌, length}
use lingi1341_trtp_gr.Base.Int.{pos}
use lingi1341_trtp_gr.Packet.{Pkt}
use lingi1341_trtp_gr.Packet.Encode.Layout.{encoding}
use lingi1341_trtp_gr.Transfer.Send.{granted_send}
use lingi1341_trtp_gr.Sender.{Resize, Turn}
use lingi1341_trtp_gr.Samples.{checksum, ack_sample}

-- A window that stays at one packet.
abbrev pub one_slot : Resize
one_slot size high slots new = record { rslt = pos 1; size = 1; high = high; slots = slots }

abbrev pub ack_0 : Pkt
ack_0 = record ack_sample { seqnum = 0 }

abbrev pub turn_of : Pkt → Turn
turn_of p = record {
  made = λ i. true;
  copied = λ i. true;
  send = λ i. granted_send;
  ack_granted = true;
  payload_granted = true;
  bytes = encoding checksum p ++ [];
  len = pos (length (encoding checksum p));
}
