-- ===== src/Old/Packet/Tests.antt =====
-- Concrete packets through both versions of the codec.
use lingi1341_trtp_gr.Base.{◌≡◌, true, replicate}
use lingi1341_trtp_gr.Packet.{zeroed}
use lingi1341_trtp_gr.Packet.Decode
use lingi1341_trtp_gr.Packet.Encode
use lingi1341_trtp_gr.Old.Packet.Codec.{pkt_decode, pkt_encode}
use lingi1341_trtp_gr.Old.Packet.Agree.{pkt_decode_agrees, pkt_encode_agrees}
use lingi1341_trtp_gr.Samples.{checksum, hi_packet, hi_bytes}

pkt_decode_agrees_example :
    pkt_decode checksum true hi_bytes 18 zeroed ≡ Decode.pkt_decode checksum true hi_bytes 18 zeroed
pkt_decode_agrees_example = pkt_decode_agrees checksum true hi_bytes 18 zeroed

pkt_encode_agrees_example :
    pkt_encode checksum hi_packet (replicate 20 0) 20
    ≡ Encode.pkt_encode checksum hi_packet (replicate 20 0) 20
pkt_encode_agrees_example = pkt_encode_agrees checksum hi_packet (replicate 20 0) 20
