-- ===== src/Old/Packet/Agree.antt =====
-- The two versions of the packet functions (old/src/packet_implem.c and src/packet_implem.c).
use lingi1341_trtp_gr.Base.{ℕ, ◌≡◌, refl, arith, Bool, Option, none, some, List, drop}
use lingi1341_trtp_gr.Zlib.{Crc32}
use lingi1341_trtp_gr.Packet
use lingi1341_trtp_gr.Packet.Varuint as NewVaruint
use lingi1341_trtp_gr.Packet.Decode
use lingi1341_trtp_gr.Packet.Encode
use lingi1341_trtp_gr.Packet.{Pkt}
use lingi1341_trtp_gr.Packet.Encode.{Out}
use lingi1341_trtp_gr.Old.Packet.{
  pkt_set_seqnum, pkt_set_timestamp, pkt_set_crc1, pkt_set_payload, pkt_set_length, pkt_set_crc2,
}
use lingi1341_trtp_gr.Old.Packet.Varuint.{
  varuint_len, varuint_decode, varuint_encode, varuint_predict_len, predict_header_length,
}
use lingi1341_trtp_gr.Old.Packet.Codec.{
  decode_payload, decode_fields, decode_header, pkt_decode, encode_payload, encode_header,
  pkt_encode,
}

pkt_set_payload_agrees :
    (granted : Bool) (p : Pkt) (dat : Option (List ℕ)) (length : ℕ)
    → pkt_set_payload granted p dat length ≡ Packet.pkt_set_payload granted p dat length
unfolding pkt_set_payload Packet.pkt_set_payload
pkt_set_payload_agrees granted p none length = refl
pkt_set_payload_agrees granted p (some dat) length = ground arith

varuint_decode_agrees :
    (dat : List ℕ) (len : ℕ)
    → varuint_decode (some dat) len ≡ NewVaruint.varuint_decode (some dat) len
unfolding varuint_decode varuint_len NewVaruint.varuint_decode NewVaruint.varuint_len
varuint_decode_agrees dat len = ground arith

varuint_encode_agrees :
    (val : ℕ) (dat : List ℕ) (len : ℕ)
    → varuint_encode val dat len ≡ NewVaruint.varuint_encode val dat len
unfolding varuint_encode NewVaruint.varuint_encode
varuint_encode_agrees val dat len = ground arith

varuint_predict_len_agrees :
    (val : ℕ) → varuint_predict_len val ≡ NewVaruint.varuint_predict_len val
unfolding varuint_predict_len NewVaruint.varuint_predict_len
varuint_predict_len_agrees val = refl

decode_payload_agrees :
    (z : Crc32) (granted : Bool) (dat : List ℕ) (ptr leng : ℕ) (p : Pkt)
    → decode_payload z granted dat ptr leng p ≡ Decode.decode_body z granted dat ptr leng p
unfolding decode_payload Decode.decode_body Decode.decode_payload Decode.decode_crc2 pkt_set_crc2
    Packet.pkt_set_crc2
decode_payload_agrees z granted dat ptr leng p =
    ground (arith, pkt_set_payload_agrees granted p (some (drop ptr dat)) leng)

decode_fields_agrees :
    (z : Crc32) (granted : Bool) (dat : List ℕ) (ptr leng : ℕ) (p : Pkt)
    → decode_fields z granted dat ptr leng p ≡ Decode.decode_fields z granted dat ptr leng p
unfolding decode_fields pkt_set_seqnum pkt_set_timestamp pkt_set_crc1 Decode.decode_fields
    Decode.decode_crc1 Packet.pkt_set_seqnum Packet.pkt_set_timestamp Packet.pkt_set_crc1
decode_fields_agrees z granted dat ptr leng p = grind (arith, decode_payload_agrees)

decode_header_agrees :
    (z : Crc32) (granted : Bool) (dat : List ℕ) (p : Pkt)
    → decode_header z granted dat p ≡ Decode.decode_length z granted dat p
unfolding decode_header Decode.decode_length pkt_set_length Packet.pkt_set_length
decode_header_agrees z granted dat p = grind (arith, varuint_decode_agrees, decode_fields_agrees)

encode_payload_agrees :
    (z : Crc32) (p : Pkt) (o : Out) → encode_payload z p o ≡ Encode.encode_payload z p o
unfolding encode_payload Encode.encode_payload
encode_payload_agrees z p o = ground arith

encode_header_agrees :
    (z : Crc32) (p : Pkt) (o : Out) → encode_header z p o ≡ Encode.encode_length z p o
unfolding encode_header Encode.encode_length Encode.encode_fields
encode_header_agrees z p o =
    grind (arith, varuint_predict_len_agrees, varuint_encode_agrees, encode_payload_agrees)

-- The two versions of `pkt_decode` agree: whatever the bytes, the length passed, the packet decoded
-- into and the memory, they return the same status and the same packet, or both read outside the
-- bytes.
pub pkt_decode_agrees :
    (z : Crc32) (granted : Bool) (dat : List ℕ) (len : ℕ) (p : Pkt)
    → pkt_decode z granted dat len p ≡ Decode.pkt_decode z granted dat len p
unfolding pkt_decode Decode.pkt_decode
pkt_decode_agrees z granted dat len p = grind (arith, decode_header_agrees)

-- The two versions of `pkt_encode` agree: whatever the packet, the buffer and the length passed,
-- they return the same status and leave the same bytes and length, or both go outside the buffer or
-- the payload.
pub pkt_encode_agrees :
    (z : Crc32) (p : Pkt) (buf : List ℕ) (len : ℕ)
    → pkt_encode z p buf len ≡ Encode.pkt_encode z p buf len
unfolding pkt_encode predict_header_length Encode.pkt_encode Encode.predict_header_length
    Encode.space_needed
pkt_encode_agrees z p buf len = grind (arith, encode_header_agrees, varuint_predict_len_agrees)
