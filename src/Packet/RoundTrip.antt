-- ===== src/Packet/RoundTrip.antt =====
-- `pkt_decode` after `pkt_encode`, for each kind of packet.
pub mod Body
use lingi1341_trtp_gr.Base.{
  ℕ, ◌+◌, ◌≤◌, ◌<◌, ◌^◌, ◌≡◌, ◌≢◌, refl, arith, Bool, true, Option, none, some, List, [], ◌∷◌, ◌++◌,
  ltb, ◌==◌, if◌then◌else◌, length, drop, drop_all, append-nil,
}
use lingi1341_trtp_gr.Base.Bytes.{of_be32}
use lingi1341_trtp_gr.Zlib.{Crc32}
use lingi1341_trtp_gr.Packet.{Pkt, pkt_ok, e_crc, ptype_data, ptype_ack, ptype_nack, zeroed}
use lingi1341_trtp_gr.Packet.Valid.{IsValid}
use lingi1341_trtp_gr.Packet.Varuint.RoundTrip.{varuint_size, varuint_size_bounds}
use lingi1341_trtp_gr.Packet.Encode.{Out, pkt_encode}
use lingi1341_trtp_gr.Packet.Encode.Layout.{
  encoding, wrote, space, encode_result, header_crc, length-encoding, empty_size,
}
use lingi1341_trtp_gr.Packet.Encode.Refine.{pkt_encode-result}
use lingi1341_trtp_gr.Packet.Decode.{pkt_decode}
use Body.{decode_data, decode_control, decode_last, decode_last_cut}

-- With the room that it asks for, `pkt_encode` succeeds on a packet of a known type that is not
-- truncated.
encode_fits :
    (z : Crc32) (p : Pkt) (buf : List ℕ) (len : ℕ)
    → IsValid p
    → p.type ≢ 0
    → p.tr ≡ 0
    → space p ≤ len
    → len ≤ length buf
    → len < 2 ^ 31
    → pkt_encode z p buf len ≡ some (pkt_ok, wrote buf (encoding z p))
unfolding encode_result
encode_fits z p buf len v known whole room fits small =
    ground (arith, pkt_encode-result z p buf len v fits small)

-- Data round trip: for a valid data packet with a payload, TR 0, and a buffer with the room that
-- `pkt_encode` asks for, when the length passed to `pkt_encode` is at least that room, at most the
-- size of the buffer and below 2^31, `pkt_encode` succeeds, and `pkt_decode` of the buffer that it leaves, into
-- a new packet and with memory for the payload, returns PKT_OK and the same packet with the two
-- CRCs filled in.
pub decode-encode_data :
    (z : Crc32) (p : Pkt) (obj buf : List ℕ) (len : ℕ)
    → IsValid p
    → p.type ≡ ptype_data
    → p.tr ≡ 0
    → p.payload ≡ some obj
    → space p ≤ len
    → len ≤ length buf
    → len < 2 ^ 31
    → (o : Out) × (pkt_encode z p buf len ≡ some (pkt_ok, o))
      × (pkt_decode z true o.buf o.len zeroed
          ≡ some (pkt_ok, record p { crc1 = header_crc z p; crc2 = z.crc32 (some obj) }))
decode-encode_data z p obj buf len v data_type whole e room fits small = (
  wrote buf (encoding z p),
  encode_fits z p buf len v (ground arith) whole room fits small,
  decode_data z p obj (drop (length (encoding z p)) buf) (length (encoding z p)) v data_type whole e
      (omega (arith, length-encoding z p, varuint_size_bounds p.length)),
)

-- Acknowledgement round trip: for a valid packet of a known type other than data, with TR 0 and no
-- payload, and a buffer with the room that `pkt_encode` asks for, `pkt_encode` succeeds, and
-- `pkt_decode` of the buffer that it leaves, into a new packet and whether or not there is memory,
-- returns PKT_OK and the same packet with the first CRC filled in and the second 0.
pub decode-encode_control :
    (z : Crc32) (p : Pkt) (buf : List ℕ) (len : ℕ) (granted : Bool)
    → IsValid p
    → p.type ≢ 0
    → p.type ≢ ptype_data
    → p.tr ≡ 0
    → p.payload ≡ none
    → space p ≤ len
    → len ≤ length buf
    → len < 2 ^ 31
    → (o : Out) × (pkt_encode z p buf len ≡ some (pkt_ok, o))
      × (pkt_decode z granted o.buf o.len zeroed
          ≡ some (pkt_ok, record p { crc1 = header_crc z p; crc2 = 0 }))
decode-encode_control z p buf len granted v known control whole empty room fits small = (
  wrote buf (encoding z p),
  encode_fits z p buf len v known whole room fits small,
  decode_control z p (drop (length (encoding z p)) buf) granted (length (encoding z p)) v known
      control whole empty (omega (arith, length-encoding z p, varuint_size_bounds p.length)),
)

-- The end of a transfer, data of length 0, is encoded in 11 bytes with no second CRC, and
-- `pkt_decode` reads one all the same: in a longer receive buffer it accepts the packet exactly
-- when the next four bytes, which were not received, are zero, and returns E_CRC otherwise; in a
-- buffer of just those 11 bytes it reads past the end.
pub decode-encode_last :
    (z : Crc32) (p : Pkt) (front word tail : List ℕ) (granted : Bool)
    → IsValid p
    → p.type ≡ ptype_data
    → p.tr ≡ 0
    → p.payload ≡ none
    → p.length ≡ 0
    → length front ≡ 11
    → length word ≡ 4
    → (pkt_encode z p front 11 ≡ some (pkt_ok, record { buf = encoding z p; len = 11 }))
      × (pkt_decode z granted (encoding z p ++ (word ++ tail)) 11 zeroed
          ≡ some (
            if of_be32 word == 0 then pkt_ok else e_crc,
            record p { crc1 = header_crc z p; crc2 = of_be32 word },
          ))
      × (pkt_decode z granted (encoding z p) 11 zeroed ≡ none)
decode-encode_last z p front word tail granted v data_type whole empty zero eleven four = (
  ground (
    arith,
    empty_size z p empty zero,
    encode_fits z p front 11 v,
    drop_all 11 front,
    append-nil (encoding z p),
  ),
  decode_last z p word tail granted 11 v data_type whole empty zero four (omega arith),
  decode_last_cut z p granted 11 v data_type whole empty zero (omega arith),
)
