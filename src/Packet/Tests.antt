-- ===== src/Packet/Tests.antt =====
-- Concrete packets through the codec, and its theorems at concrete inputs.
use lingi1341_trtp_gr.Base.{
  ℕ, zero, suc, ◌≤◌, ◌≡◌, ◌≢◌, refl, arith, true, none, some, List, [], ◌∷◌, ◌++◌, All, replicate,
  take, ◌==◌, if◌then◌else◌,
}
use lingi1341_trtp_gr.Base.Bytes.{IsByte, le32, be32, of_be32}
use lingi1341_trtp_gr.Packet.{Pkt, pkt_ok, e_crc, e_type, e_noheader, ptype_data, zeroed}
use lingi1341_trtp_gr.Packet.Valid.{IsValid}
use lingi1341_trtp_gr.Packet.Varuint.RoundTrip.{varuint, varuint_size}
use lingi1341_trtp_gr.Packet.Decode.{clear_tr, pkt_decode}
use lingi1341_trtp_gr.Packet.Decode.Sound.{Returns, pkt_decode-IsValid}
use lingi1341_trtp_gr.Packet.Decode.Accepts.{pkt_decode-accepts}
use lingi1341_trtp_gr.Packet.Encode.{Out, pkt_encode}
use lingi1341_trtp_gr.Packet.Encode.Layout.{
  header, header_crc, trailer, encoding, space, encode_result,
}
use lingi1341_trtp_gr.Packet.Encode.Refine.{pkt_encode-result}
use lingi1341_trtp_gr.Packet.RoundTrip.{decode-encode_data, decode-encode_last}
use lingi1341_trtp_gr.Packet.RoundTrip.Body.{decode_control}
use lingi1341_trtp_gr.Samples.{checksum, hi_packet, last_packet, ack_sample}

hi_packet-IsValid : IsValid hi_packet
hi_packet-IsValid = omega arith

last_packet-IsValid : IsValid last_packet
last_packet-IsValid = omega arith

ack_sample-IsValid : IsValid ack_sample
ack_sample-IsValid = omega arith

abbrev zeros : ℕ → List ℕ
zeros n = replicate n 0

-- The bytes of a data packet: the timestamp stands in the host's byte order.
encoding-hi :
    encoding checksum hi_packet
    ≡ 0x43 ∷ 3 ∷ 0 ∷ 4 ∷ 3 ∷ 2 ∷ 1 ∷ 0 ∷ 0 ∷ 0 ∷ 80 ∷ 72 ∷ 105 ∷ 0 ∷ 0 ∷ 0 ∷ 0 ∷ 177 ∷ []
unfolding encoding header header_crc trailer varuint le32 be32
encoding-hi = refl

-- A datagram of type 0, and one that is too short.
decode_fec : pkt_decode checksum true (zeros 528) 20 zeroed ≡ some (e_type, zeroed)
unfolding pkt_decode
decode_fec = refl

decode_short : pkt_decode checksum true (zeros 528) 6 zeroed ≡ some (e_noheader, zeroed)
unfolding pkt_decode
decode_short = refl

pkt_encode-result_example :
    pkt_encode checksum hi_packet (zeros 20) 20
    ≡ some (encode_result checksum hi_packet (zeros 20) 20)
pkt_encode-result_example =
    pkt_encode-result checksum hi_packet (zeros 20) 20 hi_packet-IsValid (omega arith) (omega arith)

space-hi : space hi_packet ≡ 18
unfolding space varuint_size
space-hi = refl

space-last : space last_packet ≡ 11
unfolding space varuint_size
space-last = refl

space-ack : space ack_sample ≡ 11
unfolding space varuint_size
space-ack = refl

decode-encode_data_example :
    (o : Out) × (pkt_encode checksum hi_packet (zeros 20) 20 ≡ some (pkt_ok, o))
    × (pkt_decode checksum true o.buf o.len zeroed
        ≡ some (
          pkt_ok,
          record hi_packet {
            crc1 = header_crc checksum hi_packet;
            crc2 = checksum.crc32 (some (72 ∷ 105 ∷ 0 ∷ []));
          },
        ))
decode-encode_data_example =
    decode-encode_data checksum hi_packet (72 ∷ 105 ∷ 0 ∷ []) (zeros 20) 20 hi_packet-IsValid refl
      refl refl (omega (arith, space-hi)) (omega arith) (omega arith)

decode-encode_last_example :
    (pkt_encode checksum last_packet (zeros 11) 11
      ≡ some (pkt_ok, record { buf = encoding checksum last_packet; len = 11 }))
    × (pkt_decode checksum true
          (encoding checksum last_packet ++ ((0 ∷ 0 ∷ 0 ∷ 1 ∷ []) ++ (5 ∷ [])))
          11
          zeroed
        ≡ some (
          if of_be32 (0 ∷ 0 ∷ 0 ∷ 1 ∷ []) == 0 then pkt_ok else e_crc,
          record last_packet {
            crc1 = header_crc checksum last_packet;
            crc2 = of_be32 (0 ∷ 0 ∷ 0 ∷ 1 ∷ []);
          },
        ))
    × (pkt_decode checksum true (encoding checksum last_packet) 11 zeroed ≡ none)
decode-encode_last_example =
    decode-encode_last checksum last_packet (zeros 11) (0 ∷ 0 ∷ 0 ∷ 1 ∷ []) (5 ∷ []) true
      last_packet-IsValid refl refl refl refl refl refl

All-zeros : (n : ℕ) → All IsByte (zeros n)
All-zeros zero = tt
All-zeros (suc n) = (omega arith, All-zeros n)

pkt_decode-IsValid_example :
    Returns (λ r. IsValid r.1) (pkt_decode checksum true (zeros 528) 20 zeroed)
pkt_decode-IsValid_example =
    pkt_decode-IsValid checksum true (zeros 528) (All-zeros 528) 20 zeroed (omega arith)
      (omega arith) refl

abbrev ack_read : Pkt
ack_read = record ack_sample { crc1 = header_crc checksum ack_sample; crc2 = 0 }

pkt_decode-accepts_example :
    (11 ≤ 11)
    × (ack_read.type ≢ 0)
    × (ack_read.type ≡ ptype_data
        → (ack_read.tr ≡ 0) × (ack_read.crc2 ≡ checksum.crc32 ack_read.payload))
    × (n : ℕ) × (7 ≤ n)
    × (n ≤ 8)
    × (ack_read.crc1
        ≡ checksum.crc32 (some (clear_tr (take n (encoding checksum ack_sample ++ zeros 517)))))
pkt_decode-accepts_example =
    pkt_decode-accepts checksum true (encoding checksum ack_sample ++ zeros 517) 11 zeroed ack_read
      refl
      (decode_control checksum ack_sample (zeros 517) true 11 ack_sample-IsValid (omega arith)
        (omega arith) refl refl (omega arith))
