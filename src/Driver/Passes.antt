-- ===== src/Driver/Passes.antt =====
-- The tests of the packet functions (src/test.c).
use lingi1341_trtp_gr.Base.{ℕ, ◌+◌, ◌≡◌, refl, arith, true, some, [], ◌∷◌, ◌++◌, replicate}
use lingi1341_trtp_gr.Base.Int.{pos, ◌+ℤ◌, +ℤ_pos}
use lingi1341_trtp_gr.Base.Run.{done}
use lingi1341_trtp_gr.Zlib.{Crc32}
use lingi1341_trtp_gr.Packet.{Pkt, pkt_new}
use lingi1341_trtp_gr.Packet.Valid.{IsValid}
use lingi1341_trtp_gr.Packet.Varuint.RoundTrip.{varuint_size}
use lingi1341_trtp_gr.Packet.Encode.{predict_header_length, size_of_ssize}
use lingi1341_trtp_gr.Packet.Encode.Layout.{header_crc, space}
use lingi1341_trtp_gr.Packet.Encode.Refine.{predict_header_length-size}
use lingi1341_trtp_gr.Packet.RoundTrip.{decode-encode_data, decode-encode_control}
use lingi1341_trtp_gr.Transfer.Create.{
  data_packet, ack_packet, create_data_pkt_result, create_ack_pkt_result,
}
use lingi1341_trtp_gr.Driver.{
  Grants, greeting, same_text, test_data_pkt, test_ack_pkt, encode_decode_data_test,
  encode_decode_ack_test,
}

-- The packets of the two tests.
abbrev data_sample : Pkt
data_sample = data_packet 0 3 15 0 3735928559 (greeting ++ (0 ∷ []))

data_sample-IsValid : IsValid data_sample
data_sample-IsValid = omega arith

abbrev read_data : Crc32 → Pkt
read_data z = record data_sample {
  crc1 = header_crc z data_sample;
  crc2 = z.crc32 (some (greeting ++ (0 ∷ [])));
}

test_data_pkt-passes : (z : Crc32) → test_data_pkt (read_data z) greeting 0 ≡ done (pos 1)
unfolding test_data_pkt same_text
test_data_pkt-passes z = refl

ack_sample-IsValid : IsValid (ack_packet 3 0 0)
ack_sample-IsValid = omega arith

test_ack_pkt-passes :
    (z : Crc32) (word : ℕ)
    → test_ack_pkt (record (ack_packet 3 0 0) { crc1 = word; crc2 = 0 }) 3 0 0 ≡ done (pos 1)
unfolding test_ack_pkt
test_ack_pkt-passes z word = refl

-- Every call is granted.
abbrev all_granted : Grants
all_granted = record { source = true; copied = true; buffer = true; dest = true; decoded = true }

room_asked : size_of_ssize (predict_header_length (some data_sample) +ℤ pos (4 + 15 + 4)) ≡ 30
unfolding varuint_size
room_asked = ground (arith, predict_header_length-size data_sample (omega arith), +ℤ_pos 7 23)

space-data : space data_sample ≡ 30
unfolding space varuint_size
space-data = refl

space-ack : space (ack_packet 3 0 0) ≡ 11
unfolding space varuint_size
space-ack = refl

data_test_passes : (z : Crc32) → encode_decode_data_test z all_granted ≡ done (pos 1)
unfolding encode_decode_data_test pkt_new
data_test_passes z =
    let (o, encoded, decoded) =
      decode-encode_data z data_sample (greeting ++ (0 ∷ [])) (replicate 30 0) 30
        data_sample-IsValid refl refl refl (omega (arith, space-data)) (omega arith)
        (omega arith) in
    ground (
      arith,
      create_data_pkt_result true 0 3 15 0 3735928559 (greeting ++ (0 ∷ [])) (omega arith),
      room_asked,
      encoded,
      decoded,
      test_data_pkt-passes z,
    )

ack_test_passes : (z : Crc32) → encode_decode_ack_test z all_granted ≡ done (pos 1)
unfolding encode_decode_ack_test pkt_new
ack_test_passes z =
    let p : Pkt = ack_packet 3 0 0 in
    let (o, encoded, decoded) =
      decode-encode_control z p (replicate 11 0) 11 true ack_sample-IsValid (omega arith)
        (omega arith) refl refl (omega (arith, space-ack)) (omega arith) (omega arith) in
    ground
      (arith, create_ack_pkt_result 3 0 0, encoded, decoded, test_ack_pkt-passes z (header_crc z p))

-- Both tests of the packet functions pass, whatever function computes the CRCs: when every
-- allocation is granted they return 1.
encode_decode_tests :
    (z : Crc32)
    → (encode_decode_data_test z all_granted ≡ done (pos 1))
      × (encode_decode_ack_test z all_granted ≡ done (pos 1))
encode_decode_tests z = (data_test_passes z, ack_test_passes z)
