-- ===== src/Packet/Encode/Refine.antt =====
-- `pkt_encode` against `encode_result`, on every branch.
use lingi1341_trtp_gr.Base.{ℕ, ◌+◌, ◌≤◌, ◌<◌, ◌^◌, ◌≡◌, arith, some, List, [], ◌∷◌, length}
use lingi1341_trtp_gr.Base.Int.{pos, +ℤ_pos, int_of}
use lingi1341_trtp_gr.Zlib.{Crc32}
use lingi1341_trtp_gr.Packet.{Pkt, first_byte}
use lingi1341_trtp_gr.Packet.Valid.{IsValid}
use lingi1341_trtp_gr.Packet.Varuint.RoundTrip.{varuint_size, varuint_predict_len-size}
use lingi1341_trtp_gr.Packet.Encode.{predict_header_length, space_needed, pkt_encode}
use lingi1341_trtp_gr.Packet.Encode.Layout.{
  space, encode_result, emit-wrote, length-encoding, length-encoding-le-space,
}
use lingi1341_trtp_gr.Packet.Encode.Steps.{encode_length-wrote}

-- On a valid packet `predict_header_length` is the length of the header without its CRC.
pub predict_header_length-size :
    (p : Pkt) → p.length < 2 ^ 15 → predict_header_length (some p) ≡ pos (6 + varuint_size p.length)
unfolding predict_header_length
predict_header_length-size p h = rw (varuint_predict_len-size p.length h) (+ℤ_pos _ _)

space_needed-space : (p : Pkt) → p.length < 2 ^ 15 → space_needed p ≡ pos (space p)
unfolding space_needed space
space_needed-space p h = rw (predict_header_length-size p h) (+ℤ_pos _ _)

int_of_small : (n : ℕ) → n < 2 ^ 31 → int_of n ≡ pos n
int_of_small n h = ground arith

-- For a valid packet, a `len` below 2^31, and a buffer of at least `len` bytes, `pkt_encode` never leaves the buffer or
-- the payload, and on every branch it returns the status, the buffer and the length that
-- `encode_result` states: E_NOMEM below the needed space, E_TR for a truncated packet that is not
-- data, E_TYPE (with the length at 0) for type 0, and else the encoding written at the start of
-- the buffer with the rest of it unchanged.
pub pkt_encode-result :
    (z : Crc32) (p : Pkt) (buf : List ℕ) (len : ℕ)
    → IsValid p
    → len ≤ length buf
    → len < 2 ^ 31
    → pkt_encode z p buf len ≡ some (encode_result z p buf len)
unfolding pkt_encode encode_result
pkt_encode-result z p buf len v fits small = ground (
  arith,
  v.length_in,
  v.type_in,
  space_needed-space p,
  int_of_small len,
  emit-wrote buf [] (first_byte p ∷ []),
  length-encoding z p,
  length-encoding-le-space z p v.payload_fits,
  encode_length-wrote z p buf v,
)
