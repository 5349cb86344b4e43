-- ===== src/Packet/Decode/Sound.antt =====
-- `pkt_decode` on any input: it stays inside a receive buffer, keeps packets well formed, and
-- accepts only what its checks accept.
use lingi1341_trtp_gr.Base.{
  ℕ, ◌+◌, ◌≤◌, ◌<◌, ◌^◌, ◌≡◌, arith, Bool, Option, none, some, List, length, drop, take, All,
  length-drop, length-take, All-take, All-drop, All-get_elem?, get_elem?_in_range, Option-cases,
  inl, inr,
}
use native.Mathlib.Decide.{dec_lt, ℕ_discrete}
use lingi1341_trtp_gr.Base.Bytes.{IsByte, of_be32, of_be32-lt, of_le32, of_le32-lt}
use lingi1341_trtp_gr.Base.Memory.{load_in_range}
use lingi1341_trtp_gr.Zlib.{Crc32}
use lingi1341_trtp_gr.Packet.{
  Pkt, PktStatus, max_message_size, pkt_set_payload, pkt_set_crc2, pkt_set_seqnum,
  pkt_set_timestamp, pkt_set_crc1, pkt_set_length, set_first_byte,
}
use lingi1341_trtp_gr.Packet.Valid.{IsValid}
use lingi1341_trtp_gr.Packet.Varuint.RoundTrip.{varuint_decode_two}
use lingi1341_trtp_gr.Packet.Decode.{
  crc32_of, decode_crc2, decode_payload, decode_body, decode_crc1, decode_fields, decode_length,
  pkt_decode,
}

-- A result that is no fault and that satisfies `P`.
abbrev pub Returns : {A : Type 0} → (A → Type 0) → Option A → Type 0
Returns P none = ⊥
Returns P (some a) = P a

abbrev ReturnsValid : Option (PktStatus × Pkt) → Type 0
ReturnsValid = Returns (λ r. IsValid r.1)

set_length-IsValid :
    (leng : ℕ) (p : Pkt)
    → IsValid p
    → p.payload ≡ none
    → IsValid (pkt_set_length p leng).1 × ((pkt_set_length p leng).1.payload ≡ none)
unfolding pkt_set_length
set_length-IsValid leng p v empty = ground arith

module _ (z : Crc32) (granted : Bool) (dat : List ℕ) (bytes : All IsByte dat) where
  crc2_valid :
      (ptr leng : ℕ) (p : Pkt)
      → ptr + 4 ≤ length dat
      → IsValid p
      → ((obj : List ℕ) → p.payload ≡ some obj → leng ≤ length obj)
      → ReturnsValid (decode_crc2 z dat ptr leng p)
  unfolding decode_crc2 pkt_set_crc2 crc32_of
  crc2_valid ptr leng p room v held = elim (Option-cases p.payload) [
    | inl e ↦ ground (arith, load_in_range dat ptr 4, word_in)
    | inr (obj, e) ↦
        let enough = held obj e in
        ground (arith, load_in_range dat ptr 4, word_in, load_in_range obj 0 leng)
  ]
    where
      word_in : of_be32 (take 4 (drop ptr dat)) < 2 ^ 32
      word_in = of_be32-lt _ (All-take IsByte 4 _ (All-drop IsByte ptr dat bytes))

  -- The packet with the payload that `pkt_set_payload` copies.
  with_payload : ℕ → ℕ → Pkt → Pkt
  with_payload ptr leng p = record p { payload = some (take leng (drop ptr dat)); length = leng }

  with_payload-IsValid :
      (ptr leng : ℕ) (p : Pkt)
      → ptr + leng ≤ length dat
      → 1 ≤ leng
      → leng ≤ 512
      → IsValid p
      → IsValid (with_payload ptr leng p)
        × ((obj : List ℕ) → some (take leng (drop ptr dat)) ≡ some obj → leng ≤ length obj)
  unfolding with_payload
  with_payload-IsValid ptr leng p room lo hi v =
      let size : length (take leng (drop ptr dat)) ≡ leng =
        omega (arith, length-take leng (drop ptr dat), length-drop ptr dat) in
      let copied : All IsByte (take leng (drop ptr dat)) =
        All-take IsByte leng _ (All-drop IsByte ptr dat bytes) in
      (
        record {
          window_in = v.window_in;
          tr_in = v.tr_in;
          type_in = v.type_in;
          length_in = hi;
          seqnum_in = v.seqnum_in;
          timestamp_in = v.timestamp_in;
          crc1_in = v.crc1_in;
          crc2_in = v.crc2_in;
          payload_fits = (size, lo, copied);
        },
        λ obj e. ground arith,
      )

  payload_valid :
      (ptr leng : ℕ) (p : Pkt)
      → ptr + 516 ≤ length dat
      → IsValid p
      → p.payload ≡ none
      → ReturnsValid (decode_payload z granted dat ptr leng p)
  unfolding decode_payload pkt_set_payload with_payload
  payload_valid ptr leng p room v empty = elim (dec_lt 512 leng) [
    | yes big ↦ ground arith
    | no small ↦ elim (ℕ_discrete leng 0) [
      | yes e ↦ ground (arith, crc2_valid (ptr + leng) leng p (omega arith) v (λ obj f. cc))
      | no nonzero ↦
          let (valid, held) =
            with_payload-IsValid ptr leng p (omega arith) (omega arith) (omega arith) v in
          ground (
            arith,
            length-drop ptr dat,
            load_in_range (drop ptr dat) 0 leng,
            crc2_valid (ptr + leng) leng (with_payload ptr leng p) (omega arith) valid held,
          )
    ]
  ]

  body_valid :
      (ptr leng : ℕ) (p : Pkt)
      → ptr + 516 ≤ length dat
      → IsValid p
      → p.payload ≡ none
      → ReturnsValid (decode_body z granted dat ptr leng p)
  unfolding decode_body
  body_valid ptr leng p room v empty = ground (arith, payload_valid ptr leng p room v empty)

  crc1_valid :
      (ptr leng crc1 : ℕ) (p : Pkt)
      → ptr + 520 ≤ length dat
      → IsValid p
      → p.payload ≡ none
      → ReturnsValid (decode_crc1 z granted dat ptr leng crc1 p)
  unfolding decode_crc1
  crc1_valid ptr leng crc1 p room v empty =
      ground (arith, load_in_range dat 0 ptr, body_valid (ptr + 4) leng p (omega arith) v empty)

  fields_valid :
      (ptr leng : ℕ) (p : Pkt)
      → ptr + 525 ≤ length dat
      → IsValid p
      → p.payload ≡ none
      → ReturnsValid (decode_fields z granted dat ptr leng p)
  unfolding decode_fields pkt_set_seqnum pkt_set_timestamp pkt_set_crc1
  fields_valid ptr leng p room v empty =
      let (seqnum, read) = get_elem?_in_range ptr dat (omega arith) in
      let timestamp : ℕ = of_le32 (take 4 (drop (ptr + 1) dat)) in
      let word : ℕ = of_be32 (take 4 (drop (ptr + 5) dat)) in
      let q : Pkt = record p { seqnum = seqnum; timestamp = timestamp; crc1 = word } in
      ground (
        arith,
        All-get_elem? IsByte ptr dat bytes read,
        of_le32-lt _ (All-take IsByte 4 _ (All-drop IsByte (ptr + 1) dat bytes)),
        of_be32-lt _ (All-take IsByte 4 _ (All-drop IsByte (ptr + 5) dat bytes)),
        read,
        load_in_range dat (ptr + 1) 4,
        load_in_range dat (ptr + 5) 4,
        crc1_valid (ptr + 5) leng word q,
      )

  length_valid :
      (p : Pkt)
      → max_message_size ≤ length dat
      → IsValid p
      → p.payload ≡ none
      → ReturnsValid (decode_length z granted dat p)
  unfolding decode_length
  length_valid p room v empty =
      let field : List ℕ = take 2 (drop 1 dat) in
      let (l, leng, left, decoded, lo, hi) =
        varuint_decode_two field (omega (arith, length-take 2 (drop 1 dat), length-drop 1 dat)) in
      let (valid, none_yet) = set_length-IsValid leng p v empty in
      ground (
        arith,
        load_in_range dat 1 2,
        decoded,
        fields_valid (1 + l) leng (pkt_set_length p leng).1 (omega arith) valid none_yet,
      )

  -- Whatever the bytes of an object of at least 528, the size of the receive buffer, and whatever
  -- the length that it is called with, `pkt_decode` into a valid packet with no payload never reads
  -- outside the object, and on every branch, errors included, it leaves a valid packet.
  pub pkt_decode-IsValid :
      (len : ℕ) (p : Pkt)
      → max_message_size ≤ length dat
      → IsValid p
      → p.payload ≡ none
      → ReturnsValid (pkt_decode z granted dat len p)
  unfolding pkt_decode
  pkt_decode-IsValid len p room v empty =
      let (b, read) = get_elem?_in_range 0 dat (omega arith) in
      ground (arith, read, All-get_elem? IsByte 0 dat bytes read, length_valid (set_first_byte p b))
