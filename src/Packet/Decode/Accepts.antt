-- ===== src/Packet/Decode/Accepts.antt =====
-- What PKT_OK from `pkt_decode` says about the packet.
use lingi1341_trtp_gr.Base.{
  ℕ, ◌+◌, ◌≤◌, ◌≡◌, ◌≢◌, arith, Bool, none, some, List, length, drop, take, get_elem?, Option-cases,
  inl, inr,
}
use lingi1341_trtp_gr.Base.Memory.{load, load_all, length-load, load_front}
use lingi1341_trtp_gr.Zlib.{Crc32}
use lingi1341_trtp_gr.Packet.{
  Pkt, pkt_ok, ptype_data, pkt_set_payload, pkt_set_crc2, pkt_set_seqnum, pkt_set_timestamp,
  pkt_set_crc1, pkt_set_length, set_first_byte,
}
use lingi1341_trtp_gr.Packet.Varuint.RoundTrip.{varuint_decode_two}
use lingi1341_trtp_gr.Base.Bytes.{of_le32, of_be32}
use lingi1341_trtp_gr.Packet.Decode.{
  clear_tr, crc32_of, decode_crc2, decode_payload, decode_body, decode_crc1, decode_fields,
  decode_length, pkt_decode,
}

-- The checks of the payload's CRC, for a packet whose type, TR and first CRC are `p`'s.
record Checked2 (z : Crc32) (p q : Pkt) : Type 0 where
  same_type : q.type ≡ p.type
  same_tr : q.tr ≡ p.tr
  same_crc1 : q.crc1 ≡ p.crc1
  crc2_good : q.crc2 ≡ z.crc32 q.payload

module _ (z : Crc32) (granted : Bool) (dat : List ℕ) where
  crc2_checked :
      (ptr leng : ℕ) (p q : Pkt)
      → ((obj : List ℕ) → p.payload ≡ some obj → leng ≡ length obj)
      → decode_crc2 z dat ptr leng p ≡ some (pkt_ok, q)
      → Checked2 z p q
  unfolding decode_crc2 pkt_set_crc2 crc32_of
  crc2_checked ptr leng p q held e = elim (Option-cases p.payload) [
    | inl f ↦ ground arith
    | inr (obj, f) ↦ ground (arith, load_all obj leng (held obj f))
  ]

  payload_checked :
      (ptr leng : ℕ) (p q : Pkt)
      → p.payload ≡ none
      → decode_payload z granted dat ptr leng p ≡ some (pkt_ok, q)
      → Checked2 z p q
  unfolding decode_payload pkt_set_payload
  payload_checked ptr leng p q empty e = elim (Option-cases (load (drop ptr dat) 0 leng)) [
    | inl f ↦ ground (arith, crc2_checked (ptr + leng) leng p q (λ obj g. cc))
    | inr (bytes, f) ↦
        let size = length-load (drop ptr dat) 0 leng bytes f in
        ground (
          arith,
          crc2_checked (ptr + leng) leng p q (λ obj g. cc),
          crc2_checked (ptr + leng) leng (record p { payload = some bytes; length = leng }) q
              (λ obj g. ground (arith, size)),
        )
  ]

  -- What a header that passes its check has, before the payload is looked at.
  crc1_checked :
      (ptr leng : ℕ) (p q : Pkt)
      → p.payload ≡ none
      → decode_crc1 z granted dat ptr leng p.crc1 p ≡ some (pkt_ok, q)
      → (q.type ≡ p.type)
        × (q.tr ≡ p.tr)
        × (q.crc1 ≡ z.crc32 (some (clear_tr (take ptr dat))))
        × (q.type ≡ ptype_data → q.tr ≡ 0 → q.crc2 ≡ z.crc32 q.payload)
  unfolding decode_crc1 decode_body
  crc1_checked ptr leng p q empty e = elim (Option-cases (load dat 0 ptr)) [
    | inl f ↦ ground arith
    | inr (bytes, f) ↦
        ground (arith, load_front dat ptr bytes f, payload_checked (ptr + 4) leng p q empty)
  ]

  fields_checked :
      (ptr leng : ℕ) (p q : Pkt)
      → p.payload ≡ none
      → decode_fields z granted dat ptr leng p ≡ some (pkt_ok, q)
      → (q.type ≡ p.type)
        × (q.tr ≡ p.tr)
        × (q.crc1 ≡ z.crc32 (some (clear_tr (take (ptr + 5) dat))))
        × (q.type ≡ ptype_data → q.tr ≡ 0 → q.crc2 ≡ z.crc32 q.payload)
  unfolding decode_fields pkt_set_seqnum pkt_set_timestamp pkt_set_crc1
  fields_checked ptr leng p q empty e = elim (Option-cases (get_elem? dat ptr)) [
    | inl f ↦ ground arith
    | inr (s, f) ↦ elim (Option-cases (load dat (ptr + 1) 4)) [
      | inl g ↦ ground arith
      | inr (t, g) ↦ elim (Option-cases (load dat (ptr + 5) 4)) [
        | inl h ↦ ground arith
        | inr (w, h) ↦
            let p' : Pkt = record p { seqnum = s; timestamp = of_le32 t; crc1 = of_be32 w } in
            crc1_checked (ptr + 5) leng p' q empty (ground arith)
      ]
    ]
  ]

  length_checked :
      (p q : Pkt)
      → p.payload ≡ none
      → decode_length z granted dat p ≡ some (pkt_ok, q)
      → (q.type ≡ p.type)
        × (q.tr ≡ p.tr)
        × (n : ℕ) × (7 ≤ n)
        × (n ≤ 8)
        × (q.crc1 ≡ z.crc32 (some (clear_tr (take n dat))))
        × (q.type ≡ ptype_data → q.tr ≡ 0 → q.crc2 ≡ z.crc32 q.payload)
  unfolding decode_length
  length_checked p q empty e = elim (Option-cases (load dat 1 2)) [
    | inl f ↦ ground arith
    | inr (field, f) ↦
        let (l, leng, left, decoded, lo, hi) =
          varuint_decode_two field (length-load dat 1 2 field f) in
        let (t, r, c1, c2) =
          fields_checked (1 + l) leng (pkt_set_length p leng).1 q
            (unfold pkt_set_length in ground arith) (ground arith) in
        (
          unfold pkt_set_length in ground arith,
          unfold pkt_set_length in ground arith,
          1 + l + 5,
          omega arith,
          omega arith,
          c1,
          c2,
        )
  ]

  -- `pkt_decode` into a packet with no payload returns PKT_OK only if it was told of at least 11
  -- bytes, the type is not 0, TR is 0 on data, the first CRC of the packet is the CRC of the first
  -- 7 or 8 bytes with TR cleared, and, on data, the second is the CRC of the payload that it holds.
  pub pkt_decode-accepts :
      (len : ℕ) (p q : Pkt)
      → p.payload ≡ none
      → pkt_decode z granted dat len p ≡ some (pkt_ok, q)
      → (11 ≤ len)
        × (q.type ≢ 0)
        × (q.type ≡ ptype_data → (q.tr ≡ 0) × (q.crc2 ≡ z.crc32 q.payload))
        × (n : ℕ) × (7 ≤ n)
        × (n ≤ 8)
        × (q.crc1 ≡ z.crc32 (some (clear_tr (take n dat))))
  unfolding pkt_decode
  pkt_decode-accepts len p q empty e = elim (Option-cases (get_elem? dat 0)) [
    | inl f ↦ ground arith
    | inr (b, f) ↦
        let start : Pkt = set_first_byte p b in
        let (t, r, n, lo, hi, c1, c2) = length_checked start q empty (ground arith) in
        (ground arith, ground arith, λ h. (ground arith, c2 h (ground arith)), n, lo, hi, c1)
  ]
