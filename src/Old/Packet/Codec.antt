-- ===== src/Old/Packet/Codec.antt =====
-- `pkt_decode` and `pkt_encode` of the earlier receiver (old/src/packet_implem.c), each with its
-- last part, what concerns the payload, as a function of its own.
-- A result `none` is an access outside `dat`, the buffer or the payload.
use lingi1341_trtp_gr.Base.{
  ℕ, ◌+◌, ◌-◌, Bool, not, ◌&&◌, ◌||◌, Option, none, some, List, [], ◌∷◌, ltb, ◌==◌, if◌then◌else◌,
  ◌>>=◌, get_elem?, drop,
}
use lingi1341_trtp_gr.Base.Int.{pos, negsuc, ◌+ℤ◌, ltb_ℤ, int_of}
use lingi1341_trtp_gr.Base.Bytes.{le32, be32, of_le32, of_be32}
use lingi1341_trtp_gr.Base.Memory.{load}
use lingi1341_trtp_gr.Zlib.{Crc32}
use lingi1341_trtp_gr.Packet.{
  Pkt, PktStatus, pkt_ok, e_type, e_tr, e_length, e_crc, e_nomem, e_noheader, e_unconsistent, is_ok,
  ptype_data, ptype_ack, ptype_nack, first_byte, set_first_byte,
}
use lingi1341_trtp_gr.Packet.Varuint.{invalid, value}
use lingi1341_trtp_gr.Packet.Decode.{clear_tr, crc32_of}
use lingi1341_trtp_gr.Packet.Encode.{Out, emit, size_of_ssize}
use lingi1341_trtp_gr.Old.Packet.{
  pkt_get_type, pkt_get_tr, pkt_get_length, pkt_get_seqnum, pkt_get_timestamp, pkt_get_payload,
  pkt_set_length, pkt_set_seqnum, pkt_set_timestamp, pkt_set_crc1, pkt_set_crc2, pkt_set_payload,
}
use lingi1341_trtp_gr.Old.Packet.Varuint.{
  varuint_decode, varuint_encode, varuint_predict_len, predict_header_length,
}

-- 8. and 9.: the payload and its CRC, of a packet that is data and not truncated.
unfoldable pub decode_payload : Crc32 → Bool → List ℕ → ℕ → ℕ → Pkt → Option (PktStatus × Pkt)
decode_payload z granted dat ptr leng p =
    if pkt_get_type p == ptype_data && pkt_get_tr p == 0
    then (do
      (code_payload, q) ← pkt_set_payload granted p (some (drop ptr dat)) leng
      if not (is_ok code_payload) then some (code_payload, q) else (do
        crc2 ← load dat (ptr + leng) 4
        let (code_crc2, r) = pkt_set_crc2 q (of_be32 crc2)
        check ← crc32_of z (pkt_get_payload r) leng
        some (
            if not (is_ok code_crc2)
            then (code_crc2, r)
            else if of_be32 crc2 == check
            then (pkt_ok, r)
            else (e_crc, r))))
    else some (pkt_ok, p)

-- 5. to 7.: the sequence number, the timestamp and the header's CRC, from `ptr` on.
unfoldable pub decode_fields : Crc32 → Bool → List ℕ → ℕ → ℕ → Pkt → Option (PktStatus × Pkt)
decode_fields z granted dat ptr leng p = do
  seqnum ← get_elem? dat ptr
  timestamp ← load dat (ptr + 1) 4
  crc1 ← load dat (ptr + 1 + 4) 4
  copie ← load dat 0 (ptr + 1 + 4)
  let q = (pkt_set_timestamp (pkt_set_seqnum p seqnum).1 (of_le32 timestamp)).1
  let r = (pkt_set_crc1 q (of_be32 crc1)).1
  if of_be32 crc1 == z.crc32 (some (clear_tr copie))
      then decode_payload z granted dat (ptr + 1 + 4 + 4) leng r
      else some (e_crc, r)

-- 4.: the length field, and what follows it. The status of `pkt_set_length` is not looked at.
unfoldable pub decode_header : Crc32 → Bool → List ℕ → Pkt → Option (PktStatus × Pkt)
decode_header z granted dat p = do
  var_length ← load dat 1 2
  read ← varuint_decode (some var_length) 2
  elim read [
    | invalid ↦ some (e_length, p)
    | value l leng _ ↦ decode_fields z granted dat (1 + l) leng (pkt_set_length p leng).1
  ]

unfoldable pub pkt_decode : Crc32 → Bool → List ℕ → ℕ → Pkt → Option (PktStatus × Pkt)
pkt_decode z granted dat len p =
    if ltb len 7 then some (e_noheader, p) else if ltb len 11 then some (e_unconsistent, p) else (do
      b ← get_elem? dat 0
      let q = set_first_byte p b
      if pkt_get_type q == 0
          then some (e_type, q)
          else if pkt_get_type q == ptype_data && not (pkt_get_tr q == 0)
          then some (e_tr, q)
          else decode_header z granted dat q)

-- 8.: the payload, and its CRC when TR is 0; nothing when there is no payload.
unfoldable pub encode_payload : Crc32 → Pkt → Out → Option (PktStatus × Out)
encode_payload z p o = elim (pkt_get_payload p) [
  | none ↦ some (pkt_ok, o)
  | some obj ↦ do
    bytes ← load obj 0 (pkt_get_length p)
    o1 ← emit bytes o
    if not (pkt_get_tr p == 0) then some (pkt_ok, o1) else (do
      copied ← load o1.buf (o1.len - pkt_get_length p) (pkt_get_length p)
      o2 ← emit (be32 (z.crc32 (some copied))) o1
      some (pkt_ok, o2))
]

-- 4. to 7.: the rest of the header, after its first byte.
unfoldable pub encode_header : Crc32 → Pkt → Out → Option (PktStatus × Out)
encode_header z p o = do
  (l, var_length) ←
      varuint_encode (pkt_get_length p) (0 ∷ 0 ∷ [])
        (size_of_ssize (varuint_predict_len (pkt_get_length p)))
  elim l [
    | negsuc _ ↦ some (e_length, o)
    | pos n ↦ do
      bytes ← load var_length 0 (if n == 1 then 1 else if n == 2 then 2 else 0)
      o1 ← emit bytes o
      o2 ← emit (pkt_get_seqnum p ∷ []) o1
      o3 ← emit (le32 (pkt_get_timestamp p)) o2
      copie ← load o3.buf 0 o3.len
      o4 ← emit (be32 (z.crc32 (some (clear_tr copie)))) o3
      encode_payload z p o4
  ]

unfoldable pub pkt_encode : Crc32 → Pkt → List ℕ → ℕ → Option (PktStatus × Out)
pkt_encode z p buf len =
    let taille_crc2 : ℕ = if pkt_get_tr p == 0 && not (pkt_get_length p == 0) then 4 else 0 in
    let type : ℕ = pkt_get_type p in
    if ltb_ℤ (int_of len)
      (predict_header_length (some p) +ℤ pos (4 + pkt_get_length p + taille_crc2))
    then some (e_nomem, record { buf = buf; len = len })
    else if not (type == ptype_data) && not (pkt_get_tr p == 0)
    then some (e_tr, record { buf = buf; len = len })
    else if type == ptype_data || (type == ptype_ack || type == ptype_nack)
    then (do o ← emit (first_byte p ∷ []) (record { buf = buf; len = 0 }); encode_header z p o)
    else some (e_type, record { buf = buf; len = 0 })
