-- ===== src/Packet/Encode.antt =====
-- `predict_header_length` and `pkt_encode` of src/packet_implem.c.
-- A result `none` is an access outside the buffer or the payload.
pub mod Layout
pub mod Steps
pub mod Refine
use lingi1341_trtp_gr.Base.{
  ℕ, ◌+◌, ◌-◌, ◌*◌, ◌^◌, Bool, true, false, not, ◌&&◌, ◌||◌, Option, none, some, List, [], ◌∷◌, ltb,
  ◌==◌, if◌then◌else◌, ◌>>=◌, length, take,
}
use lingi1341_trtp_gr.Base.Int.{ℤ, pos, negsuc, ◌+ℤ◌, ltb_ℤ, int_of}
use lingi1341_trtp_gr.Base.Bytes.{le32, be32}
use lingi1341_trtp_gr.Base.Memory.{load, store}
use lingi1341_trtp_gr.Zlib.{Crc32}
use lingi1341_trtp_gr.Packet.{
  Pkt, PktStatus, pkt_ok, e_type, e_tr, e_length, e_nomem, ptype_data, ptype_ack, ptype_nack,
  first_byte, pkt_get_type, pkt_get_tr, pkt_get_length, pkt_get_seqnum, pkt_get_timestamp,
  pkt_get_payload,
}
use lingi1341_trtp_gr.Packet.Varuint.{varuint_encode, varuint_predict_len}
use lingi1341_trtp_gr.Packet.Decode.{clear_tr}

unfoldable pub predict_header_length : Option Pkt → ℤ
predict_header_length none = negsuc 0
predict_header_length (some p) = pos 6 +ℤ varuint_predict_len p.length

-- The buffer and `*len`.
pub record Out : Type 0 where
  pub buf : List ℕ
  pub len : ℕ

-- `memcpy(buf + *len, bytes, n); *len = *len + n;`
unfoldable pub emit : List ℕ → Out → Option Out
emit bytes o = do
  buf ← store o.buf o.len bytes
  some (record { buf = buf; len = o.len + length bytes })

-- 8.: the payload, and its CRC when TR is 0.
unfoldable pub encode_payload : Crc32 → Pkt → Out → Option (PktStatus × Out)
encode_payload z p o = elim (pkt_get_payload p) [
  | none ↦ some (pkt_ok, o)
  | some obj ↦ do
    bytes ← load obj 0 (pkt_get_length p)
    o1 ← emit bytes o
    if pkt_get_tr p == 0
        then (do
          written ← load o1.buf (o1.len - pkt_get_length p) (pkt_get_length p)
          o2 ← emit (be32 (z.crc32 (some written))) o1
          some (pkt_ok, o2))
        else some (pkt_ok, o1)
]

-- 5. to 7.: what follows the length field in the header, and the header's CRC.
unfoldable pub encode_fields : Crc32 → Pkt → Out → Option (PktStatus × Out)
encode_fields z p o = do
  o1 ← emit (pkt_get_seqnum p ∷ []) o
  o2 ← emit (le32 (pkt_get_timestamp p)) o1
  copie ← load o2.buf 0 o2.len
  o3 ← emit (be32 (z.crc32 (some (clear_tr copie)))) o2
  encode_payload z p o3

-- The value that `-1` has as a `size_t`.
abbrev pub size_of_ssize : ℤ → ℕ
size_of_ssize (pos n) = n
size_of_ssize (negsuc n) = 2 ^ 64 - 1 - n

-- 4.: the length field. The two bytes of `varLength` have no value before `varuint_encode`.
unfoldable pub encode_length : Crc32 → Pkt → Out → Option (PktStatus × Out)
encode_length z p o = do
  let predicted = varuint_predict_len (pkt_get_length p)
  (l, var_length) ← varuint_encode (pkt_get_length p) (0 ∷ 0 ∷ []) (size_of_ssize predicted)
  elim l [
    | negsuc _ ↦ some (e_length, o)
    | pos n ↦ do
      bytes ← load var_length 0 (if n == 1 then 1 else if n == 2 then 2 else 0)
      o1 ← emit bytes o
      encode_fields z p o1
  ]

-- The bytes that the check at the start asks for.
unfoldable pub space_needed : Pkt → ℤ
space_needed p =
    let crc2_size : ℕ = if pkt_get_tr p == 0 && not (pkt_get_length p == 0) then 4 else 0 in
    predict_header_length (some p) +ℤ pos (4 + pkt_get_length p + crc2_size)

abbrev pub is_known_type : ℕ → Bool
is_known_type type = type == ptype_data || (type == ptype_ack || type == ptype_nack)

unfoldable pub pkt_encode : Crc32 → Pkt → List ℕ → ℕ → Option (PktStatus × Out)
pkt_encode z p buf len =
    if ltb_ℤ (int_of len) (space_needed p)
    then some (e_nomem, record { buf = buf; len = len })
    else if not (pkt_get_type p == ptype_data) && not (pkt_get_tr p == 0)
    then some (e_tr, record { buf = buf; len = len })
    else if is_known_type (pkt_get_type p)
    then (do o ← emit (first_byte p ∷ []) (record { buf = buf; len = 0 }); encode_length z p o)
    else some (e_type, record { buf = buf; len = 0 })
