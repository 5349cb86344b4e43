-- ===== src/Packet/Decode.antt =====
-- `pkt_decode` of src/packet_implem.c, in the order of its steps.
-- `dat` is the object that `data` points into, to its end; `len` is what the caller passes.
-- A result `none` is a read outside that object. `granted` is whether `calloc` has memory.
pub mod Message
pub mod Sound
pub mod Accepts
use lingi1341_trtp_gr.Base.{
  ℕ, ◌+◌, Bool, true, false, not, ◌&&◌, Option, none, some, List, [], ◌∷◌, bit_and, ltb, ◌==◌,
  if◌then◌else◌, ◌>>=◌, get_elem?, drop,
}
use lingi1341_trtp_gr.Base.Bytes.{of_le32, of_be32}
use lingi1341_trtp_gr.Base.Memory.{load}
use lingi1341_trtp_gr.Zlib.{Crc32}
use lingi1341_trtp_gr.Packet.{
  Pkt, PktStatus, pkt_ok, e_type, e_tr, e_length, e_crc, e_noheader, e_unconsistent, is_ok,
  ptype_data, set_first_byte, pkt_get_type, pkt_get_tr, pkt_get_payload, pkt_set_length,
  pkt_set_seqnum, pkt_set_timestamp, pkt_set_crc1, pkt_set_crc2, pkt_set_payload,
}
use lingi1341_trtp_gr.Packet.Varuint.{invalid, value, varuint_decode}

-- `copie[0] & 0b11011111`
abbrev pub clear_tr : List ℕ → List ℕ
clear_tr [] = []
clear_tr (b ∷ bs) = bit_and b 0xDF ∷ bs

-- `crc32(0, ptr, n)`: `n` bytes are read, none at all from NULL.
unfoldable pub crc32_of : Crc32 → Option (List ℕ) → ℕ → Option ℕ
crc32_of z none n = some (z.crc32 none)
crc32_of z (some obj) n = do bytes ← load obj 0 n; some (z.crc32 (some bytes))

-- 9. and 9.1: the CRC of the payload, against the payload that the packet has.
unfoldable pub decode_crc2 : Crc32 → List ℕ → ℕ → ℕ → Pkt → Option (PktStatus × Pkt)
decode_crc2 z dat ptr leng p = do
  word ← load dat ptr 4
  let (code, q) = pkt_set_crc2 p (of_be32 word)
  check ← crc32_of z (pkt_get_payload q) leng
  some (
      if not (is_ok code)
      then (code, q)
      else if not (of_be32 word == check)
      then (e_crc, q)
      else (pkt_ok, q))

-- 8.: the payload of a packet that is data and not truncated.
unfoldable pub decode_payload : Crc32 → Bool → List ℕ → ℕ → ℕ → Pkt → Option (PktStatus × Pkt)
decode_payload z granted dat ptr leng p = do
  (code, q) ← pkt_set_payload granted p (some (drop ptr dat)) leng
  if is_ok code then decode_crc2 z dat (ptr + leng) leng q else some (code, q)

unfoldable pub decode_body : Crc32 → Bool → List ℕ → ℕ → ℕ → Pkt → Option (PktStatus × Pkt)
decode_body z granted dat ptr leng p =
    if pkt_get_type p == ptype_data && pkt_get_tr p == 0
    then decode_payload z granted dat ptr leng p
    else some (pkt_ok, p)

-- 7.1: the CRC of the header, the first `ptr` bytes with TR set to 0.
unfoldable pub decode_crc1 : Crc32 → Bool → List ℕ → ℕ → ℕ → ℕ → Pkt → Option (PktStatus × Pkt)
decode_crc1 z granted dat ptr leng crc1 p = do
  copie ← load dat 0 ptr
  if not (crc1 == z.crc32 (some (clear_tr copie)))
      then some (e_crc, p)
      else decode_body z granted dat (ptr + 4) leng p

-- The sequence number, the timestamp and the header's CRC, from `ptr` on.
unfoldable pub decode_fields : Crc32 → Bool → List ℕ → ℕ → ℕ → Pkt → Option (PktStatus × Pkt)
decode_fields z granted dat ptr leng p = do
  seqnum ← get_elem? dat ptr
  timestamp ← load dat (ptr + 1) 4
  word ← load dat (ptr + 5) 4
  let p1 = (pkt_set_seqnum p seqnum).1
  let p2 = (pkt_set_timestamp p1 (of_le32 timestamp)).1
  let p3 = (pkt_set_crc1 p2 (of_be32 word)).1
  decode_crc1 z granted dat (ptr + 5) leng (of_be32 word) p3

-- The length field. The status of `pkt_set_length` is not looked at.
unfoldable pub decode_length : Crc32 → Bool → List ℕ → Pkt → Option (PktStatus × Pkt)
decode_length z granted dat p = do
  var_length ← load dat 1 2
  read ← varuint_decode (some var_length) 2
  elim read [
    | invalid ↦ some (e_length, p)
    | value l leng _ ↦ decode_fields z granted dat (1 + l) leng (pkt_set_length p leng).1
  ]

unfoldable pub pkt_decode : Crc32 → Bool → List ℕ → ℕ → Pkt → Option (PktStatus × Pkt)
pkt_decode z granted dat len p =
    if ltb len 7 then some (e_noheader, p) else if ltb len 11 then some (e_unconsistent, p) else (do
      b ← get_elem? dat 0
      let q = set_first_byte p b
      if pkt_get_type q == 0
          then some (e_type, q)
          else if pkt_get_type q == ptype_data && not (pkt_get_tr q == 0)
          then some (e_tr, q)
          else decode_length z granted dat q)
