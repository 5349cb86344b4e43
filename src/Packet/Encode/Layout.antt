-- ===== src/Packet/Encode/Layout.antt =====
-- What `pkt_encode` writes, as a function of the packet.
use lingi1341_trtp_gr.Base.{
  ℕ, ◌+◌, ◌≤◌, ◌≡◌, refl, arith, not, ◌&&◌, none, some, List, [], ◌∷◌, ◌++◌, ltb, ◌==◌,
  if◌then◌else◌, length, drop, length-append, append_assoc, drop-drop, length-drop, Option-cases,
  inl, inr, append-nil,
}
use lingi1341_trtp_gr.Base.Bytes.{le32, be32, length-le32, length-be32}
use lingi1341_trtp_gr.Base.Memory.{store-append}
use lingi1341_trtp_gr.Zlib.{Crc32}
use lingi1341_trtp_gr.Packet.{
  Pkt, PktStatus, pkt_ok, e_nomem, e_tr, e_type, ptype_fec, ptype_data, first_byte,
}
use lingi1341_trtp_gr.Packet.Valid.{PayloadFits}
use lingi1341_trtp_gr.Packet.Varuint.RoundTrip.{varuint, varuint_size, length-varuint}
use lingi1341_trtp_gr.Packet.Decode.{clear_tr}
use lingi1341_trtp_gr.Packet.Encode.{Out, emit}

-- Type, TR and window; length; sequence number; timestamp, in the host's byte order.
unfoldable pub header : Pkt → List ℕ
header p = first_byte p ∷ (varuint p.length ++ (p.seqnum ∷ le32 p.timestamp))

unfoldable pub header_crc : Crc32 → Pkt → ℕ
header_crc z p = z.crc32 (some (clear_tr (header p)))

-- The payload, and its CRC when TR is 0; nothing when there is no payload.
unfoldable pub trailer : Crc32 → Pkt → List ℕ
trailer z p = elim p.payload [
  | none ↦ []
  | some bytes ↦ bytes ++ (if p.tr == 0 then be32 (z.crc32 (some bytes)) else [])
]

unfoldable pub encoding : Crc32 → Pkt → List ℕ
encoding z p = header p ++ (be32 (header_crc z p) ++ trailer z p)

-- The bytes that `pkt_encode` asks for before it writes any.
unfoldable pub space : Pkt → ℕ
space p =
    6 + varuint_size p.length + (4 + p.length + (if p.tr == 0 && not (p.length == 0) then 4 else 0))

-- The buffer after the bytes `w` were written at its start, and their number.
abbrev pub wrote : List ℕ → List ℕ → Out
wrote buf w = record { buf = w ++ drop (length w) buf; len = length w }

pub emit-wrote :
    (buf w bytes : List ℕ)
    → length w + length bytes ≤ length buf
    → emit bytes (wrote buf w) ≡ some (wrote buf (w ++ bytes))
unfolding emit
emit-wrote buf w bytes h = ground (
  arith,
  store-append w bytes (drop (length w) buf) (length w) refl,
  length-drop (length w) buf,
  length-append w bytes,
  drop-drop (length bytes) (length w) (length w + length bytes) buf refl,
  append_assoc w bytes (drop (length w + length bytes) buf),
)

-- What `pkt_encode` is to return and to leave in the buffer, on each branch.
unfoldable pub encode_result : Crc32 → Pkt → List ℕ → ℕ → PktStatus × Out
encode_result z p buf len =
    if ltb len (space p)
    then (e_nomem, record { buf = buf; len = len })
    else if not (p.tr == 0) && not (p.type == ptype_data)
    then (e_tr, record { buf = buf; len = len })
    else if p.type == ptype_fec
    then (e_type, record { buf = buf; len = 0 })
    else (pkt_ok, wrote buf (encoding z p))

pub length-header : (p : Pkt) → length (header p) ≡ 6 + varuint_size p.length
unfolding header
length-header p = omega (
  arith,
  length-append (varuint p.length) (p.seqnum ∷ le32 p.timestamp),
  length-varuint p.length,
  length-le32 p.timestamp,
)

-- The number of bytes written: the header, its CRC, and the trailer.
pub length-encoding :
    (z : Crc32) (p : Pkt)
    → length (encoding z p) ≡ 10 + varuint_size p.length + length (trailer z p)
unfolding encoding
length-encoding z p =
    let check : List ℕ = be32 (header_crc z p) in
    omega (
      arith,
      length-append (header p) (check ++ trailer z p),
      length-append check (trailer z p),
      length-header p,
      length-be32 (header_crc z p),
    )

trailer-none : (z : Crc32) (p : Pkt) → p.payload ≡ none → trailer z p ≡ []
unfolding trailer
trailer-none z p e = ground arith

trailer-some :
    (z : Crc32) (p : Pkt) (obj : List ℕ)
    → p.payload ≡ some obj
    → length (trailer z p) ≡ length obj + (if p.tr == 0 then 4 else 0)
unfolding trailer
trailer-some z p obj e =
    let check : List ℕ = be32 (z.crc32 (some obj)) in
    ground (arith, append-nil obj, length-append obj check, length-be32 (z.crc32 (some obj)))

-- The room asked for is enough.
pub length-encoding-le-space :
    (z : Crc32) (p : Pkt) → PayloadFits p.payload p.length → length (encoding z p) ≤ space p
unfolding space
length-encoding-le-space z p fits = elim (Option-cases p.payload) [
  | inl e ↦ ground (arith, length-encoding z p, trailer-none z p e)
  | inr (obj, e) ↦
      let (same, nonzero, bytes) = rw e at fits in
      ground (arith, length-encoding z p, trailer-some z p obj e)
]

-- A packet with neither payload nor length takes 11 bytes, and asks for no more.
pub empty_size :
    (z : Crc32) (p : Pkt)
    → p.payload ≡ none
    → p.length ≡ 0
    → (length (encoding z p) ≡ 11) × (space p ≡ 11)
unfolding space varuint_size
empty_size z p e f = ground (arith, length-encoding z p, trailer-none z p e)
