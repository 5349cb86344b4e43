-- ===== src/Packet/RoundTrip/Body.antt =====
-- `pkt_decode` on the bytes that `pkt_encode` writes, with anything behind them.
use lingi1341_trtp_gr.Base.{
  ℕ, ◌+◌, ◌≤◌, ◌≡◌, ◌≢◌, refl, ◌∙◌, arith, Bool, true, none, some, List, [], ◌++◌, ◌==◌,
  if◌then◌else◌, length, drop, append_assoc, append-nil,
}
use lingi1341_trtp_gr.Base.Bytes.{be32, of_be32, of_be32-be32, length-be32}
use lingi1341_trtp_gr.Base.Memory.{load, load-append, load_all, load_behind}
use lingi1341_trtp_gr.Zlib.{Crc32}
use lingi1341_trtp_gr.Packet.{Pkt, pkt_ok, e_crc, ptype_data, zeroed, pkt_set_payload, pkt_set_crc2}
use lingi1341_trtp_gr.Packet.Valid.{IsValid}
use lingi1341_trtp_gr.Packet.Varuint.RoundTrip.{varuint_size}
use lingi1341_trtp_gr.Packet.Encode.Layout.{header, header_crc, trailer, encoding, length-encoding}
use lingi1341_trtp_gr.Packet.Decode.{crc32_of, decode_crc2, decode_payload, decode_body, pkt_decode}
use lingi1341_trtp_gr.Packet.Decode.Message.{message, drop-message, right_crc1}

encoding-message :
    (z : Crc32) (p : Pkt) (tail : List ℕ)
    → encoding z p ++ tail ≡ message p (header_crc z p) (trailer z p ++ tail)
unfolding encoding
encoding-message z p tail =
    append_assoc (header p) (be32 (header_crc z p) ++ trailer z p) tail
    ∙ rw (append_assoc (be32 (header_crc z p)) (trailer z p) tail) refl

trailer_empty : (z : Crc32) (p : Pkt) → p.payload ≡ none → trailer z p ≡ []
unfolding trailer
trailer_empty z p e = ground arith

-- Acknowledgements carry nothing behind the header's CRC.
pub decode_control :
    (z : Crc32) (p : Pkt) (tail : List ℕ) (granted : Bool) (len : ℕ)
    → IsValid p
    → p.type ≢ 0
    → p.type ≢ ptype_data
    → p.tr ≡ 0
    → p.payload ≡ none
    → 11 ≤ len
    → pkt_decode z granted (encoding z p ++ tail) len zeroed
      ≡ some (pkt_ok, record p { crc1 = header_crc z p; crc2 = 0 })
unfolding decode_body
decode_control z p tail granted len v known control whole empty enough = ground (
  arith,
  encoding-message z p tail,
  trailer_empty z p empty,
  right_crc1 z p tail granted len v known whole enough,
)

-- The trailer of data that is not truncated.
trailer_data :
    (z : Crc32) (p : Pkt) (obj : List ℕ)
    → p.payload ≡ some obj
    → p.tr ≡ 0
    → trailer z p ≡ obj ++ be32 (z.crc32 (some obj))
unfolding trailer
trailer_data z p obj e whole = ground arith

-- 8. and 9. on a payload, its CRC, and anything behind, for a packet that has no payload yet.
body_data :
    (z : Crc32) (dat obj tail : List ℕ) (ptr n : ℕ) (q : Pkt)
    → drop ptr dat ≡ obj ++ (be32 (z.crc32 (some obj)) ++ tail)
    → n ≡ length obj
    → 1 ≤ n
    → n ≤ 512
    → q.type ≡ ptype_data
    → q.tr ≡ 0
    → q.payload ≡ none
    → decode_body z true dat ptr n q
      ≡ some (pkt_ok, record q { length = n; payload = some obj; crc2 = z.crc32 (some obj) })
unfolding decode_body decode_payload pkt_set_payload decode_crc2 pkt_set_crc2 crc32_of
body_data z dat obj tail ptr n q behind e lo hi data_type whole empty = ground (
  arith,
  load-append [] obj (be32 (z.crc32 (some obj)) ++ tail) 0 n refl e,
  load_behind dat obj (be32 (z.crc32 (some obj))) tail ptr (ptr + n) 4 behind,
  length-be32 (z.crc32 (some obj)),
  of_be32-be32 (z.crc32 (some obj)) (z.crc32-lt (some obj)),
  load_all obj n e,
)

pub decode_data :
    (z : Crc32) (p : Pkt) (obj tail : List ℕ) (len : ℕ)
    → IsValid p
    → p.type ≡ ptype_data
    → p.tr ≡ 0
    → p.payload ≡ some obj
    → 11 ≤ len
    → pkt_decode z true (encoding z p ++ tail) len zeroed
      ≡ some (pkt_ok, record p { crc1 = header_crc z p; crc2 = z.crc32 (some obj) })
decode_data z p obj tail len v data_type whole e enough =
    let check : List ℕ = be32 (z.crc32 (some obj)) in
    let (same, nonzero, bytes) = rw e at v.payload_fits in
    let ptr : ℕ = 10 + varuint_size p.length in
    let dat : List ℕ = message p (header_crc z p) (obj ++ (check ++ tail)) in
    let q : Pkt = record p { crc1 = header_crc z p; crc2 = 0; payload = none } in
    ground (
      arith,
      encoding-message z p tail,
      trailer_data z p obj e whole,
      append_assoc obj check tail,
      right_crc1 z p (obj ++ (check ++ tail)) true len v,
      drop-message p (header_crc z p) (obj ++ (check ++ tail)) ptr refl,
      body_data z dat obj tail ptr p.length q,
    )

-- The packet that ends a transfer: data of length 0. Nothing is written behind its header's CRC,
-- and `pkt_decode` still reads the next four bytes.
pub decode_last :
    (z : Crc32) (p : Pkt) (word tail : List ℕ) (granted : Bool) (len : ℕ)
    → IsValid p
    → p.type ≡ ptype_data
    → p.tr ≡ 0
    → p.payload ≡ none
    → p.length ≡ 0
    → length word ≡ 4
    → 11 ≤ len
    → pkt_decode z granted (encoding z p ++ (word ++ tail)) len zeroed
      ≡ some (
        if of_be32 word == 0 then pkt_ok else e_crc,
        record p { crc1 = header_crc z p; crc2 = of_be32 word },
      )
unfolding decode_body decode_payload pkt_set_payload decode_crc2 pkt_set_crc2 crc32_of
decode_last z p word tail granted len v data_type whole empty zero four enough =
    let ptr : ℕ = 10 + varuint_size p.length in
    ground (
      arith,
      z.crc32_null,
      encoding-message z p (word ++ tail),
      trailer_empty z p empty,
      right_crc1 z p (word ++ tail) granted len v,
      drop-message p (header_crc z p) (word ++ tail) ptr refl,
      load_behind (message p (header_crc z p) (word ++ tail)) [] word tail ptr ptr 4,
    )

-- In an object that ends with the message that read faults.
pub decode_last_cut :
    (z : Crc32) (p : Pkt) (granted : Bool) (len : ℕ)
    → IsValid p
    → p.type ≡ ptype_data
    → p.tr ≡ 0
    → p.payload ≡ none
    → p.length ≡ 0
    → 11 ≤ len
    → pkt_decode z granted (encoding z p) len zeroed ≡ none
unfolding decode_body decode_payload pkt_set_payload decode_crc2 load
decode_last_cut z p granted len v data_type whole empty zero enough = ground (
  arith,
  encoding-message z p [],
  append-nil (encoding z p),
  trailer_empty z p empty,
  right_crc1 z p [] granted len v,
  length-encoding z p,
)
