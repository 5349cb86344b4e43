-- ===== src/Packet/Encode/Steps.antt =====
-- The steps of `pkt_encode`, on a buffer that has the room.
use lingi1341_trtp_gr.Base.{
  ℕ, ◌+◌, ◌-◌, ◌≤◌, ◌≡◌, refl, arith, some, List, [], ◌∷◌, ◌++◌, length, drop, length-append,
  append_assoc, append-nil, Option-cases, inl, inr,
}
use lingi1341_trtp_gr.Base.Bytes.{le32, be32, length-be32}
use lingi1341_trtp_gr.Base.Memory.{load, load_all, load-append}
use lingi1341_trtp_gr.Zlib.{Crc32}
use lingi1341_trtp_gr.Packet.{Pkt, pkt_ok, first_byte}
use lingi1341_trtp_gr.Packet.Valid.{IsValid, PayloadFits}
use lingi1341_trtp_gr.Packet.Varuint.RoundTrip.{
  varuint, varuint_size, spare, varuint_predict_len-size, varuint_encode-varuint,
  varuint_size_bounds, length-varuint,
}
use lingi1341_trtp_gr.Packet.Decode.{clear_tr}
use lingi1341_trtp_gr.Packet.Encode.{encode_payload, encode_fields, encode_length}
use lingi1341_trtp_gr.Packet.Encode.Layout.{
  header, header_crc, trailer, encoding, wrote, emit-wrote, length-encoding,
}

-- What was written last is read back from the buffer.
load-wrote :
    (buf w bytes : List ℕ) (off n : ℕ)
    → off ≡ length w
    → n ≡ length bytes
    → load (wrote buf (w ++ bytes)).buf off n ≡ some bytes
load-wrote buf w bytes off n e f = rw (append_assoc w bytes) (load-append w bytes _ off n e f)

-- All that was written.
load-wrote_all : (buf w : List ℕ) → load (wrote buf w).buf 0 (length w) ≡ some w
load-wrote_all buf w = load-append [] w (drop (length w) buf) 0 (length w) refl refl

-- 8. with a payload `obj`.
encode_payload-some :
    (z : Crc32) (p : Pkt) (buf w obj : List ℕ)
    → p.payload ≡ some obj
    → length obj ≡ p.length
    → length w + length (trailer z p) ≤ length buf
    → encode_payload z p (wrote buf w) ≡ some (pkt_ok, wrote buf (w ++ trailer z p))
unfolding encode_payload trailer
encode_payload-some z p buf w obj e f h =
    let check : List ℕ = be32 (z.crc32 (some obj)) in
    ground (
      arith,
      load_all obj p.length,
      emit-wrote buf w obj,
      emit-wrote buf (w ++ obj) check,
      load-wrote buf w obj (length (w ++ obj) - p.length) p.length,
      length-append w obj,
      length-append obj check,
      length-be32 (z.crc32 (some obj)),
      append_assoc w obj check,
      append-nil obj,
    )

-- 8.: the payload and its CRC are appended.
encode_payload-wrote :
    (z : Crc32) (p : Pkt) (buf w : List ℕ)
    → PayloadFits p.payload p.length
    → length w + length (trailer z p) ≤ length buf
    → encode_payload z p (wrote buf w) ≡ some (pkt_ok, wrote buf (w ++ trailer z p))
encode_payload-wrote z p buf w fits h = elim (Option-cases p.payload) [
  | inl e ↦ unfold encode_payload trailer in rw e (rw append-nil)
  | inr (obj, e) ↦ encode_payload-some z p buf w obj e (rw e at fits).0 h
]

-- 5. to 8., behind what is the header up to the length field.
encode_fields-wrote :
    (z : Crc32) (p : Pkt) (buf w : List ℕ)
    → PayloadFits p.payload p.length
    → w ++ (p.seqnum ∷ le32 p.timestamp) ≡ header p
    → length (encoding z p) ≤ length buf
    → encode_fields z p (wrote buf w) ≡ some (pkt_ok, wrote buf (encoding z p))
unfolding encode_fields encoding header_crc
encode_fields-wrote z p buf w fits e h =
    let check : List ℕ = be32 (z.crc32 (some (clear_tr (header p)))) in
    ground (
      arith,
      emit-wrote buf w (p.seqnum ∷ []),
      emit-wrote buf (w ++ (p.seqnum ∷ [])) (le32 p.timestamp),
      append_assoc w (p.seqnum ∷ []) (le32 p.timestamp),
      load-wrote_all buf (header p),
      emit-wrote buf (header p) check,
      encode_payload-wrote z p buf (header p ++ check) fits,
      append_assoc (header p) check (trailer z p),
      length-append w (p.seqnum ∷ []),
      length-append (w ++ (p.seqnum ∷ [])) (le32 p.timestamp),
      length-append (header p) (check ++ trailer z p),
      length-append (header p) check,
      length-append check (trailer z p),
    )

-- 4. to 8., behind the first byte.
pub encode_length-wrote :
    (z : Crc32) (p : Pkt) (buf : List ℕ)
    → IsValid p
    → length (encoding z p) ≤ length buf
    → encode_length z p (wrote buf (first_byte p ∷ [])) ≡ some (pkt_ok, wrote buf (encoding z p))
unfolding encode_length header
encode_length-wrote z p buf v h =
    let first : List ℕ = first_byte p ∷ [] in
    let n : ℕ = p.length in
    ground (
      arith,
      v.length_in,
      varuint_predict_len-size n,
      varuint_encode-varuint n 0 0,
      varuint_size_bounds n,
      length-varuint n,
      load-append [] (varuint n) (spare n 0) 0 (varuint_size n) refl,
      emit-wrote buf first (varuint n),
      length-encoding z p,
      encode_fields-wrote z p buf (first ++ varuint n) v.payload_fits,
    )
