-- ===== src/Packet/Decode/Message.antt =====
-- `pkt_decode` on a message that starts with the header of `p` and any word `w` for its CRC.
use lingi1341_trtp_gr.Base.{
  ℕ, ◌+◌, ◌≤◌, ◌<◌, ◌^◌, ◌≡◌, ◌≢◌, refl, sym, ◌∙◌, arith, Bool, none, some, List, [], ◌∷◌, ◌++◌,
  length, drop, append_assoc, length-append, drop-append, get_elem?, get_elem?-append,
}
use lingi1341_trtp_gr.Base.Bytes.{le32, be32, of_le32-le32, of_be32-be32, length-le32, length-be32}
use lingi1341_trtp_gr.Base.Memory.{load, load-append}
use lingi1341_trtp_gr.Zlib.{Crc32}
use lingi1341_trtp_gr.Packet.{
  Pkt, first_byte, pkt_set_length, pkt_set_seqnum, pkt_set_timestamp, pkt_set_crc1, zeroed, e_crc,
}
use lingi1341_trtp_gr.Packet.Valid.{IsValid}
use lingi1341_trtp_gr.Packet.Varuint.RoundTrip.{
  spare, load-varuint, varuint, varuint_size, length-varuint, varuint_decode-varuint,
}
use lingi1341_trtp_gr.Packet.Encode.Layout.{header, header_crc, length-header}
use lingi1341_trtp_gr.Packet.Decode.{
  decode_body, decode_crc1, decode_fields, decode_length, pkt_decode,
}

module _ (p : Pkt) (w : ℕ) (rest : List ℕ) where
  -- The header, a word, and anything behind.
  abbrev pub message : List ℕ
  message = header p ++ (be32 w ++ rest)

  front : List ℕ
  front = first_byte p ∷ varuint p.length

  length-front : length front ≡ 1 + varuint_size p.length
  unfolding front
  length-front = omega (arith, length-varuint p.length)

  message-front : message ≡ front ++ (p.seqnum ∷ (le32 p.timestamp ++ (be32 w ++ rest)))
  unfolding front header
  message-front = append_assoc front (p.seqnum ∷ le32 p.timestamp) _

  message_timestamp : message ≡ (front ++ (p.seqnum ∷ [])) ++ (le32 p.timestamp ++ (be32 w ++ rest))
  message_timestamp = message-front ∙ sym (append_assoc front (p.seqnum ∷ []) _)

  -- What is read of the message.
  read_seqnum : (i : ℕ) → i ≡ 1 + varuint_size p.length → get_elem? message i ≡ some p.seqnum
  read_seqnum i e = rw message-front (get_elem?-append front _ p.seqnum i (e ∙ sym length-front))

  read_timestamp :
      (i : ℕ) → i ≡ 2 + varuint_size p.length → load message i 4 ≡ some (le32 p.timestamp)
  read_timestamp i e = rw message_timestamp (
      load-append (front ++ (p.seqnum ∷ [])) (le32 p.timestamp) _ i 4
        (omega (arith, length-append front (p.seqnum ∷ []), length-front))
        (sym (length-le32 p.timestamp)))

  read_crc1 : (i : ℕ) → i ≡ 6 + varuint_size p.length → load message i 4 ≡ some (be32 w)
  read_crc1 i e =
      load-append (header p) (be32 w) rest i 4 (e ∙ sym (length-header p)) (sym (length-be32 w))

  read_header : (i : ℕ) → i ≡ 6 + varuint_size p.length → load message 0 i ≡ some (header p)
  read_header i e = load-append [] (header p) _ 0 i refl (e ∙ sym (length-header p))

  -- What stands behind the CRC of the header.
  pub drop-message : (i : ℕ) → i ≡ 10 + varuint_size p.length → drop i message ≡ rest
  drop-message i e = rw (← append_assoc (header p) (be32 w) rest) (
      drop-append i (header p ++ be32 w) rest
        (omega (arith, length-append (header p) (be32 w), length-header p, length-be32 w)))

  -- The two bytes behind the first: the length field, and the sequence number after a short one.
  read_length : load message 1 2 ≡ some (varuint p.length ++ spare p.length p.seqnum)
  read_length = rw message-front (unfold front in load-varuint (first_byte p) p.length p.seqnum _)

  fields_read :
      (z : Crc32) (granted : Bool) (ptr : ℕ) (q : Pkt)
      → w < 2 ^ 32
      → IsValid p
      → ptr ≡ 1 + varuint_size p.length
      → decode_fields z granted message ptr p.length q
        ≡ decode_crc1 z granted message
            (ptr + 5)
            p.length
            w
            (record q { seqnum = p.seqnum; timestamp = p.timestamp; crc1 = w })
  unfolding decode_fields pkt_set_seqnum pkt_set_timestamp pkt_set_crc1
  fields_read z granted ptr q hw v e = ground (
    arith,
    v.timestamp_in,
    read_seqnum ptr e,
    read_timestamp (ptr + 1),
    read_crc1 (ptr + 5),
    of_le32-le32 p.timestamp,
    of_be32-be32 w hw,
  )

  length_read :
      (z : Crc32) (granted : Bool) (q : Pkt)
      → w < 2 ^ 32
      → IsValid p
      → decode_length z granted message q
        ≡ decode_crc1 z granted message
            (6 + varuint_size p.length)
            p.length
            w
            (record q { length = p.length; seqnum = p.seqnum; timestamp = p.timestamp; crc1 = w })
  unfolding decode_length pkt_set_length
  length_read z granted q hw v =
      let (left, decoded) = varuint_decode-varuint p.length (spare p.length p.seqnum) small in
      ground (
        arith,
        v.length_in,
        read_length,
        decoded,
        fields_read z granted (1 + varuint_size p.length) (record q { length = p.length }) hw v,
      )
    where
      small : p.length < 2 ^ 15
      small = omega (arith, v.length_in)

  -- `pkt_decode` reads the header of `p` back, and goes on with the check of its CRC.
  pub header_read :
      (z : Crc32) (granted : Bool) (len : ℕ)
      → w < 2 ^ 32
      → IsValid p
      → p.type ≢ 0
      → p.tr ≡ 0
      → 11 ≤ len
      → pkt_decode z granted message len zeroed
        ≡ decode_crc1 z granted message
            (6 + varuint_size p.length)
            p.length
            w
            (record p { crc1 = w; crc2 = 0; payload = none })
  unfolding pkt_decode
  header_read z granted len hw v known whole enough =
      let start : Pkt = record zeroed { window = p.window; tr = p.tr; type = p.type } in
      ground (arith, v.window_in, v.tr_in, v.type_in, first_read, length_read z granted start hw v)
    where
      first_read : get_elem? message 0 ≡ some (first_byte p)
      first_read = unfold header in refl

  -- Any other word than the CRC of the header is refused, before the payload is looked at.
  pub wrong_crc1 :
      (z : Crc32) (granted : Bool) (len : ℕ)
      → w < 2 ^ 32
      → w ≢ header_crc z p
      → IsValid p
      → p.type ≢ 0
      → p.tr ≡ 0
      → 11 ≤ len
      → pkt_decode z granted message len zeroed
        ≡ some (e_crc, record p { crc1 = w; crc2 = 0; payload = none })
  unfolding decode_crc1 header_crc
  wrong_crc1 z granted len hw wrong v known whole enough = ground (
    arith,
    header_read z granted len hw v known whole enough,
    read_header (6 + varuint_size p.length) refl,
  )

module _ (z : Crc32) (p : Pkt) (rest : List ℕ) where
  -- The CRC that was sent passes the check.
  pub right_crc1 :
      (granted : Bool) (len : ℕ)
      → IsValid p
      → p.type ≢ 0
      → p.tr ≡ 0
      → 11 ≤ len
      → pkt_decode z granted (message p (header_crc z p) rest) len zeroed
        ≡ decode_body z granted
            (message p (header_crc z p) rest)
            (10 + varuint_size p.length)
            p.length
            (record p { crc1 = header_crc z p; crc2 = 0; payload = none })
  unfolding decode_crc1 header_crc
  right_crc1 granted len v known whole enough = ground (
    arith,
    header_read p (header_crc z p) rest z granted len (z.crc32-lt _) v known whole enough,
    read_header p (header_crc z p) rest (6 + varuint_size p.length) refl,
  )
