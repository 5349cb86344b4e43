-- ===== src/Old/Loop/Answer.antt =====
-- What the replies of the earlier receiver are (old/src/read_write_loop.c).
use lingi1341_trtp_gr.Base.{
  ℕ, ◌-◌, ◌/◌, ◌%◌, ◌≤◌, ◌<◌, ◌^◌, ◌≡◌, refl, ◌∙◌, arith, Bool, true, none, some, List, [], ◌∷◌,
  ◌++◌, length, take, replicate, length-take, get_elem?, take-append, drop, ◌⊎◌,
}
use lingi1341_trtp_gr.Base.Int.{ℤ}
use lingi1341_trtp_gr.Zlib.{Crc32}
use lingi1341_trtp_gr.Packet.{
  Pkt, pkt_ok, e_tr, zeroed, set_first_byte, ptype_data, ptype_ack, ptype_nack,
}
use lingi1341_trtp_gr.Packet.Valid.{IsValid}
use lingi1341_trtp_gr.Packet.Encode.Layout.{encoding, encode_result, wrote, empty_size}
use lingi1341_trtp_gr.Packet.Encode.Refine.{pkt_encode-result}
use lingi1341_trtp_gr.Receiver.State.{update}
use lingi1341_trtp_gr.Old.Packet.{
  pkt_new, pkt_set_type, pkt_set_tr, pkt_set_window, pkt_set_length, pkt_set_seqnum,
  pkt_set_timestamp,
}
use lingi1341_trtp_gr.Old.Packet.Codec.{pkt_encode, pkt_decode}
use lingi1341_trtp_gr.Old.Packet.Agree.{pkt_encode_agrees}
use lingi1341_trtp_gr.Old.ConnexionList.{Connexion}
use lingi1341_trtp_gr.Old.Loop.State.{Server, Events, going, deref, pkt_del}
use lingi1341_trtp_gr.Old.Loop.Reply.{fill_reply, send_reply, send_nack}
use lingi1341_trtp_gr.Old.Loop.Received.{Reads, decoded_as, with_packet, pass_receives}
use lingi1341_trtp_gr.Old.Loop.Pass.{buffer_of, react, pass}

-- A packet of type `type` with nothing else in it.
abbrev pub reply_packet : ℕ → ℕ → ℕ → ℕ → Pkt
reply_packet type window seqnum timestamp = record zeroed {
  window = window;
  type = type;
  seqnum = seqnum;
  timestamp = timestamp;
}

-- A reply is an acknowledgement or a NACK, and its fields fit.
pub record IsReply (type window seqnum timestamp : ℕ) : Type 0 where
  pub known : (type ≡ ptype_ack) ⊎ (type ≡ ptype_nack)
  pub window_in : window ≤ 31
  pub seqnum_in : seqnum < 256
  pub timestamp_in : timestamp < 2 ^ 32

pub fill_reply_lem :
    (type window seqnum timestamp : ℕ)
    → IsReply type window seqnum timestamp
    → fill_reply type window seqnum timestamp zeroed ≡ reply_packet type window seqnum timestamp
unfolding fill_reply pkt_set_type pkt_set_tr pkt_set_window pkt_set_length pkt_set_seqnum
    pkt_set_timestamp
fill_reply_lem type window seqnum timestamp r = ground (arith, r.known, r.window_in)

reply-IsValid :
    (type window seqnum timestamp : ℕ)
    → IsReply type window seqnum timestamp
    → IsValid (reply_packet type window seqnum timestamp)
reply-IsValid type window seqnum timestamp r = ground (arith, r.known)

reply_encodes :
    (z : Crc32) (type window seqnum timestamp : ℕ)
    → IsReply type window seqnum timestamp
    → pkt_encode z (reply_packet type window seqnum timestamp) (replicate 11 0) 11
      ≡ some
          (pkt_ok, wrote (replicate 11 0) (encoding z (reply_packet type window seqnum timestamp)))
unfolding encode_result
reply_encodes z type window seqnum timestamp r =
    let p : Pkt = reply_packet type window seqnum timestamp in
    ground (
      arith,
      r.known,
      pkt_encode_agrees z p (replicate 11 0) 11,
      pkt_encode-result z p (replicate 11 0) 11 (reply-IsValid type window seqnum timestamp r),
      empty_size z p refl refl,
    )

-- The state behind a reply: the packet at `a` is freed, and the encoding was sent.
abbrev pub answered : Crc32 → ℕ → ℕ → Pkt → Server → Server
answered z client_addr a reply s = record s {
  taille_ack = 11;
  store = record { next = s.store.next; cell = update s.store.cell a none };
  sent = s.sent ++ ((client_addr, encoding z reply) ∷ []);
}

pub send_reply_lem :
    (z : Crc32) (sys : Events) (client_addr a type window seqnum timestamp : ℕ) (p : Pkt)
    (s : Server)
    → IsReply type window seqnum timestamp
    → s.taille_ack ≡ 11
    → s.store.cell a ≡ some p
    → sys.buf_granted ≡ true
    → sys.has_sent ≡ true
    → send_reply z sys client_addr a (reply_packet type window seqnum timestamp) s
      ≡ going (answered z client_addr a (reply_packet type window seqnum timestamp) s)
unfolding send_reply pkt_del
send_reply_lem z sys client_addr a type window seqnum timestamp p s r eleven held granted sent =
    let q : Pkt = reply_packet type window seqnum timestamp in
    ground (
      arith,
      granted,
      sent,
      reply_encodes z type window seqnum timestamp r,
      take-append (length (encoding z q)) (encoding z q)
          (drop (length (encoding z q)) (replicate 11 0)) refl,
      empty_size z q refl refl,
    )

-- A truncated data packet is refused before anything but its first byte is read.
truncated_refused :
    (z : Crc32) (granted : Bool) (b len : ℕ) (dat : List ℕ)
    → get_elem? dat 0 ≡ some b
    → 11 ≤ len
    → b / 64 % 4 ≡ ptype_data
    → b / 32 % 2 ≡ 1
    → pkt_decode z granted dat len zeroed ≡ some (e_tr, set_first_byte zeroed b)
unfolding pkt_decode
truncated_refused z granted b len dat e long data_type cut = ground arith

length_cut : (bytes : List ℕ) → 11 ≤ length bytes → 11 ≤ length (take 528 bytes)
length_cut bytes h = omega (arith, length-take 528 bytes)

decode_truncated :
    (z : Crc32) (granted : Bool) (b : ℕ) (more : List ℕ)
    → 10 ≤ length more
    → b / 64 % 4 ≡ ptype_data
    → b / 32 % 2 ≡ 1
    → decoded_as z granted (b ∷ more) ≡ some (e_tr, set_first_byte zeroed b)
decode_truncated z granted b more long data_type cut =
    truncated_refused z granted b (length (take 528 (b ∷ more))) (buffer_of (b ∷ more)) refl
      (length_cut (b ∷ more) (omega (arith, long))) data_type cut

-- The NACK for a truncated packet names no packet. When a pass reads a datagram of 11 bytes or more
-- from a known sender, whose first byte says data with TR 1, at most 31 packets were counted as
-- waiting, there is memory for the NACK and for its buffer, the global that holds the length of an
-- acknowledgement is still 11, and `sendto` succeeds, it sends a NACK with sequence number 0 and timestamp 0, whatever the datagram's were,
-- since `pkt_decode` returns E_TR before it reads them. Nothing else happens but that the datagram
-- leaves the queue.
pub pass_nacks :
    (z : Crc32) (max : ℤ) (sys : Events) (b : ℕ) (more : List ℕ) (rest : List (ℕ × List ℕ))
    (c : Connexion) (s : Server)
    → Reads sys (b ∷ more) rest c s
    → 10 ≤ length more
    → b / 64 % 4 ≡ ptype_data
    → b / 32 % 2 ≡ 1
    → s.nbre_pkt_buffer ≤ 31
    → s.taille_ack ≡ 11
    → sys.reply_granted ≡ true
    → sys.buf_granted ≡ true
    → sys.has_sent ≡ true
    → pass z max sys s
      ≡ going (
          answered z c.client_addr s.store.next
            (reply_packet ptype_nack (31 - s.nbre_pkt_buffer) 0 0)
            (with_packet (set_first_byte zeroed b) (record s { queue = rest })))
unfolding react send_nack deref pkt_new
pass_nacks z max sys b more rest c s reads long data_type cut few eleven granted buf sent =
    let p : Pkt = set_first_byte zeroed b in
    let r : IsReply ptype_nack (31 - s.nbre_pkt_buffer) 0 0 = ground arith in
    pass_receives z max sys (b ∷ more) rest c e_tr p s reads
      (decode_truncated z sys.payload_granted b more long data_type cut)
    ∙ ground (
      arith,
      granted,
      fill_reply_lem ptype_nack (31 - s.nbre_pkt_buffer) 0 0 r,
      send_reply_lem z sys c.client_addr s.store.next ptype_nack (31 - s.nbre_pkt_buffer) 0 0 p
          (with_packet p (record s { queue = rest })) r eleven (ground arith) buf sent,
    )
