-- ===== src/Old/Loop/Reply.antt =====
-- The three replies (old/src/read_write_loop.c): a NACK, an acknowledgement, and the last one of a
-- connection.
use lingi1341_trtp_gr.Base.{ℕ, ◌+◌, ◌-◌, ◌%◌, [], ◌∷◌, ◌++◌, take, replicate, if◌then◌else◌}
use lingi1341_trtp_gr.Base.Int.{ℤ, pos, negsuc}
use lingi1341_trtp_gr.Zlib.{Crc32}
use lingi1341_trtp_gr.Packet.{Pkt, ptype_ack, ptype_nack}
use lingi1341_trtp_gr.Transfer.{at_packet}
use lingi1341_trtp_gr.Old.Packet.{
  pkt_new, pkt_set_type, pkt_set_tr, pkt_set_window, pkt_set_length, pkt_set_seqnum,
  pkt_set_timestamp, pkt_get_seqnum, pkt_get_timestamp,
}
use lingi1341_trtp_gr.Old.Packet.Codec.{pkt_encode}
use lingi1341_trtp_gr.Old.Loop.State.{
  Server, Events, Outcome, returned, going, ◌>>=◌, or_fault, deref, pkt_del,
}

-- The setters, whose results are not looked at.
unfoldable pub fill_reply : ℕ → ℕ → ℕ → ℕ → Pkt → Pkt
fill_reply type window seqnum timestamp p0 =
    let p1 : Pkt = (pkt_set_type p0 type).1 in
    let p2 : Pkt = (at_packet (λ p. pkt_set_tr p 0) p1).1 in
    let p3 : Pkt = (at_packet (λ p. pkt_set_window p window) p2).1 in
    let p4 : Pkt = (pkt_set_length p3 0).1 in
    let p5 : Pkt = (pkt_set_seqnum p4 seqnum).1 in (pkt_set_timestamp p5 timestamp).1

-- `31-nbrePktBuffer` as a `uint8_t`.
abbrev pub places : ℕ → ℕ
places n = (31 + 256 - n % 256) % 256

-- The encoding into `tailleAck` bytes, whose status is only printed; then the packet received, at
-- `a`, is freed, and what is in the buffer is sent. The bytes of `malloc` are taken as zeros.
unfoldable pub send_reply : Crc32 → Events → ℕ → ℕ → Pkt → Server → Outcome Server
send_reply z sys client_addr a reply s =
    if sys.buf_granted
    then (do
      (status, o) ← or_fault (pkt_encode z reply (replicate s.taille_ack 0) s.taille_ack)
      s1 ← pkt_del (record s { taille_ack = o.len }) a
      going (
          if sys.has_sent
          then record s1 { sent = s1.sent ++ ((client_addr, take o.len o.buf) ∷ []) }
          else s1))
    else returned s

unfoldable pub send_nack : Crc32 → Events → ℕ → ℕ → Server → Outcome Server
send_nack z sys client_addr a s = do
  fresh ← or_fault (pkt_new sys.reply_granted)
  p ← deref s a
  send_reply z sys client_addr a
      (fill_reply ptype_nack (places s.nbre_pkt_buffer) (pkt_get_seqnum p) (pkt_get_timestamp p)
        fresh)
      s

unfoldable pub send_ack : Crc32 → Events → ℕ → ℕ → Server → Outcome Server
send_ack z sys client_addr a s = do
  fresh ← or_fault (pkt_new sys.reply_granted)
  p ← deref s a
  let next = (pkt_get_seqnum p + 1) % 256
  send_reply z sys client_addr a
      (fill_reply ptype_ack (places s.nbre_pkt_buffer) next (pkt_get_timestamp p) fresh)
      (record s { dernier_ack = pos next })

-- `dernierAck+1`, as a `uint8_t`.
abbrev pub after_last : ℤ → ℕ
after_last (pos n) = (n + 1) % 256
after_last (negsuc n) = (256 - n % 256) % 256

unfoldable pub send_last_ack : Crc32 → Events → ℕ → ℕ → Server → Outcome Server
send_last_ack z sys client_addr a s = do
  fresh ← or_fault (pkt_new sys.reply_granted)
  p ← deref s a
  send_reply z sys client_addr a
      (fill_reply ptype_ack 0 (after_last s.dernier_ack) (pkt_get_timestamp p) fresh) s
