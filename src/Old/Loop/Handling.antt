-- ===== src/Old/Loop/Handling.antt =====
-- What is done with a packet ends (old/src/read_write_loop.c).
use lingi1341_trtp_gr.Base.{
  ℕ, ◌+◌, arith, ◌&&◌, Option, none, some, List, [], ◌∷◌, ◌==◌, if◌then◌else◌,
}
use lingi1341_trtp_gr.Zlib.{Crc32}
use lingi1341_trtp_gr.Packet.{Pkt, ptype_data}
use lingi1341_trtp_gr.Old.Packet.{pkt_new, pkt_get_type, pkt_get_seqnum, pkt_get_window}
use lingi1341_trtp_gr.Old.ConnexionList.{Connexion}
use lingi1341_trtp_gr.Old.Window.{change_window}
use lingi1341_trtp_gr.Old.Loop.State.{
  Server, Events, going, or_fault, put_connexion, deref, pkt_del, write_payload,
}
use lingi1341_trtp_gr.Old.Loop.Serve.{
  Current, augmente_bornes, take_packet, waiting, write_in_order, place_packet,
}
use lingi1341_trtp_gr.Old.Loop.Reply.{send_reply, send_nack, send_ack, send_last_ack}
use lingi1341_trtp_gr.Old.Loop.Pass.{
  free_packets, free_connexion, close_connexion, is_end, serve_packet, last_test, handle_packet,
}
use lingi1341_trtp_gr.Old.Loop.Ending.{
  Halts, Halts-bind, or_fault-Halts, write_payload-Ends, pkt_del-Ends, take_packet_length,
  flush-Halts,
}

write_in_order-Halts :
    (sys : Events) (p : Pkt) (c : Connexion) (s : Server) → Halts (write_in_order sys p (c, s))
unfolding write_in_order
write_in_order-Halts sys p c s =
    Halts-bind (write_payload (sys.writes 0) c.fd_to_write p s) _
      (ground (arith, write_payload-Ends (sys.writes 0) c.fd_to_write p s))
      (λ s1.
        let n : ℕ = pkt_get_seqnum p + 1 in
        let c1 : Connexion = augmente_bornes c in
        let taken : Option ℕ × Server = take_packet c1 n s1 in
        flush-Halts sys (waiting (s1.lists c1.head)) 1 taken.0 n c1 taken.1
          (omega (arith, take_packet_length c1 n s1)))

place_packet-Halts :
    (sys : Events) (a : ℕ) (p : Pkt) (c : Connexion) (s : Server)
    → Halts (place_packet sys a p (c, s))
unfolding place_packet
place_packet-Halts sys a p c s =
    ground (arith, write_in_order-Halts sys p (change_window (pkt_get_window p) c) s)

send_reply-Halts :
    (z : Crc32) (sys : Events) (client_addr a : ℕ) (reply : Pkt) (s : Server)
    → Halts (send_reply z sys client_addr a reply s)
unfolding send_reply pkt_del
send_reply-Halts z sys client_addr a reply s = ground arith

pub send_nack-Halts :
    (z : Crc32) (sys : Events) (client_addr a : ℕ) (s : Server)
    → Halts (send_nack z sys client_addr a s)
unfolding send_nack deref
send_nack-Halts z sys client_addr a s =
    Halts-bind (or_fault (pkt_new sys.reply_granted)) _ (or_fault-Halts (pkt_new sys.reply_granted))
      (λ fresh.
        Halts-bind (or_fault (s.store.cell a)) _ (or_fault-Halts (s.store.cell a))
          (λ p. send_reply-Halts z sys client_addr a _ s))

send_ack-Halts :
    (z : Crc32) (sys : Events) (client_addr a : ℕ) (s : Server)
    → Halts (send_ack z sys client_addr a s)
unfolding send_ack deref
send_ack-Halts z sys client_addr a s =
    Halts-bind (or_fault (pkt_new sys.reply_granted)) _ (or_fault-Halts (pkt_new sys.reply_granted))
      (λ fresh.
        Halts-bind (or_fault (s.store.cell a)) _ (or_fault-Halts (s.store.cell a))
          (λ p. send_reply-Halts z sys client_addr a _ _))

send_last_ack-Halts :
    (z : Crc32) (sys : Events) (client_addr a : ℕ) (s : Server)
    → Halts (send_last_ack z sys client_addr a s)
unfolding send_last_ack deref
send_last_ack-Halts z sys client_addr a s =
    Halts-bind (or_fault (pkt_new sys.reply_granted)) _ (or_fault-Halts (pkt_new sys.reply_granted))
      (λ fresh.
        Halts-bind (or_fault (s.store.cell a)) _ (or_fault-Halts (s.store.cell a))
          (λ p. send_reply-Halts z sys client_addr a _ s))

free_packets-Halts : (freed : List ℕ) (s : Server) → Halts (free_packets freed s)
unfolding free_packets
free_packets-Halts [] s = tt
free_packets-Halts (a ∷ rest) s =
    Halts-bind (pkt_del s a) _ (ground (arith, pkt_del-Ends s a)) (λ s1. free_packets-Halts rest s1)

free_connexion-Halts : (gone : Option Connexion) (s : Server) → Halts (free_connexion gone s)
unfolding free_connexion
free_connexion-Halts none s = tt
free_connexion-Halts (some c) s = free_packets-Halts _ _

close_connexion-Halts :
    (z : Crc32) (sys : Events) (c : Connexion) (a : ℕ) (s : Server)
    → Halts (close_connexion z sys c a s)
unfolding close_connexion
close_connexion-Halts z sys c a s =
    Halts-bind (send_last_ack z sys c.client_addr a s) _
      (send_last_ack-Halts z sys c.client_addr a s) (λ s1. free_connexion-Halts _ _)

pub serve_packet-Halts :
    (z : Crc32) (sys : Events) (a : ℕ) (p : Pkt) (c : Connexion) (s : Server)
    → Halts (serve_packet z sys a p c s)
unfolding serve_packet
serve_packet-Halts z sys a p c s =
    Halts-bind (place_packet sys a p (c, s)) _ (place_packet-Halts sys a p c s) (λ placed.
      Halts-bind (send_ack z sys c.client_addr a placed.1) _
        (send_ack-Halts z sys c.client_addr a placed.1) (λ s1. tt))

last_test-Halts : (z : Crc32) (sys : Events) (a : ℕ) (cur : Current) → Halts (last_test z sys a cur)
unfolding last_test deref
last_test-Halts z sys a (c, s) =
    Halts-bind (or_fault (s.store.cell a)) _ (or_fault-Halts (s.store.cell a)) (λ p. ground (
      arith,
      close_connexion-Halts z sys c a (record s { connexions = put_connexion c s.connexions }),
    ))

pub handle_packet-Halts :
    (z : Crc32) (sys : Events) (c : Connexion) (a : ℕ) (s : Server)
    → Halts (handle_packet z sys c a s)
unfolding handle_packet deref
handle_packet-Halts z sys c a s =
    Halts-bind (or_fault (s.store.cell a)) _ (or_fault-Halts (s.store.cell a)) (λ p.
      let d : Connexion = if is_end p s.dernier_ack then record c { closed = 1 } else c in
      Halts-bind
        (if pkt_get_type p == ptype_data && d.closed == 0
          then serve_packet z sys a p d s
          else going (d, s))
        (last_test z sys a) (ground (arith, serve_packet-Halts z sys a p d s))
        (λ cur. last_test-Halts z sys a cur))
