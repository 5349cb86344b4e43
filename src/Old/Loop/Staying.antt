-- ===== src/Old/Loop/Staying.antt =====
-- A data packet never makes `read_write_loop` return while there is memory for the acknowledgement
-- (old/src/read_write_loop.c).
use lingi1341_trtp_gr.Base.{ℕ, zero, suc, ◌+◌, ◌≡◌, arith, true, Option, none, some}
use lingi1341_trtp_gr.Zlib.{Crc32}
use lingi1341_trtp_gr.Packet.{Pkt}
use lingi1341_trtp_gr.Old.Packet.{pkt_new, pkt_get_seqnum, pkt_get_window}
use lingi1341_trtp_gr.Old.Window.{change_window}
use lingi1341_trtp_gr.Old.ConnexionList.{Connexion}
use lingi1341_trtp_gr.Old.Loop.State.{
  Server, Events, Outcome, fault, out_of_fuel, returned, going, ◌>>=◌, or_fault, deref, pkt_del,
  write_payload,
}
use lingi1341_trtp_gr.Old.Loop.Serve.{
  on_next, augmente_bornes, take_packet, flush, waiting, write_in_order, place_packet,
}
use lingi1341_trtp_gr.Old.Loop.Reply.{send_reply, send_ack}
use lingi1341_trtp_gr.Old.Loop.Pass.{serve_packet}

abbrev pub Stays : {A : Type 0} → Outcome A → Type 0
Stays (returned s) = ⊥
Stays _ = Unit {0}

pub Stays-bind :
    {A B : Type 0} (x : Outcome A) (f : A → Outcome B)
    → Stays x
    → ((a : A) → Stays (f a))
    → Stays (x >>= f)
Stays-bind fault f h next = tt
Stays-bind out_of_fuel f h next = tt
Stays-bind (returned s) f h next = elim h [ ]
Stays-bind (going a) f h next = next a

or_fault-Stays : {A : Type 0} (x : Option A) → Stays (or_fault x)
or_fault-Stays none = tt
or_fault-Stays (some a) = tt

write_payload-Stays :
    (w : Option ℕ) (fd : ℕ) (p : Pkt) (s : Server) → Stays (write_payload w fd p s)
unfolding write_payload
write_payload-Stays none fd p s = tt
write_payload-Stays (some n) fd p s = ground arith

pkt_del-Stays : (s : Server) (a : ℕ) → Stays (pkt_del s a)
unfolding pkt_del
pkt_del-Stays s a = ground arith

flush-Stays :
    (sys : Events) (fuel i : ℕ) (found : Option ℕ) (n : ℕ) (c : Connexion) (s : Server)
    → Stays (flush sys fuel i found n (c, s))
unfolding flush
flush-Stays sys zero i none n c s = tt
flush-Stays sys (suc fuel) i none n c s = tt
flush-Stays sys zero i (some a) n c s = tt
flush-Stays sys (suc fuel) i (some a) n c s =
    Stays-bind (deref s a) _ (unfold deref in or_fault-Stays (s.store.cell a)) (λ p.
      Stays-bind (write_payload (sys.writes i) c.fd_to_write p s) _
        (write_payload-Stays (sys.writes i) c.fd_to_write p s)
        (λ s1. Stays-bind (pkt_del s1 a) _ (pkt_del-Stays s1 a) (λ s2.
          let taken : Option ℕ × Server = take_packet c (n + 1) s2 in
          flush-Stays sys fuel (i + 1) taken.0 (n + 1) (on_next taken.0 c) taken.1)))

write_in_order-Stays :
    (sys : Events) (p : Pkt) (c : Connexion) (s : Server) → Stays (write_in_order sys p (c, s))
unfolding write_in_order
write_in_order-Stays sys p c s =
    Stays-bind (write_payload (sys.writes 0) c.fd_to_write p s) _
      (write_payload-Stays (sys.writes 0) c.fd_to_write p s)
      (λ s1.
        let c1 : Connexion = augmente_bornes c in
        let taken : Option ℕ × Server = take_packet c1 (pkt_get_seqnum p + 1) s1 in
        flush-Stays sys (waiting (s1.lists c1.head)) 1 taken.0 (pkt_get_seqnum p + 1) c1 taken.1)

place_packet-Stays :
    (sys : Events) (a : ℕ) (p : Pkt) (c : Connexion) (s : Server)
    → Stays (place_packet sys a p (c, s))
unfolding place_packet
place_packet-Stays sys a p c s =
    ground (arith, write_in_order-Stays sys p (change_window (pkt_get_window p) c) s)

send_reply-Stays :
    (z : Crc32) (sys : Events) (client_addr a : ℕ) (reply : Pkt) (s : Server)
    → sys.buf_granted ≡ true
    → Stays (send_reply z sys client_addr a reply s)
unfolding send_reply pkt_del
send_reply-Stays z sys client_addr a reply s granted = ground (arith, granted)

send_ack-Stays :
    (z : Crc32) (sys : Events) (client_addr a : ℕ) (s : Server)
    → sys.buf_granted ≡ true
    → Stays (send_ack z sys client_addr a s)
unfolding send_ack deref
send_ack-Stays z sys client_addr a s granted =
    Stays-bind (or_fault (pkt_new sys.reply_granted)) _ (or_fault-Stays (pkt_new sys.reply_granted))
      (λ fresh.
        Stays-bind (or_fault (s.store.cell a)) _ (or_fault-Stays (s.store.cell a))
          (λ p. send_reply-Stays z sys client_addr a _ _ granted))

pub serve_packet-Stays :
    (z : Crc32) (sys : Events) (a : ℕ) (p : Pkt) (c : Connexion) (s : Server)
    → sys.buf_granted ≡ true
    → Stays (serve_packet z sys a p c s)
unfolding serve_packet
serve_packet-Stays z sys a p c s granted =
    Stays-bind (place_packet sys a p (c, s)) _ (place_packet-Stays sys a p c s) (λ placed.
      Stays-bind (send_ack z sys c.client_addr a placed.1) _
        (send_ack-Stays z sys c.client_addr a placed.1 granted) (λ s1. tt))
