-- ===== src/Old/Loop/Freed.antt =====
-- A data packet of an open connection, freed and read again (old/src/read_write_loop.c).
use lingi1341_trtp_gr.Base.{ℕ, ◌≡◌, refl, ◌∙◌, arith, true, false, none, some, List}
use lingi1341_trtp_gr.Base.Int.{ℤ}
use lingi1341_trtp_gr.Zlib.{Crc32}
use lingi1341_trtp_gr.Packet.{Pkt, pkt_ok, ptype_data}
use lingi1341_trtp_gr.Old.Packet.{pkt_new}
use lingi1341_trtp_gr.Old.ConnexionList.{Connexion}
use lingi1341_trtp_gr.Old.Loop.State.{
  Server, Events, Outcome, fault, out_of_fuel, returned, going, ◌>>=◌, or_fault, deref, pkt_del,
}
use lingi1341_trtp_gr.Old.Loop.Serve.{Current, place_packet}
use lingi1341_trtp_gr.Old.Loop.Reply.{send_reply, send_ack}
use lingi1341_trtp_gr.Old.Loop.Received.{Reads, decoded_as, with_packet, pass_receives}
use lingi1341_trtp_gr.Old.Loop.Ending.{Halts}
use lingi1341_trtp_gr.Old.Loop.Handling.{serve_packet-Halts}
use lingi1341_trtp_gr.Old.Loop.Staying.{Stays, serve_packet-Stays}
use lingi1341_trtp_gr.Old.Loop.Pass.{serve_packet, last_test, handle_packet, react, pass, is_end}

-- Inversion of a step that goes on.
>>=-eq-going :
    {A B : Type 0} (m : Outcome A) (f : A → Outcome B) {b : B}
    → (m >>= f) ≡ going b
    → (a : A) × (m ≡ going a) × (f a ≡ going b)
>>=-eq-going fault f h = cc
>>=-eq-going out_of_fuel f h = cc
>>=-eq-going (returned s) f h = cc
>>=-eq-going (going a) f h = (a, refl, h)

-- A reply frees the packet that it answers.
send_reply_frees :
    (z : Crc32) (sys : Events) (client_addr a : ℕ) (reply : Pkt) (s s' : Server)
    → send_reply z sys client_addr a reply s ≡ going s'
    → s'.store.cell a ≡ none
unfolding send_reply pkt_del
send_reply_frees z sys client_addr a reply s s' h = ground arith

send_ack_frees :
    (z : Crc32) (sys : Events) (client_addr a : ℕ) (s s' : Server)
    → send_ack z sys client_addr a s ≡ going s'
    → s'.store.cell a ≡ none
unfolding send_ack deref
send_ack_frees z sys client_addr a s s' h =
    let (fresh, made, h1) = >>=-eq-going (or_fault (pkt_new sys.reply_granted)) _ h in
    let (p, found, h2) = >>=-eq-going (or_fault (s.store.cell a)) _ h1 in
    send_reply_frees z sys client_addr a _ _ s' h2

serve_packet_frees :
    (z : Crc32) (sys : Events) (a : ℕ) (p : Pkt) (c : Connexion) (s0 : Server) (cur : Current)
    → serve_packet z sys a p c s0 ≡ going cur
    → cur.1.store.cell a ≡ none
unfolding serve_packet
serve_packet_frees z sys a p c s0 cur h =
    let (placed, e1, h1) = >>=-eq-going (place_packet sys a p (c, s0)) _ h in
    let (s', e2, h2) = >>=-eq-going (send_ack z sys c.client_addr a placed.1) _ h1 in
    ground (arith, h2, send_ack_frees z sys c.client_addr a placed.1 s' e2)

last_test_freed :
    (z : Crc32) (sys : Events) (a : ℕ) (cur : Current)
    → cur.1.store.cell a ≡ none
    → last_test z sys a cur ≡ fault
unfolding last_test deref
last_test_freed z sys a cur freed = ground arith

handle_packet-serves :
    (z : Crc32) (sys : Events) (c : Connexion) (a : ℕ) (p : Pkt) (s : Server)
    → s.store.cell a ≡ some p
    → p.type ≡ ptype_data
    → c.closed ≡ 0
    → is_end p s.dernier_ack ≡ false
    → handle_packet z sys c a s ≡ (serve_packet z sys a p c s >>= last_test z sys a)
unfolding handle_packet deref
handle_packet-serves z sys c a p s held t open_yet other = ground (arith, held, t, open_yet)

-- What stays, ends, and faults where it goes on, faults.
bind_faults :
    {A B : Type 0} (m : Outcome A) (f : A → Outcome B)
    → Stays m
    → Halts m
    → ((a : A) → m ≡ going a → f a ≡ fault)
    → (m >>= f) ≡ fault
bind_faults fault f stays halts next = refl
bind_faults out_of_fuel f stays halts next = elim halts [ ]
bind_faults (returned s) f stays halts next = elim stays [ ]
bind_faults (going a) f stays halts next = next a refl

pub handle_packet_faults :
    (z : Crc32) (sys : Events) (c : Connexion) (a : ℕ) (p : Pkt) (s : Server)
    → s.store.cell a ≡ some p
    → p.type ≡ ptype_data
    → c.closed ≡ 0
    → is_end p s.dernier_ack ≡ false
    → sys.buf_granted ≡ true
    → handle_packet z sys c a s ≡ fault
handle_packet_faults z sys c a p s held t open_yet other granted =
    handle_packet-serves z sys c a p s held t open_yet other
    ∙ bind_faults (serve_packet z sys a p c s) (last_test z sys a)
        (serve_packet-Stays z sys a p c s granted) (serve_packet-Halts z sys a p c s)
        (λ cur e. last_test_freed z sys a cur (serve_packet_frees z sys a p c s cur e))

-- The last test of a pass reads freed memory after every data packet. When a pass receives a packet
-- of an open connection that is data and does not end it, and there is memory for the buffer of the
-- acknowledgement, the pass faults, whatever else the system does: once the packet was placed and
-- acknowledged it is freed, and then its type is read.
pub data_packet_faults :
    (z : Crc32) (max : ℤ) (sys : Events) (bytes : List ℕ) (rest : List (ℕ × List ℕ)) (c : Connexion)
    (p : Pkt) (s : Server)
    → Reads sys bytes rest c s
    → decoded_as z sys.payload_granted bytes ≡ some (pkt_ok, p)
    → c.closed ≡ 0
    → p.type ≡ ptype_data
    → is_end p s.dernier_ack ≡ false
    → sys.buf_granted ≡ true
    → pass z max sys s ≡ fault
unfolding react
data_packet_faults z max sys bytes rest c p s received decoded open_yet t other granted =
    pass_receives z max sys bytes rest c pkt_ok p s received decoded
    ∙ handle_packet_faults z sys c s.store.next p (with_packet p (record s { queue = rest }))
        (ground arith) t open_yet other granted
