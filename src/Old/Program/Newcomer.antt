-- ===== src/Old/Program/Newcomer.antt =====
-- The pass that reads the first packet of a sender (old/src/read_write_loop.c).
use lingi1341_trtp_gr.Base.{
  ℕ, ◌+◌, ◌-◌, ◌≤◌, ◌≡◌, refl, ap, ◌∙◌, arith, true, false, some, List, [], ◌∷◌, ◌++◌, length, take,
  take_most, replicate, false,
}
use lingi1341_trtp_gr.Base.Int.{ℤ, pos, negsuc, ltb_ℤ}
use lingi1341_trtp_gr.Zlib.{Crc32}
use lingi1341_trtp_gr.Packet.{Pkt, pkt_ok, zeroed}
use lingi1341_trtp_gr.Packet.Encode.Layout.{
  encoding, header_crc, length-encoding, length-encoding-le-space, space,
}
use lingi1341_trtp_gr.Packet.Varuint.RoundTrip.{varuint_size_bounds}
use lingi1341_trtp_gr.Packet.RoundTrip.Body.{decode_data}
use lingi1341_trtp_gr.Receiver.Rounds.{IsData}
use lingi1341_trtp_gr.Old.Packet.{pkt_new}
use lingi1341_trtp_gr.Old.Packet.Codec.{pkt_decode}
use lingi1341_trtp_gr.Old.Packet.Agree.{pkt_decode_agrees}
use lingi1341_trtp_gr.Old.LinkedList.{create_list}
use lingi1341_trtp_gr.Old.ConnexionList.{Connexion, contains, add, run_over, new_connexion_node}
use lingi1341_trtp_gr.Old.Loop.State.{Server, Events, fault, going, set_list}
use lingi1341_trtp_gr.Old.Loop.Pass.{
  decode_recu, react, open_connexion, read_datagram, serve, pass, is_end,
}
use lingi1341_trtp_gr.Old.Loop.Received.{with_packet, decoded_as, decode_recu_lem}
use lingi1341_trtp_gr.Old.Loop.Freed.{handle_packet_faults}

-- The packet as it is read.
abbrev read : Crc32 → Pkt → List ℕ → Pkt
read z p obj = record p { crc1 = header_crc z p; crc2 = z.crc32 (some obj) }

encoding_fits : (z : Crc32) (p : Pkt) → IsData p → length (encoding z p) ≤ 528
unfolding space
encoding_fits z p d = ground (
  arith,
  d.valid.length_in,
  length-encoding-le-space z p d.valid.payload_fits,
  varuint_size_bounds p.length,
)

decoded_data :
    (z : Crc32) (p : Pkt) (obj : List ℕ)
    → IsData p
    → p.payload ≡ some obj
    → decoded_as z true (encoding z p) ≡ some (pkt_ok, read z p obj)
decoded_data z p obj d held =
    let bytes : List ℕ = encoding z p in
    let tail : List ℕ = replicate (528 - length bytes) 0 in
    let whole : take 528 bytes ≡ bytes = take_most 528 bytes (encoding_fits z p d) in
    ap (λ l. pkt_decode z true (l ++ tail) (length l) zeroed) whole
    ∙ pkt_decode_agrees z true (bytes ++ tail) (length bytes) zeroed
    ∙ decode_data z p obj tail (length bytes) d.valid d.data_type d.whole held
        (omega (arith, length-encoding z p, varuint_size_bounds p.length))

-- A pass that reads the first datagram of a sender with no connection, when there is room for one
-- and every call that opens it succeeds.
pub record Admits (sys : Events) : Type 0 where
  pub polled : sys.polled ≡ true
  pub peeked : sys.peeked ≡ true
  pub node : sys.opening.node_granted ≡ true
  pub connexion : sys.opening.connexion_granted ≡ true
  pub formatted : sys.opening.formatted ≡ true
  pub opened : sys.opening.opened ≡ true
  pub fd : ℕ
  pub fichier : sys.opening.fichier ≡ some fd
  pub has_read : sys.has_read ≡ true
  pub packet : sys.packet_granted ≡ true
  pub payload : sys.payload_granted ≡ true
  pub buffer : sys.buf_granted ≡ true

abbrev new_one : Events → ℕ → ℕ → Connexion
new_one sys fd client_addr = record {
  client_addr = client_addr;
  fd_to_write = fd;
  closed = 0;
  taille_window = 1;
  window_min = 0;
  window_max = 0;
  head = sys.opening.list;
}

abbrev opened_state : Events → ℕ → ℕ → Server → Server
opened_state sys fd client_addr s = record s {
  connexions = new_one sys fd client_addr ∷ s.connexions;
  lists = set_list s.lists sys.opening.list (create_list sys.list_granted);
  numero_fichier = s.numero_fichier + 1;
  nbre_connexion_en_cours = pos 1;
}

serve_opens :
    (z : Crc32) (max : ℤ) (sys : Events) (client_addr : ℕ) (bytes : List ℕ)
    (rest : List (ℕ × List ℕ)) (p : Pkt) (s : Server) (o : Admits sys)
    → ltb_ℤ (pos 0) max ≡ true
    → s.connexions ≡ []
    → s.nbre_connexion_en_cours ≡ pos 0
    → decode_recu z sys bytes (pkt_new sys.packet_granted) ≡ going (pkt_ok, some p)
    → serve z max sys client_addr bytes rest s
      ≡ react z sys
          (new_one sys o.fd client_addr)
          pkt_ok
          (some p)
          (record (opened_state sys o.fd client_addr s) { queue = rest })
unfolding serve contains run_over open_connexion read_datagram add new_connexion_node
serve_opens z max sys client_addr bytes rest p s o room nobody zero_open decoded = ground (
  arith, room, nobody, zero_open, decoded, o.node, o.connexion, o.formatted, o.opened, o.fichier,
  o.has_read,
)

pub newcomer_faults :
    (z : Crc32) (max : ℤ) (sys : Events) (client_addr : ℕ) (p : Pkt) (rest : List (ℕ × List ℕ))
    (s : Server) (o : Admits sys)
    → IsData p
    → ltb_ℤ (pos 0) max ≡ true
    → s.connexions ≡ []
    → s.nbre_connexion_en_cours ≡ pos 0
    → s.dernier_ack ≡ negsuc 0
    → s.queue ++ sys.arrivals ≡ (client_addr, encoding z p) ∷ rest
    → pass z max sys s ≡ fault
unfolding pass react
newcomer_faults z max sys client_addr p rest s o d room nobody zero_open no_ack first =
    let (obj, held) = d.has_payload in
    let s0 : Server = record s { queue = (client_addr, encoding z p) ∷ rest } in
    let s1 : Server = record (opened_state sys o.fd client_addr s0) { queue = rest } in
    let decoded : decoded_as z sys.payload_granted (encoding z p) ≡ some (pkt_ok, read z p obj) =
      ap (λ b. decoded_as z b (encoding z p)) o.payload ∙ decoded_data z p obj d held in
    let other : is_end (read z p obj) s.dernier_ack ≡ false = ground (arith, no_ack) in
    ground (
      arith,
      first,
      o.polled,
      o.peeked,
      serve_opens z max sys client_addr (encoding z p) rest (read z p obj) s0 o room nobody
          zero_open (decode_recu_lem z sys (encoding z p) pkt_ok (read z p obj) decoded o.packet),
      handle_packet_faults z sys (new_one sys o.fd client_addr) s1.store.next (read z p obj)
          (with_packet (read z p obj) s1) (ground arith) d.data_type refl other o.buffer,
    )
