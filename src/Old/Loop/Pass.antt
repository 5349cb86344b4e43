-- ===== src/Old/Loop/Pass.antt =====
-- One pass of `read_write_loop`, and the loop (old/src/read_write_loop.c).
use lingi1341_trtp_gr.Base.{
  ℕ, ◌+◌, ◌-◌, Bool, true, false, ◌&&◌, ◌||◌, Option, none, some, List, [], ◌∷◌, ◌++◌, length, take,
  replicate, ◌==◌, ltb, if◌then◌else◌,
}
use lingi1341_trtp_gr.Base.Int.{ℤ, ltb_ℤ}
use lingi1341_trtp_gr.Zlib.{Crc32}
use lingi1341_trtp_gr.Packet.{Pkt, PktStatus, pkt_ok, e_tr, e_noheader, e_unconsistent, ptype_data}
use lingi1341_trtp_gr.Receiver.State.{update, is_nat, one_more, one_less}
use lingi1341_trtp_gr.Old.Packet.{pkt_new, pkt_get_type, pkt_get_length, pkt_get_seqnum}
use lingi1341_trtp_gr.Old.Packet.Codec.{pkt_decode}
use lingi1341_trtp_gr.Old.LinkedList.{create_list, free_linked_list}
use lingi1341_trtp_gr.Old.ConnexionList.{Connexion, contains, add, remove_connexion}
use lingi1341_trtp_gr.Old.Loop.State.{
  Server, Events, Outcome, fault, returned, going, ◌>>=◌, or_fault, set_list, put_connexion, deref,
  pkt_del,
}
use lingi1341_trtp_gr.Old.Loop.Serve.{Current, place_packet}
use lingi1341_trtp_gr.Old.Loop.Reply.{send_nack, send_ack, send_last_ack}

-- `free(pkt)` for each packet of a list.
unfoldable pub free_packets : List ℕ → Server → Outcome Server
free_packets [] s = going s
free_packets (a ∷ rest) s = do s1 ← pkt_del s a; free_packets rest s1

-- The list of the connection that `removeConnexion` takes out.
unfoldable pub free_connexion : Option Connexion → Server → Outcome Server
free_connexion none s = going s
free_connexion (some c) s =
    let (_, left, freed) = free_linked_list (s.lists c.head) in
    free_packets freed (record s { lists = set_list s.lists c.head left })

-- The last acknowledgement, and the end of the connection.
unfoldable pub close_connexion : Crc32 → Events → Connexion → ℕ → Server → Outcome Server
close_connexion z sys c a s0 = do
  s ← send_last_ack z sys c.client_addr a s0
  let (_, left, gone) = remove_connexion (some s.connexions) c
  free_connexion gone (record s {
    nbre_connexion_en_cours = one_less s.nbre_connexion_en_cours;
    connexions = elim left [ none ↦ s.connexions | some list ↦ list ];
  })

-- The packet that ends a connection: data of length 0 with the last number acknowledged.
abbrev pub is_end : Pkt → ℤ → Bool
is_end p dernier_ack =
    pkt_get_type p == ptype_data && (pkt_get_length p == 0 && is_nat (pkt_get_seqnum p) dernier_ack)

-- A data packet of an open connection is placed and acknowledged.
unfoldable pub serve_packet : Crc32 → Events → ℕ → Pkt → Connexion → Server → Outcome Current
serve_packet z sys a p c s0 = do
  (d, s) ← place_packet sys a p (c, s0)
  s' ← send_ack z sys c.client_addr a s
  going (d, s')

-- The last test reads the packet once more.
unfoldable pub last_test : Crc32 → Events → ℕ → Current → Outcome Server
last_test z sys a (c, s0) = do
  let s : Server = record s0 { connexions = put_connexion c s0.connexions }
  p ← deref s a
  if pkt_get_type p == ptype_data && c.closed == 1 then close_connexion z sys c a s else going s

-- The packet at `a` was decoded.
unfoldable pub handle_packet : Crc32 → Events → Connexion → ℕ → Server → Outcome Server
handle_packet z sys c0 a s = do
  p ← deref s a
  let c : Connexion = if is_end p s.dernier_ack then record c0 { closed = 1 } else c0
  cur ←
      if pkt_get_type p == ptype_data && c.closed == 0
      then serve_packet z sys a p c s
      else going (c, s)
  last_test z sys a cur

-- `buffer_socket`, of 528 bytes: the datagram, cut to the buffer's length, and zeros.
abbrev pub buffer_of : List ℕ → List ℕ
buffer_of bytes = take 528 bytes ++ replicate (528 - length bytes) 0

-- `pkt_decode` into a packet that may be NULL.
unfoldable pub decode_recu : Crc32 → Events → List ℕ → Option Pkt → Outcome (PktStatus × Option Pkt)
decode_recu z sys bytes none =
    if ltb (length bytes) 7
    then going (e_noheader, none)
    else if ltb (length bytes) 11
    then going (e_unconsistent, none)
    else fault
decode_recu z sys bytes (some p) = do
  (code, q) ←
      or_fault (pkt_decode z sys.payload_granted (buffer_of bytes) (length (take 528 bytes)) p)
  going (code, some q)

-- The reaction to the code of `pkt_decode`; all errors but E_TR are only printed.
unfoldable pub react : Crc32 → Events → Connexion → PktStatus → Option Pkt → Server → Outcome Server
react z sys c code none s = going s
react z sys c code (some p) s0 =
    let a : ℕ = s0.store.next in
    let s : Server = record s0 {
      store = record { next = a + 1; cell = update s0.store.cell a (some p) };
    } in
    elim code [
      | pkt_ok ↦ handle_packet z sys c a s
      | e_tr ↦ send_nack z sys c.client_addr a s
      | _ ↦ going s
    ]

-- A new connection for the sender of the first datagram, when there is none; NULL ends the function.
unfoldable pub open_connexion :
    Events → Option Connexion → ℕ → Server → Outcome (Connexion × Server)
open_connexion sys (some c) client_addr s = going (c, s)
open_connexion sys none client_addr s =
    let (made, list) = add sys.opening s.connexions client_addr in
    elim made [
      | none ↦ returned s
      | some c ↦ going (
        c,
        record s {
          connexions = list;
          lists = set_list s.lists c.head (create_list sys.list_granted);
          numero_fichier = s.numero_fichier + 1;
          nbre_connexion_en_cours = one_more s.nbre_connexion_en_cours;
        },
      )
    ]

-- The datagram is read, and leaves the queue.
unfoldable pub read_datagram :
    Crc32 → Events → List ℕ → List (ℕ × List ℕ) → Connexion × Server → Outcome Server
read_datagram z sys bytes rest (c, s) =
    if sys.has_read
    then (do
      (code, recu) ← decode_recu z sys bytes (pkt_new sys.packet_granted)
      react z sys c code recu (record s { queue = rest }))
    else returned s

-- The first datagram of the queue is read when its sender has a connection or may have one.
unfoldable pub serve : Crc32 → ℤ → Events → ℕ → List ℕ → List (ℕ × List ℕ) → Server → Outcome Server
serve z nbre_connexion_max sys client_addr bytes rest s =
    let courante : Option Connexion = contains (some s.connexions) client_addr in
    let known : Bool = elim courante [ none ↦ false | some _ ↦ true ] in
    if known || ltb_ℤ s.nbre_connexion_en_cours nbre_connexion_max
    then open_connexion sys courante client_addr s >>= read_datagram z sys bytes rest
    else going s

unfoldable pub pass : Crc32 → ℤ → Events → Server → Outcome Server
pass z nbre_connexion_max sys s0 =
    let s : Server = record s0 { queue = s0.queue ++ sys.arrivals } in
    if sys.polled
    then elim s.queue [
      | [] ↦ going s
      | (client_addr, bytes) ∷ rest ↦
          if sys.peeked then serve z nbre_connexion_max sys client_addr bytes rest s else returned s
    ]
    else returned s

-- The loop, on as many passes as the system gives; it has no test of its own.
unfoldable pub read_write_loop : Crc32 → ℤ → List Events → Server → Outcome Server
read_write_loop z nbre_connexion_max [] s = going s
read_write_loop z nbre_connexion_max (sys ∷ later) s = do
  s1 ← pass z nbre_connexion_max sys s
  read_write_loop z nbre_connexion_max later s1
