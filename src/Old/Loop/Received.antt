-- ===== src/Old/Loop/Received.antt =====
-- A pass that receives a packet of a known sender (old/src/read_write_loop.c).
use lingi1341_trtp_gr.Base.{
  ℕ, ◌+◌, ◌≡◌, refl, arith, Bool, true, Option, some, List, ◌∷◌, ◌++◌, length, take,
}
use lingi1341_trtp_gr.Base.Int.{ℤ}
use lingi1341_trtp_gr.Zlib.{Crc32}
use lingi1341_trtp_gr.Packet.{Pkt, PktStatus, zeroed}
use lingi1341_trtp_gr.Receiver.State.{update}
use lingi1341_trtp_gr.Old.Packet.{pkt_new}
use lingi1341_trtp_gr.Old.Packet.Codec.{pkt_decode}
use lingi1341_trtp_gr.Old.ConnexionList.{Connexion, contains}
use lingi1341_trtp_gr.Old.Loop.State.{Server, Events, going}
use lingi1341_trtp_gr.Old.Loop.Pass.{
  read_datagram, decode_recu, buffer_of, open_connexion, react, serve, pass,
}

-- The state with a packet at a new address.
abbrev pub with_packet : Pkt → Server → Server
with_packet p s = record s {
  store = record { next = s.store.next + 1; cell = update s.store.cell s.store.next (some p) };
}

-- The pass reads the datagram `bytes` from the client of the connection `c`, with `rest` behind it
-- in the queue, and has memory for a packet.
pub record Reads (sys : Events) (bytes : List ℕ) (rest : List (ℕ × List ℕ)) (c : Connexion)
    (s : Server) : Type 0 where
  pub first : s.queue ++ sys.arrivals ≡ (c.client_addr, bytes) ∷ rest
  pub known : contains (some s.connexions) c.client_addr ≡ some c
  pub polled : sys.polled ≡ true
  pub peeked : sys.peeked ≡ true
  pub has_read : sys.has_read ≡ true
  pub granted : sys.packet_granted ≡ true

-- What `pkt_decode` makes of a datagram in the buffer of the loop, into a new packet.
abbrev pub decoded_as : Crc32 → Bool → List ℕ → Option (PktStatus × Pkt)
decoded_as z granted bytes = pkt_decode z granted (buffer_of bytes) (length (take 528 bytes)) zeroed

pub decode_recu_lem :
    (z : Crc32) (sys : Events) (bytes : List ℕ) (code : PktStatus) (p : Pkt)
    → decoded_as z sys.payload_granted bytes ≡ some (code, p)
    → sys.packet_granted ≡ true
    → decode_recu z sys bytes (pkt_new sys.packet_granted) ≡ going (code, some p)
unfolding decode_recu pkt_new
decode_recu_lem z sys bytes code p decoded granted = rw (granted, decode_recu) (rw (decoded) refl)

serve_known :
    (z : Crc32) (max : ℤ) (sys : Events) (bytes : List ℕ) (rest : List (ℕ × List ℕ)) (c : Connexion)
    (code : PktStatus) (p : Pkt) (s : Server)
    → contains (some s.connexions) c.client_addr ≡ some c
    → sys.has_read ≡ true
    → decode_recu z sys bytes (pkt_new sys.packet_granted) ≡ going (code, some p)
    → serve z max sys c.client_addr bytes rest s
      ≡ react z sys c code (some p) (record s { queue = rest })
unfolding serve open_connexion read_datagram
serve_known z max sys bytes rest c code p s known has_read decoded =
    ground (arith, known, has_read, decoded)

pub pass_receives :
    (z : Crc32) (max : ℤ) (sys : Events) (bytes : List ℕ) (rest : List (ℕ × List ℕ)) (c : Connexion)
    (code : PktStatus) (p : Pkt) (s : Server)
    → Reads sys bytes rest c s
    → decoded_as z sys.payload_granted bytes ≡ some (code, p)
    → pass z max sys s ≡ react z sys c code (some p) (record s { queue = rest })
unfolding pass
pass_receives z max sys bytes rest c code p s r decoded = ground (
  arith,
  r.first,
  r.polled,
  r.peeked,
  serve_known z max sys bytes rest c code p (record s { queue = (c.client_addr, bytes) ∷ rest })
      r.known r.has_read (decode_recu_lem z sys bytes code p decoded r.granted),
)
