-- ===== src/Old/Loop/State.antt =====
-- The state of `read_write_loop` (old/src/read_write_loop.c), what the system does in one pass of
-- the loop, and how a pass ends.
use lingi1341_trtp_gr.Base.{
  ℕ, Bool, Option, none, some, List, [], ◌∷◌, ◌++◌, take, ◌==◌, if◌then◌else◌,
}
use lingi1341_trtp_gr.Base.Int.{ℤ, pos, negsuc}
use lingi1341_trtp_gr.Base.Memory.{load}
use lingi1341_trtp_gr.Packet.{Pkt}
use lingi1341_trtp_gr.Receiver.State.{Store, update}
use lingi1341_trtp_gr.Old.Packet.{pkt_get_length, pkt_get_payload}
use lingi1341_trtp_gr.Old.LinkedList.{Node}
use lingi1341_trtp_gr.Old.ConnexionList.{Connexion, Opening}

-- The global variables; the list of connections, in which a pointer to a connection is the address
-- of its client, since no two have the same; the packets and their lists; the files; the socket's
-- queue of datagrams with their senders; and what was sent, and to whom.
pub record Server : Type 0 where
  pub taille_ack : ℕ
  pub nbre_pkt_buffer : ℕ
  pub dernier_ack : ℤ
  pub numero_fichier : ℕ
  pub nbre_connexion_en_cours : ℤ
  pub connexions : List Connexion
  pub store : Store
  pub lists : ℕ → Option (List Node)
  pub files : ℕ → List ℕ
  pub queue : List (ℕ × List ℕ)
  pub sent : List (ℕ × List ℕ)

-- The state in front of the loop, with no list of packets and no datagram yet.
abbrev pub at_start : Server
at_start = record {
  taille_ack = 11;
  nbre_pkt_buffer = 0;
  dernier_ack = negsuc 0;
  numero_fichier = 0;
  nbre_connexion_en_cours = pos 0;
  connexions = [];
  store = record { next = 0; cell = λ _. none };
  lists = λ _. none;
  files = λ _. [];
  queue = [];
  sent = [];
}

-- One pass: the datagrams that came in before it; whether each system call succeeds; and for each
-- `write`, from the first on, -1 or how many bytes it takes at most.
pub record Events : Type 0 where
  pub arrivals : List (ℕ × List ℕ)
  pub polled : Bool
  pub peeked : Bool
  pub opening : Opening
  pub list_granted : Bool
  pub has_read : Bool
  pub packet_granted : Bool
  pub payload_granted : Bool
  pub writes : ℕ → Option ℕ
  pub reply_granted : Bool
  pub buf_granted : Bool
  pub has_sent : Bool

-- A pass faults, ends the function, or goes on. `out_of_fuel` is for the loop over the list.
pub data Outcome (A : Type 0) : Type 0 where
  fault : Outcome A
  out_of_fuel : Outcome A
  returned : Server → Outcome A
  going : A → Outcome A

infixl 5 ◌>>=◌
abbrev pub ◌>>=◌ : {A B : Type 0} → Outcome A → (A → Outcome B) → Outcome B
fault >>= f = fault
out_of_fuel >>= f = out_of_fuel
returned s >>= f = returned s
going a >>= f = f a

abbrev pub or_fault : {A : Type 0} → Option A → Outcome A
or_fault none = fault
or_fault (some a) = going a

abbrev pub set_file : (ℕ → List ℕ) → ℕ → List ℕ → ℕ → List ℕ
set_file f a v b = if a == b then v else f b

abbrev pub set_list : (ℕ → Option (List Node)) → ℕ → Option (List Node) → ℕ → Option (List Node)
set_list f a v b = if a == b then v else f b

-- A write through the pointer to a connection.
abbrev pub put_connexion : Connexion → List Connexion → List Connexion
put_connexion c [] = []
put_connexion c (d ∷ rest) =
    if d.client_addr == c.client_addr then c ∷ rest else d ∷ put_connexion c rest

-- A packet behind a pointer, and the end of its life.
unfoldable pub deref : Server → ℕ → Outcome Pkt
deref s a = or_fault (s.store.cell a)

unfoldable pub pkt_del : Server → ℕ → Outcome Server
pkt_del s a = do
  p ← or_fault (s.store.cell a)
  going (record s { store = record { next = s.store.next; cell = update s.store.cell a none } })

-- `write(fd, payload, length)`: from NULL it writes nothing.
unfoldable pub write_payload : Option ℕ → ℕ → Pkt → Server → Outcome Server
write_payload none fd p s = going s
write_payload (some n) fd p s = elim (pkt_get_payload p) [
  | none ↦ going s
  | some obj ↦ do
    bytes ← or_fault (load obj 0 (pkt_get_length p))
    going (record s { files = set_file s.files fd (s.files fd ++ take n bytes) })
]
