-- ===== src/Old/ConnexionList.antt =====
-- The list of the connections of the earlier receiver (old/src/ConnexionList.c).
-- A list is owned by its head alone. A head that is NULL is `none`.
pub mod Members
mod Tests
use lingi1341_trtp_gr.Base.{
  ℕ, Bool, true, false, ◌&&◌, Option, none, some, List, [], ◌∷◌, ◌==◌, if◌then◌else◌,
}
use lingi1341_trtp_gr.Base.Int.{ℤ, pos, negsuc}

-- `client_addr` is the 28 bytes of the address as one number, `head` the address of the list of
-- packets.
pub record Connexion : Type 0 where
  pub client_addr : ℕ
  pub fd_to_write : ℕ
  pub closed : ℕ
  pub taille_window : ℕ
  pub window_min : ℕ
  pub window_max : ℕ
  pub head : ℕ

-- What the system does for a new node: whether there is memory for the node and the connection,
-- the list of packets, whether the name of the file was formatted, and its descriptor.
pub record Opening : Type 0 where
  pub node_granted : Bool
  pub connexion_granted : Bool
  pub list : ℕ
  pub formatted : Bool
  pub opened : Bool
  pub fichier : Option ℕ

unfoldable pub new_connexion_node : Opening → ℕ → Option Connexion
new_connexion_node sys client_addr =
    if sys.node_granted && (sys.connexion_granted && (sys.formatted && sys.opened))
    then elim sys.fichier [
      | none ↦ none
      | some fichier ↦ some (record {
        client_addr = client_addr;
        fd_to_write = fichier;
        closed = 0;
        taille_window = 1;
        window_min = 0;
        window_max = 0;
        head = sys.list;
      })
    ]
    else none

-- `memcmp` of two structures.
abbrev pub same_bytes : Connexion → Connexion → Bool
same_bytes c d =
    c.client_addr == d.client_addr
    && (c.fd_to_write == d.fd_to_write
        && (c.closed == d.closed
            && (c.taille_window == d.taille_window
                && (c.window_min == d.window_min
                    && (c.window_max == d.window_max && c.head == d.head)))))

-- The first connection with the address.
unfoldable pub run_over : ℕ → List Connexion → Option Connexion
run_over client_addr [] = none
run_over client_addr (c ∷ rest) =
    let later : Option Connexion = run_over client_addr rest in
    if c.client_addr == client_addr then some c else later

unfoldable pub contains : Option (List Connexion) → ℕ → Option Connexion
contains none client_addr = none
contains (some list) client_addr = run_over client_addr list

-- The connection added, or NULL, and the list.
unfoldable pub add : Opening → List Connexion → ℕ → Option Connexion × List Connexion
add sys list client_addr = elim (new_connexion_node sys client_addr) [
  | none ↦ (none, list)
  | some c ↦ (some c, c ∷ list)
]

-- The loop: the list from `runner` on, and the connection that was closed and freed.
unfoldable pub unlink_connexion : Connexion → List Connexion → List Connexion × Option Connexion
unlink_connexion gone [] = ([], none)
unlink_connexion gone (c ∷ rest) =
    let later : List Connexion × Option Connexion = unlink_connexion gone rest in
    if same_bytes c gone then (rest, some c) else (c ∷ later.0, later.1)

-- The result, the list, and the connection that was closed and freed.
unfoldable pub remove_connexion :
    Option (List Connexion) → Connexion → ℤ × Option (List Connexion) × Option Connexion
remove_connexion none gone = (negsuc 0, none, none)
remove_connexion (some []) gone = (negsuc 0, some [], none)
remove_connexion (some (c ∷ [])) gone =
    if same_bytes c gone then (pos 0, some [], some c) else (negsuc 0, some (c ∷ []), none)
remove_connexion (some (c ∷ d ∷ rest)) gone =
    let left : List Connexion × Option Connexion = unlink_connexion gone (d ∷ rest) in
    if same_bytes c gone
    then (pos 0, some (d ∷ rest), some c)
    else (pos 0, some (c ∷ left.0), left.1)
