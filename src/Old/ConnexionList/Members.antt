-- ===== src/Old/ConnexionList/Members.antt =====
-- Which connections are in the list (old/src/ConnexionList.c).
use lingi1341_trtp_gr.Base.{ℕ, ◌≡◌, ◌≢◌, arith, false, some, List, [], ◌∷◌, All}
use lingi1341_trtp_gr.Base.Int.{ℤ, pos, negsuc}
use lingi1341_trtp_gr.Old.ConnexionList.{
  Connexion, Opening, new_connexion_node, same_bytes, run_over, contains, add,
}

-- When `add` returns a connection, `contains` finds that one under its address, and finds what it
-- found before under every other address.
pub contains-add :
    (sys : Opening) (list : List Connexion) (client_addr other : ℕ) (c : Connexion)
    → other ≢ client_addr
    → (add sys list client_addr).0 ≡ some c
    → (contains (some (add sys list client_addr).1) client_addr ≡ some c)
      × (contains (some (add sys list client_addr).1) other ≡ contains (some list) other)
unfolding contains add run_over new_connexion_node
contains-add sys list client_addr other c different added = ground (arith, added)

-- None of the connections is the one to remove.
abbrev pub Others : Connexion → List Connexion → Type 0
Others gone list = All (λ c. same_bytes c gone ≡ false) list

-- The result when the connection is not in the list.
abbrev pub missing : List Connexion → ℤ
missing [] = negsuc 0
missing (c ∷ []) = negsuc 0
missing (c ∷ d ∷ rest) = pos 0
