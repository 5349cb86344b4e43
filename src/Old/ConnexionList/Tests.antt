-- ===== src/Old/ConnexionList/Tests.antt =====
-- Lists of two connections.
use lingi1341_trtp_gr.Base.{ℕ, ◌≡◌, refl, arith, true, some, [], ◌∷◌}
use lingi1341_trtp_gr.Old.ConnexionList.{Connexion, Opening, new_connexion_node, contains, add}
use lingi1341_trtp_gr.Old.ConnexionList.Members.{contains-add}

abbrev connexion : ℕ → Connexion
connexion client_addr = record {
  client_addr = client_addr;
  fd_to_write = 4;
  closed = 0;
  taille_window = 1;
  window_min = 0;
  window_max = 0;
  head = 100;
}

abbrev opening : Opening
opening = record {
  node_granted = true;
  connexion_granted = true;
  list = 100;
  formatted = true;
  opened = true;
  fichier = some 4;
}

added : (add opening (connexion 7 ∷ []) 8).0 ≡ some (connexion 8)
unfolding add new_connexion_node
added = refl

contains-add_example :
    (contains (some (add opening (connexion 7 ∷ []) 8).1) 8 ≡ some (connexion 8))
    × (contains (some (add opening (connexion 7 ∷ []) 8).1) 7
        ≡ contains (some (connexion 7 ∷ [])) 7)
contains-add_example = contains-add opening (connexion 7 ∷ []) 8 7 (connexion 8) (omega arith) added
