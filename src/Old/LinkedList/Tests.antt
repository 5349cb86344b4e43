-- ===== src/Old/LinkedList/Tests.antt =====
-- Lists of three packets.
use lingi1341_trtp_gr.Base.{ℕ, ◌+◌, ◌≡◌, arith, true, some, [], ◌∷◌, ◌++◌, take}
use lingi1341_trtp_gr.Base.Int.{pos}
use lingi1341_trtp_gr.Old.LinkedList.{Node, insert, is_in_list}
use lingi1341_trtp_gr.Old.LinkedList.Lookup.{is_in_list-insert}
use lingi1341_trtp_gr.Old.LinkedList.Insert.{insert_loses}

abbrev at : ℕ → Node
at i = record { pkt = 100 + i; indice = i }

is_in_list-insert_example :
    (k : ℕ) × ((insert true (some (at 1 ∷ at 3 ∷ at 5 ∷ [])) 9 2).0 ≡ pos 0)
    × (is_in_list (insert true (some (at 1 ∷ at 3 ∷ at 5 ∷ [])) 9 2).1 2
        ≡ (some 9, some (take k (at 1 ∷ at 3 ∷ at 5 ∷ []))))
is_in_list-insert_example =
    is_in_list-insert (at 1 ∷ at 3 ∷ at 5 ∷ []) 9 2 (omega arith, (omega arith, (omega arith, tt)))

insert_loses_example :
    insert true (some (at 1 ∷ ([] ++ (at 3 ∷ at 5 ∷ [])))) 102 2
    ≡ (pos 0, some (at 1 ∷ ([] ++ (at 3 ∷ at 2 ∷ []))))
insert_loses_example = insert_loses (at 1) (at 3) (at 5) [] [] 102 2 (omega arith) tt (omega arith)
