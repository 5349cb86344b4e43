-- ===== src/Old/LinkedList/Lookup.antt =====
-- What `is_in_list` takes out (old/src/LinkedList.c).
use lingi1341_trtp_gr.Base.{
  ℕ, ◌+◌, ◌≡◌, ◌≢◌, refl, ap, arith, true, none, some, List, [], ◌∷◌, ◌++◌, All, ltb, length, take,
  Bool-cases, inl, inr,
}
use lingi1341_trtp_gr.Base.Int.{pos}
use lingi1341_trtp_gr.Old.LinkedList.{
  Node, nouveau_node, insert_from, place, insert, unlink, is_in_list,
}

-- No node of the list has the index.
abbrev pub Fresh : ℕ → List Node → Type 0
Fresh indice nodes = All (λ n. n.indice ≢ indice) nodes

pub unlink-Fresh : (i : ℕ) (nodes : List Node) → Fresh i nodes → unlink i nodes ≡ (none, nodes)
unfolding unlink
unlink-Fresh i [] fresh = refl
unlink-Fresh i (n ∷ rest) (other, fresh) = ground (arith, unlink-Fresh i rest fresh)

pub unlink-first :
    (n : Node) (before after : List Node)
    → Fresh n.indice before
    → unlink n.indice (before ++ (n ∷ after)) ≡ (some n.pkt, before ++ after)
unfolding unlink
unlink-first n [] after fresh = ground arith
unlink-first n (b ∷ before) after (other, fresh) = ground (arith, unlink-first n before after fresh)

-- `is_in_list` returns the packet of the first node with the index and takes out that node and no
-- other; without such a node it returns NULL and leaves the list as it is.
pub is_in_list_first :
    (n : Node) (before after : List Node) (i : ℕ)
    → Fresh n.indice before
    → Fresh i before
    → (is_in_list (some (before ++ (n ∷ after))) n.indice ≡ (some n.pkt, some (before ++ after)))
      × (is_in_list (some before) i ≡ (none, some before))
unfolding is_in_list
is_in_list_first n before after i fresh absent =
    ground (arith, unlink-first n before after fresh, unlink-Fresh i before absent)

take_all : (xs : List Node) → take (length xs) xs ≡ xs
take_all [] = refl
take_all (x ∷ xs) = ap (λ l. x ∷ l) (take_all xs)

-- After the loop of `insert`, the new index finds the new packet, and what else there was is a
-- front part of the nodes from `ptr` on.
unlink-insert_from :
    (new ptr : Node) (rest : List Node)
    → Fresh new.indice (ptr ∷ rest)
    → (k : ℕ) × (unlink new.indice (insert_from new ptr rest) ≡ (some new.pkt, take k (ptr ∷ rest)))
unfolding insert_from unlink
unlink-insert_from new ptr [] (other, fresh) = (1, ground arith)
unlink-insert_from new ptr (n ∷ rest) (other, fresh) =
    let (k, found) = unlink-insert_from new n rest fresh in
    elim (Bool-cases (ltb ptr.indice new.indice)) [
      | inl is_lt ↦ (k + 1, ground (arith, found))
      | inr is_ge ↦ (1, ground arith)
    ]

unlink-place :
    (new : Node) (nodes : List Node)
    → Fresh new.indice nodes
    → (k : ℕ) × (unlink new.indice (place new nodes) ≡ (some new.pkt, take k nodes))
unfolding place unlink
unlink-place new [] fresh = (0, ground arith)
unlink-place new (h ∷ []) (other, fresh) = (1, ground arith)
unlink-place new (h ∷ ptr ∷ rest) (other, fresh) =
    let (k, found) = unlink-insert_from new ptr rest fresh in
    elim (Bool-cases (ltb new.indice h.indice)) [
      | inl is_lt ↦ (length rest + 2, ground (arith, take_all rest))
      | inr is_ge ↦ (k + 1, ground (arith, found))
    ]

-- When there is memory, and no node has the index, `insert` succeeds, and `is_in_list` with the
-- index then returns the packet inserted; what stays in the list is a front part of what was in it
-- before.
pub is_in_list-insert :
    (nodes : List Node) (p i : ℕ)
    → Fresh i nodes
    → (k : ℕ) × ((insert true (some nodes) p i).0 ≡ pos 0)
      × (is_in_list (insert true (some nodes) p i).1 i ≡ (some p, some (take k nodes)))
unfolding insert nouveau_node is_in_list
is_in_list-insert nodes p i fresh =
    let (k, found) = unlink-place (record { pkt = p; indice = i }) nodes fresh in
    (k, refl, ground (arith, found))
