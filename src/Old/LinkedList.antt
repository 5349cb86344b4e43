-- ===== src/Old/LinkedList.antt =====
-- The sorted list of packets that wait for earlier ones (old/src/LinkedList.c).
-- A list is owned by its head alone, so that a node with what follows it is a list; a packet is the
-- address that the list holds and never follows. A head that is NULL is `none`.
pub mod Insert
pub mod Lookup
mod Tests
use lingi1341_trtp_gr.Base.{
  ℕ, Bool, true, false, Option, none, some, List, [], ◌∷◌, map, ltb, ◌==◌, if◌then◌else◌,
}
use lingi1341_trtp_gr.Base.Int.{ℤ, pos, negsuc}

pub record Node : Type 0 where
  pub pkt : ℕ
  pub indice : ℕ

-- `granted` is whether `malloc` has memory, here and below.
unfoldable pub create_list : Bool → Option (List Node)
create_list granted = if granted then some [] else none

unfoldable pub nouveau_node : Bool → ℕ → ℕ → Option Node
nouveau_node granted pkt indice =
    if granted then some (record { pkt = pkt; indice = indice }) else none

-- The loop with `ptr` and `previous`, and what follows it: the list from `ptr` on. It stops at the
-- last node or at an index that is not smaller; the new node goes in front of the last node, or
-- else behind `ptr`, with nothing behind it.
unfoldable pub insert_from : Node → Node → List Node → List Node
insert_from new ptr [] = new ∷ ptr ∷ []
insert_from new ptr (n ∷ rest) =
    let later : List Node = insert_from new n rest in
    if ltb ptr.indice new.indice then ptr ∷ later else ptr ∷ new ∷ []

-- Lists of no node, of one, and of more.
unfoldable pub place : Node → List Node → List Node
place new [] = new ∷ []
place new (h ∷ []) = if ltb h.indice new.indice then h ∷ new ∷ [] else new ∷ h ∷ []
place new (h ∷ ptr ∷ rest) =
    if ltb new.indice h.indice then new ∷ h ∷ ptr ∷ rest else h ∷ insert_from new ptr rest

unfoldable pub insert : Bool → Option (List Node) → ℕ → ℕ → ℤ × Option (List Node)
insert granted none newpkt new_indice = (negsuc 0, none)
insert granted (some nodes) newpkt new_indice = elim (nouveau_node granted newpkt new_indice) [
  | none ↦ (negsuc 0, some nodes)
  | some new ↦ (pos 0, some (place new nodes))
]

-- The first node with the index is unlinked.
unfoldable pub unlink : ℕ → List Node → Option ℕ × List Node
unlink indice [] = (none, [])
unlink indice (n ∷ rest) =
    let later : Option ℕ × List Node = unlink indice rest in
    if n.indice == indice then (some n.pkt, rest) else (later.0, n ∷ later.1)

unfoldable pub is_in_list : Option (List Node) → ℕ → Option ℕ × Option (List Node)
is_in_list none indice = (none, none)
is_in_list (some nodes) indice =
    let found : Option ℕ × List Node = unlink indice nodes in (found.0, some found.1)

-- The result, the list, and the packets that are freed.
unfoldable pub free_linked_list : Option (List Node) → ℤ × Option (List Node) × List ℕ
free_linked_list none = (negsuc 0, none, [])
free_linked_list (some nodes) = (pos 0, some [], map (λ n. n.pkt) nodes)
