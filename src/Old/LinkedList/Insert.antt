-- ===== src/Old/LinkedList/Insert.antt =====
-- Where `insert` puts a node (old/src/LinkedList.c).
use lingi1341_trtp_gr.Base.{ℕ, ◌≤◌, ◌<◌, ◌≡◌, arith, true, some, List, [], ◌∷◌, ◌++◌, All}
use lingi1341_trtp_gr.Base.Int.{pos}
use lingi1341_trtp_gr.Old.LinkedList.{Node, nouveau_node, insert_from, place, insert}

-- The new index is beyond all of these.
abbrev pub Below : ℕ → List Node → Type 0
Below indice nodes = All (λ n. n.indice < indice) nodes

-- The loop from the front of a list on.
abbrev scan : Node → List Node → List Node
scan new [] = new ∷ []
scan new (ptr ∷ rest) = insert_from new ptr rest

scan-inside :
    (new ptr n : Node) (before rest : List Node)
    → Below new.indice before
    → new.indice ≤ ptr.indice
    → scan new (before ++ (ptr ∷ n ∷ rest)) ≡ before ++ (ptr ∷ new ∷ [])
unfolding insert_from
scan-inside new ptr n [] rest below le = ground arith
scan-inside new ptr n (b ∷ []) rest below le = ground arith
scan-inside new ptr n (b ∷ b1 ∷ before) rest (lt, below) le =
    ground (arith, scan-inside new ptr n (b1 ∷ before) rest below le)

scan-last :
    (new last : Node) (before : List Node)
    → Below new.indice before
    → scan new (before ++ (last ∷ [])) ≡ before ++ (new ∷ last ∷ [])
unfolding insert_from
scan-last new last [] below = ground arith
scan-last new last (b ∷ []) below = ground arith
scan-last new last (b ∷ b1 ∷ before) (lt, below) =
    ground (arith, scan-last new last (b1 ∷ before) below)

place-scan :
    (new h ptr : Node) (rest : List Node)
    → h.indice ≤ new.indice
    → place new (h ∷ ptr ∷ rest) ≡ h ∷ scan new (ptr ∷ rest)
unfolding place
place-scan new h ptr rest le = ground arith

-- Into the middle of a list `insert` loses packets. When the new index is not below the head's, and
-- the first node behind the head whose index is not smaller has others behind it, the new node
-- comes behind that node, where it is out of order, and all the others are lost; `insert` returns 0.
pub insert_loses :
    (h ptr n : Node) (before rest : List Node) (p i : ℕ)
    → h.indice ≤ i
    → Below i before
    → i ≤ ptr.indice
    → insert true (some (h ∷ (before ++ (ptr ∷ n ∷ rest)))) p i
      ≡ (pos 0, some (h ∷ (before ++ (ptr ∷ record { pkt = p; indice = i } ∷ []))))
unfolding insert nouveau_node
insert_loses h ptr n [] rest p i lo below hi = ground (
  arith,
  place-scan (record { pkt = p; indice = i }) h ptr (n ∷ rest) lo,
  scan-inside (record { pkt = p; indice = i }) ptr n [] rest below hi,
)
insert_loses h ptr n (b ∷ before) rest p i lo below hi = ground (
  arith,
  place-scan (record { pkt = p; indice = i }) h b (before ++ (ptr ∷ n ∷ rest)) lo,
  scan-inside (record { pkt = p; indice = i }) ptr n (b ∷ before) rest below hi,
)

-- At the end of a list of two nodes or more `insert` is out of order. When the new index is not
-- below the head's and beyond those of all the nodes between the head and the last, the new node
-- comes in front of the last one, even when the last one's index is the smaller.
pub insert_before_last :
    (h last : Node) (before : List Node) (p i : ℕ)
    → h.indice ≤ i
    → Below i before
    → insert true (some (h ∷ (before ++ (last ∷ [])))) p i
      ≡ (pos 0, some (h ∷ (before ++ (record { pkt = p; indice = i } ∷ last ∷ []))))
unfolding insert nouveau_node
insert_before_last h last [] p i lo below = ground (
  arith,
  place-scan (record { pkt = p; indice = i }) h last [] lo,
  scan-last (record { pkt = p; indice = i }) last [] below,
)
insert_before_last h last (b ∷ before) p i lo below = ground (
  arith,
  place-scan (record { pkt = p; indice = i }) h b (before ++ (last ∷ [])) lo,
  scan-last (record { pkt = p; indice = i }) last (b ∷ before) below,
)
