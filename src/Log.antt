-- ===== src/Log.antt =====
-- `dump` of src/log.c. What is printed comes as a list of rows.
pub mod Rows
mod Tests
use lingi1341_trtp_gr.Base.{
  ℕ, zero, suc, ◌+◌, Option, none, some, List, [], ◌∷◌, get_elem?, ltb, if◌then◌else◌,
}
use lingi1341_trtp_gr.Base.Run.{Run, done, fault, ◌>>=◌, or_fault}

-- The offset, the bytes in hexadecimal, and the bytes as characters.
pub record Row : Type 0 where
  pub offset : ℕ
  pub hex : List ℕ
  pub characters : List ℕ

-- The first inner loop, with `room` turns left to 16 and at byte `k` = i + j.
unfoldable pub dump_hex : List ℕ → ℕ → ℕ → ℕ → Run (List ℕ)
dump_hex bytes len zero k = done []
dump_hex bytes len (suc room) k =
    if ltb k len
    then (do
      b ← or_fault (get_elem? bytes k)
      rest ← dump_hex bytes len room (k + 1)
      done (b ∷ rest))
    else done []

-- The second inner loop, which moves `i` on as well.
unfoldable pub dump_characters : List ℕ → ℕ → ℕ → ℕ → Run (List ℕ × ℕ)
dump_characters bytes len zero i = done ([], i)
dump_characters bytes len (suc room) i =
    if ltb i len
    then (do
      b ← or_fault (get_elem? bytes i)
      (rest, last) ← dump_characters bytes len room (i + 1)
      done (b ∷ rest, last))
    else done ([], i)

-- The loop over the rows from byte `i` on; `none` when the fuel is used up.
unfoldable pub dump_rows : List ℕ → ℕ → ℕ → ℕ → Run (Option (List Row))
dump_rows bytes len zero i = done (if ltb i len then none else some [])
dump_rows bytes len (suc fuel) i =
    if ltb i len
    then (do
      hex ← dump_hex bytes len 16 i
      (characters, next) ← dump_characters bytes len 16 i
      rows ← dump_rows bytes len fuel next
      done (elim rows [
        | none ↦ none
        | some later ↦ some (record { offset = i; hex = hex; characters = characters } ∷ later)
      ]))
    else done (some [])

unfoldable pub dump : List ℕ → ℕ → Run (Option (List Row))
dump bytes len = dump_rows bytes len len 0
