-- ===== src/Log/Rows.antt =====
-- The rows that `dump` prints (src/log.c).
use lingi1341_trtp_gr.Base.{
  ℕ, zero, suc, ◌+◌, ◌≤◌, ◌≡◌, refl, ap, sym, ◌∙◌, arith, some, List, [], ◌∷◌, ◌++◌,
  get_elem?-append, append_assoc, length-append, ◌/◌, ◌%◌, All, take-append-drop, drop_all,
  Bool-cases, inl, inr, leb, take, drop, length, length-take, length-drop,
}
use lingi1341_trtp_gr.Base.Run.{done}
use lingi1341_trtp_gr.Log.{Row, dump_hex, dump_characters, dump_rows, dump}

-- The rows of 16 bytes of a list, from offset `i` on.
abbrev pub rows_of : ℕ → ℕ → List ℕ → List Row
rows_of zero i bytes = []
rows_of (suc n) i [] = []
rows_of (suc n) i (b ∷ bytes) =
    record { offset = i; hex = take 16 (b ∷ bytes); characters = take 16 (b ∷ bytes) }
    ∷ rows_of n (i + 16) (drop 16 (b ∷ bytes))

-- The object, from byte `length pre` on.
at_next :
    (pre text behind : List ℕ) (b : ℕ)
    → (pre ++ (b ∷ [])) ++ (text ++ behind) ≡ pre ++ (b ∷ (text ++ behind))
at_next pre text behind b = append_assoc pre (b ∷ []) (text ++ behind)

dump_hex-take :
    (pre text behind : List ℕ) (len room k : ℕ)
    → k ≡ length pre
    → len ≡ k + length text
    → dump_hex (pre ++ (text ++ behind)) len room k ≡ done (take room text)
unfolding dump_hex
dump_hex-take pre text behind len zero k ek el = refl
dump_hex-take pre [] behind len (suc room) k ek el = ground (arith, el)
dump_hex-take pre (b ∷ text) behind len (suc room) k ek el =
    let later : dump_hex (pre ++ (b ∷ (text ++ behind))) len room (k + 1) ≡ done (take room text) =
      ap (λ l. dump_hex l len room (k + 1)) (sym (at_next pre text behind b))
      ∙ dump_hex-take (pre ++ (b ∷ [])) text behind len room (k + 1)
          (omega (arith, ek, length-append pre (b ∷ []))) (omega (arith, el)) in
    ground (arith, el, get_elem?-append pre (text ++ behind) b k ek, later)

dump_characters-take :
    (pre text behind : List ℕ) (len room i : ℕ)
    → i ≡ length pre
    → len ≡ i + length text
    → dump_characters (pre ++ (text ++ behind)) len room i
      ≡ done (take room text, i + length (take room text))
unfolding dump_characters
dump_characters-take pre text behind len zero i ei el = ap (λ n. done ([], n)) (omega arith)
dump_characters-take pre [] behind len (suc room) i ei el = ground (arith, el)
dump_characters-take pre (b ∷ text) behind len (suc room) i ei el =
    let later : dump_characters (pre ++ (b ∷ (text ++ behind))) len room (i + 1)
        ≡ done (take room text, i + 1 + length (take room text)) =
      ap (λ l. dump_characters l len room (i + 1)) (sym (at_next pre text behind b))
      ∙ dump_characters-take (pre ++ (b ∷ [])) text behind len room (i + 1)
          (omega (arith, ei, length-append pre (b ∷ []))) (omega (arith, el)) in
    ground (arith, el, get_elem?-append pre (text ++ behind) b i ei, later)

rows_of-nil : (n i : ℕ) → rows_of n i [] ≡ []
rows_of-nil zero i = refl
rows_of-nil (suc n) i = refl

-- The offset behind the last row is in no row.
offset_after :
    (n i : ℕ) (text : List ℕ)
    → rows_of n (i + length (take 16 text)) (drop 16 text) ≡ rows_of n (i + 16) (drop 16 text)
offset_after n i text = elim (Bool-cases (leb 16 (length text))) [
  | inl long ↦ ap (λ k. rows_of n k (drop 16 text)) (ground (arith, long, length-take 16 text))
  | inr short ↦
      let over : drop 16 text ≡ [] = drop_all 16 text (ground (arith, short)) in
      ap (rows_of n (i + length (take 16 text))) over
      ∙ rows_of-nil n (i + length (take 16 text))
      ∙ sym (ap (rows_of n (i + 16)) over ∙ rows_of-nil n (i + 16))
]

dump_rows-rows_of :
    (pre text behind : List ℕ) (len fuel i : ℕ)
    → i ≡ length pre
    → len ≡ i + length text
    → length text ≤ fuel
    → dump_rows (pre ++ (text ++ behind)) len fuel i ≡ done (some (rows_of fuel i text))
unfolding dump_rows
dump_rows-rows_of pre [] behind len zero i ei el enough = ground (arith, el)
dump_rows-rows_of pre (b ∷ text) behind len zero i ei el enough = absurd (omega (arith, enough))
dump_rows-rows_of pre [] behind len (suc fuel) i ei el enough = ground (arith, el)
dump_rows-rows_of pre (b ∷ text) behind len (suc fuel) i ei el enough =
    let whole : List ℕ = b ∷ text in
    let row : List ℕ = take 16 whole in
    let next : ℕ = i + length row in
    let moved : (pre ++ row) ++ (drop 16 whole ++ behind) ≡ pre ++ (whole ++ behind) =
      append_assoc pre row (drop 16 whole ++ behind)
      ∙ ap (λ l. pre ++ l)
          (sym (append_assoc row (drop 16 whole) behind)
            ∙ ap (λ l. l ++ behind) (take-append-drop 16 whole)) in
    let later : dump_rows (pre ++ (whole ++ behind)) len fuel next
        ≡ done (some (rows_of fuel (i + 16) (drop 16 whole))) =
      ap (λ l. dump_rows l len fuel next) (sym moved)
      ∙ dump_rows-rows_of (pre ++ row) (drop 16 whole) behind len fuel next
          (omega (arith, ei, length-append pre row))
          (omega (arith, el, length-take 16 whole, length-drop 16 whole))
          (omega (arith, enough, length-drop 16 whole))
      ∙ ap (λ l. done (some l)) (offset_after fuel i whole) in
    ground (
      arith,
      el,
      dump_hex-take pre whole behind len 16 i ei el,
      dump_characters-take pre whole behind len 16 i ei el,
      later,
    )

-- The two columns of some rows.
abbrev pub all_hex : List Row → List ℕ
all_hex [] = []
all_hex (r ∷ rows) = r.hex ++ all_hex rows

abbrev pub all_characters : List Row → List ℕ
all_characters [] = []
all_characters (r ∷ rows) = r.characters ++ all_characters rows

-- A row of at most 16 bytes, at a multiple of 16.
abbrev pub IsRow : Row → Type 0
IsRow r = (length r.hex ≤ 16) × (r.offset % 16 ≡ 0)

record IsDump (rows : List Row) (text : List ℕ) : Type 0 where
  hex_shown : all_hex rows ≡ text
  characters_shown : all_characters rows ≡ text
  are_rows : All IsRow rows
  how_many : length rows ≡ (length text + 15) / 16

rows_of-IsDump :
    (n i : ℕ) (text : List ℕ) → length text ≤ n → i % 16 ≡ 0 → IsDump (rows_of n i text) text
rows_of-IsDump zero i [] enough at = record {
  hex_shown = refl;
  characters_shown = refl;
  are_rows = tt;
  how_many = omega arith;
}
rows_of-IsDump zero i (b ∷ text) enough at = absurd (omega (arith, enough))
rows_of-IsDump (suc n) i [] enough at = record {
  hex_shown = refl;
  characters_shown = refl;
  are_rows = tt;
  how_many = omega arith;
}
rows_of-IsDump (suc n) i (b ∷ text) enough at =
    let whole : List ℕ = b ∷ text in
    let later : IsDump (rows_of n (i + 16) (drop 16 whole)) (drop 16 whole) =
      rows_of-IsDump n (i + 16) (drop 16 whole) (omega (arith, enough, length-drop 16 whole))
        (omega (arith, at)) in
    record {
      hex_shown = ap (λ l. take 16 whole ++ l) later.hex_shown ∙ take-append-drop 16 whole;
      characters_shown =
          ap (λ l. take 16 whole ++ l) later.characters_shown ∙ take-append-drop 16 whole;
      are_rows = ((omega (arith, length-take 16 whole), at), later.are_rows);
      how_many = omega (arith, later.how_many, length-drop 16 whole);
    }

-- `dump` prints each byte once in each column, and ends. For some bytes in an object, with anything
-- behind them, and their number, its fuel of one turn for each byte is enough, it reads nothing
-- behind them, and its rows, of at most 16 bytes, as many as a sixteenth of the bytes, rounded up,
-- each at an offset that is a multiple of 16, put together are the bytes, in hexadecimal and as
-- characters.
pub dump_shows :
    (text behind : List ℕ)
    → (rows : List Row) × (dump (text ++ behind) (length text) ≡ done (some rows))
      × (all_hex rows ≡ text)
      × (all_characters rows ≡ text)
      × All IsRow rows
      × (length rows ≡ (length text + 15) / 16)
unfolding dump
dump_shows text behind =
    let n : ℕ = length text in
    let d : IsDump (rows_of n 0 text) text = rows_of-IsDump n 0 text (omega arith) (omega arith) in
    (
      rows_of n 0 text,
      dump_rows-rows_of [] text behind n n 0 refl (omega arith) (omega arith),
      d.hex_shown,
      d.characters_shown,
      d.are_rows,
      d.how_many,
    )
