-- ===== src/Command/Named.antt =====
-- The names of the output files (src/utils.c).
use lingi1341_trtp_gr.Base.{
  ℕ, ◌+◌, ◌≤◌, ◌<◌, ◌≡◌, arith, Bool, none, some, List, ◌∷◌, ◌++◌, length, length-append,
  length-take, take_most, Bool-cases, inl, inr, ltb, if◌then◌else◌, All, ◌≢◌,
}
use lingi1341_trtp_gr.Base.Run.{fault, done}
use lingi1341_trtp_gr.Command.{Printf, create_file}

-- What `printf` does with one `%d` between texts with no `%`: the number's digits, `digits n`, take
-- its place. A number has a digit, and two or more from 10 on.
pub record Prints (printf : Printf) (digits : ℕ → List ℕ) : Type 0 where
  pub plain : (before : List ℕ) (n : ℕ) → All (λ b. b ≢ 37) before → printf before n ≡ some before
  pub number :
      (before after : List ℕ) (n : ℕ)
      → All (λ b. b ≢ 37) before
      → All (λ b. b ≢ 37) after
      → printf (before ++ (37 ∷ 100 ∷ after)) n ≡ some (before ++ (digits n ++ after))
  pub one_digit : (n : ℕ) → n < 10 → length (digits n) ≡ 1
  pub more_digits : (n : ℕ) → 10 ≤ n → 2 ≤ length (digits n)

named :
    (printf : Printf) (opened : Bool) (format text : List ℕ) (n : ℕ)
    → printf format n ≡ some text
    → 1 ≤ length text
    → length text < length format
    → create_file printf opened format n ≡ done (n + 1, if opened then some text else none)
unfolding create_file
named printf opened format text n made some_text fits =
    ground (arith, made, take_most (length format) text (omega (arith, fits)))

overflows :
    (printf : Printf) (opened : Bool) (format text : List ℕ) (n : ℕ)
    → printf format n ≡ some text
    → length format ≤ length text
    → create_file printf opened format n ≡ fault
unfolding create_file
overflows printf opened format text n made long =
    ground (arith, made, length-take (length format) text)

-- Ten names fit. When `printf` puts the digits of a number in the place of `%d`, a format with one
-- `%d` and no other `%` goes on to the next number, and names the file by the whole text, if the
-- number has one digit; when that file cannot be opened the result is the same but for the file
-- pointer, which is NULL, and no error is seen. From 10 on the name overflows its array, and so it
-- does, whatever the number, with a format with no `%` in it.
pub create_file_names :
    (printf : Printf) (digits : ℕ → List ℕ) (opened : Bool) (before after : List ℕ) (n : ℕ)
    → Prints printf digits
    → All (λ b. b ≢ 37) before
    → All (λ b. b ≢ 37) after
    → (create_file printf opened (before ++ (37 ∷ 100 ∷ after)) n ≡ (
        if ltb n 10
        then done (n + 1, if opened then some (before ++ (digits n ++ after)) else none)
        else fault))
      × (create_file printf opened before n ≡ fault)
create_file_names printf digits opened before after n p plain_before plain_after =
    let format : List ℕ = before ++ (37 ∷ 100 ∷ after) in
    let text : List ℕ = before ++ (digits n ++ after) in
    let printed : printf format n ≡ some text = p.number before after n plain_before plain_after in
    let long : length text ≡ length before + (length (digits n) + length after) =
      omega (arith, length-append before (digits n ++ after), length-append (digits n) after) in
    let room : length format ≡ length before + (2 + length after) =
      omega (arith, length-append before (37 ∷ 100 ∷ after)) in
    (
      elim (Bool-cases (ltb n 10)) [
        | inl small ↦
            let one : length (digits n) ≡ 1 = p.one_digit n (ground (arith, small)) in
            rw (small) (
              named printf opened format text n printed (omega (arith, long, one))
                (omega (arith, long, room, one)))
        | inr large ↦
            let more : 2 ≤ length (digits n) = p.more_digits n (ground (arith, large)) in
            rw (large)
              (overflows printf opened format text n printed (omega (arith, long, room, more)))
      ],
      overflows printf opened before before n (p.plain before n plain_before) (omega arith),
    )
