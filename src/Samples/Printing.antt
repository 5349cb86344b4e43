-- ===== src/Samples/Printing.antt =====
-- A model of `atoi` and of `sprintf` for the tests.
use lingi1341_trtp_gr.Base.{
  ℕ, zero, suc, ◌+◌, ◌-◌, ◌*◌, ◌/◌, ◌%◌, ◌≤◌, ◌<◌, ◌≡◌, ◌≢◌, refl, ap, arith, ◌&&◌, some, List, [],
  ◌∷◌, ◌++◌, All, length, length-append, ltb, ◌==◌, if◌then◌else◌,
}
use lingi1341_trtp_gr.Base.Int.{pos}
use lingi1341_trtp_gr.Command.{Atoi, Printf}
use lingi1341_trtp_gr.Command.Named.{Prints}

-- The value of the digits, whatever bytes they are.
abbrev pub value_of : ℕ → List ℕ → ℕ
value_of n [] = n
value_of n (b ∷ bs) = value_of (n * 10 + (b - 48)) bs

abbrev pub to_number : Atoi
to_number text = pos (value_of 0 text)

abbrev pub decimal_from : ℕ → ℕ → List ℕ
decimal_from zero n = (48 + n % 10) ∷ []
decimal_from (suc fuel) n =
    let rest : List ℕ = decimal_from fuel (n / 10) in
    if ltb n 10 then (48 + n) ∷ [] else rest ++ ((48 + n % 10) ∷ [])

abbrev pub decimal : ℕ → List ℕ
decimal n = decimal_from n n

decimal_from-length : (fuel n : ℕ) → 1 ≤ length (decimal_from fuel n)
decimal_from-length zero n = omega arith
decimal_from-length (suc fuel) n =
    ground (arith, length-append (decimal_from fuel (n / 10)) ((48 + n % 10) ∷ []))

decimal-one : (n : ℕ) → n < 10 → length (decimal n) ≡ 1
decimal-one zero h = refl
decimal-one (suc n) h = ground (arith, h)

decimal-more : (n : ℕ) → 10 ≤ n → 2 ≤ length (decimal n)
decimal-more zero h = absurd (omega (arith, h))
decimal-more (suc n) h = ground (
  arith,
  h,
  decimal_from-length n (suc n / 10),
  length-append (decimal_from n (suc n / 10)) ((48 + suc n % 10) ∷ []),
)

-- The first `%d` is replaced.
abbrev pub expand : List ℕ → List ℕ → List ℕ
expand digits [] = []
expand digits (b ∷ []) = b ∷ []
expand digits (b ∷ c ∷ rest) =
    let later : List ℕ = expand digits (c ∷ rest) in
    if b == 37 && c == 100 then digits ++ rest else b ∷ later

expand-plain : (digits before : List ℕ) → All (λ b. b ≢ 37) before → expand digits before ≡ before
expand-plain digits [] plain = refl
expand-plain digits (b ∷ []) plain = refl
expand-plain digits (b ∷ c ∷ rest) (other, plain) =
    ground (arith, other, expand-plain digits (c ∷ rest) plain)

expand-number :
    (digits before after : List ℕ)
    → All (λ b. b ≢ 37) before
    → expand digits (before ++ (37 ∷ 100 ∷ after)) ≡ before ++ (digits ++ after)
expand-number digits [] after plain = refl
expand-number digits (b ∷ []) after (other, plain) = ground (arith, other)
expand-number digits (b ∷ c ∷ rest) after (other, plain) =
    ground (arith, other, expand-number digits (c ∷ rest) after plain)

abbrev pub print : Printf
print format n = some (expand (decimal n) format)

pub print-Prints : Prints print decimal
print-Prints = record {
  plain = λ before n plain. ap some (expand-plain (decimal n) before plain);
  number = λ before after n plain _. ap some (expand-number (decimal n) before after plain);
  one_digit = decimal-one;
  more_digits = decimal-more;
}
