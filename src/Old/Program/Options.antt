-- ===== src/Old/Program/Options.antt =====
-- The loop over the earlier receiver's arguments (old/src/receiver.c).
use lingi1341_trtp_gr.Base.{
  ℕ, zero, suc, ◌+◌, ◌≤◌, ◌<◌, ◌≡◌, refl, sym, arith, Bool, Option, some, List, [], ◌∷◌, length,
  get_elem?,
}
use mathlib.Core.Path.{subst}
use lingi1341_trtp_gr.Base.Run.{Run, exit_failure, done, fault, ◌>>=◌}
use lingi1341_trtp_gr.Command.{Atoi}
use lingi1341_trtp_gr.Old.Program.{
  Found, found_o, found_m, other, Getopt, Commands, take_argument, take_found, interpret,
}

-- `getopt` keeps the number of the arguments.
abbrev pub Keeps : (ℕ → Getopt) → ℕ → Type 0
Keeps calls argc = (n : ℕ) → length (calls n).argv ≡ argc

-- The loop ends, with EXIT_FAILURE or with values for the variables.
abbrev pub Finishes : Run (Option Commands) → Type 0
Finishes (done (some c)) = Unit {0}
Finishes exit_failure = Unit {0}
Finishes _ = ⊥

get_elem?-within :
    {A : Type 0} (xs : List A) (i : ℕ) → i < length xs → (x : A) × (get_elem? xs i ≡ some x)
get_elem?-within [] i h = absurd (omega (arith, h))
get_elem?-within (x ∷ xs) zero h = (x, refl)
get_elem?-within (x ∷ xs) (suc i) h = get_elem?-within xs i (omega (arith, h))

-- A turn moves on, or ends the program.
abbrev Moves : Run (ℕ × Commands) → Type 0
Moves (done (moved, c)) = 1 ≤ moved
Moves exit_failure = Unit {0}
Moves fault = ⊥

take_argument-Moves :
    (atoi : Atoi) (granted : Bool) (text : List ℕ) (c : Commands)
    → Moves (take_argument atoi granted (some text) c >>= (λ c1. done (1, c1)))
unfolding take_argument
take_argument-Moves atoi granted text c = ground arith

take_found-Moves :
    (atoi : Atoi) (call : Getopt) (found : Found) (index : ℕ) (c : Commands)
    → index < length call.argv
    → Moves (take_found atoi call found index c)
unfolding take_found
take_found-Moves atoi call (found_o text) index c h = omega arith
take_found-Moves atoi call (found_m text) index c h = omega arith
take_found-Moves atoi call other index c h =
    let (text, at) = get_elem?-within call.argv index h in
    subst (λ a. Moves (take_argument atoi call.granted a c >>= (λ c1. done (1, c1)))) (sym at)
      (take_argument-Moves atoi call.granted text c)

Finishes-bind :
    (x : Run (ℕ × Commands)) (f : ℕ × Commands → Run (Option Commands))
    → Moves x
    → ((moved : ℕ) (c : Commands) → 1 ≤ moved → Finishes (f (moved, c)))
    → Finishes (x >>= f)
Finishes-bind fault f h next = elim h [ ]
Finishes-bind exit_failure f h next = tt
Finishes-bind (done (moved, c)) f h next = next moved c h

pub interpret-Finishes :
    (atoi : Atoi) (calls : ℕ → Getopt) (fuel n argc index : ℕ) (c : Commands)
    → Keeps calls argc
    → argc ≤ index + fuel
    → Finishes (interpret atoi calls fuel n argc index c)
unfolding interpret
interpret-Finishes atoi calls zero n argc index c keeps enough = ground (arith, enough)
interpret-Finishes atoi calls (suc fuel) n argc index c keeps enough =
    let f : ℕ × Commands → Run (Option Commands) =
      λ (moved, c1). interpret atoi calls fuel (n + 1) argc (index + moved) c1 in
    let turn : (h : index < argc)
        → Finishes (take_found atoi (calls n) (calls n).found index c >>= f) =
      λ h.
        Finishes-bind (take_found atoi (calls n) (calls n).found index c) f
          (take_found-Moves atoi (calls n) (calls n).found index c (omega (arith, h, keeps n)))
          (λ moved c1 some_way.
            interpret-Finishes atoi calls fuel (n + 1) argc (index + moved) c1 keeps
              (omega (arith, enough, some_way))) in
    ground (arith, turn)
