-- ===== src/Base/Leaves.antt =====
-- What a piece of the program leaves, when it goes on with a value.
use lingi1341_trtp_gr.Base.{Bool, true, false, if◌then◌else◌}
use lingi1341_trtp_gr.Base.Run.{Run, fault, exit_failure, done, ◌>>=◌}

abbrev pub Leaves : {A : Type 0} → (A → Type 0) → Run A → Type 0
Leaves P fault = Unit {0}
Leaves P exit_failure = Unit {0}
Leaves P (done a) = P a

pub Leaves-bind :
    {A B : Type 0} (P : A → Type 0) (Q : B → Type 0) (x : Run A) (f : A → Run B)
    → Leaves P x
    → ((a : A) → P a → Leaves Q (f a))
    → Leaves Q (x >>= f)
Leaves-bind P Q fault f h next = tt
Leaves-bind P Q exit_failure f h next = tt
Leaves-bind P Q (done a) f h next = next a h

pub Leaves-after :
    {A B : Type 0} (Q : B → Type 0) (x : Run A) (f : A → Run B)
    → ((a : A) → Leaves Q (f a))
    → Leaves Q (x >>= f)
Leaves-after Q fault f next = tt
Leaves-after Q exit_failure f next = tt
Leaves-after Q (done a) f next = next a

pub Leaves-if :
    {A : Type 0} (Q : A → Type 0) (b : Bool) (x y : Run A)
    → Leaves Q x
    → Leaves Q y
    → Leaves Q (if b then x else y)
Leaves-if Q true x y h h' = h
Leaves-if Q false x y h h' = h'

pub Leaves-weaken :
    {A : Type 0} (P Q : A → Type 0) (x : Run A) → Leaves P x → ((a : A) → P a → Q a) → Leaves Q x
Leaves-weaken P Q fault h imp = tt
Leaves-weaken P Q exit_failure h imp = tt
Leaves-weaken P Q (done a) h imp = imp a h
