-- ===== src/Base/Run.antt =====
-- How a piece of the program ends: in an access that C leaves undefined, in `error` (which prints
-- and calls `exit(EXIT_FAILURE)`, src/utils.c), or by going on with a value.
use lingi1341_trtp_gr.Base.{Option, none, some}

pub data Run {ℓ} (A : Type ℓ) : Type ℓ where
  fault : Run A
  exit_failure : Run A
  done : A → Run A

infixl 5 ◌>>=◌
abbrev pub ◌>>=◌ {ℓ κ} : {A : Type ℓ} {B : Type κ} → Run A → (A → Run B) → Run B
fault >>= f = fault
exit_failure >>= f = exit_failure
done a >>= f = f a

abbrev pub or_fault {ℓ} : {A : Type ℓ} → Option A → Run A
or_fault none = fault
or_fault (some a) = done a

-- A null result on which the caller calls `error`.
abbrev pub or_exit {ℓ} : {A : Type ℓ} → Option A → Run A
or_exit none = exit_failure
or_exit (some a) = done a
