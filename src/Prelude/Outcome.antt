-- ===== src/Prelude/Outcome.antt =====
-- The outcome of a C function that returns 0 on success and -1 on failure.
use mathlib.Core.Option.{Option, none, some}

pub data Status : Type 0 where
  ok failed : Status

-- `none` stands for an outcome that C leaves undefined.
infixl 5 ◌>>=◌
abbrev pub ◌>>=◌ {ℓ κ} : {A : Type ℓ} {B : Type κ} → Option A → (A → Option B) → Option B
none >>= f = none
some a >>= f = f a
