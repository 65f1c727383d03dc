-- ===== src/Base/Result.antt =====
-- What a C++ call does: it returns, ends the process by `exit_fail`, throws, or its behaviour is
-- undefined.
use mathlib.Core.Bool.{Bool, true, false}

pub data Outcome {ℓ} (A : Type ℓ) : Type ℓ where
  ok : A → Outcome A
  exit_fail : Outcome A
  undefined : Outcome A

infixl 5 ◌>>=◌ ◌>>◌
abbrev pub ◌>>=◌ {ℓ κ} : {A : Type ℓ} {B : Type κ} → Outcome A → (A → Outcome B) → Outcome B
ok a >>= f = f a
exit_fail >>= f = exit_fail
undefined >>= f = undefined

abbrev pub ◌>>◌ {ℓ} : {B : Type ℓ} → Outcome (Unit {0}) → Outcome B → Outcome B
m >> k = m >>= λ _. k

-- `if (!b) { err(...); exit_fail(); }`
abbrev pub require : Bool → Outcome (Unit {0})
require true = ok tt
require false = exit_fail

-- An operation that the language leaves undefined unless `b`.
abbrev pub assuming : Bool → Outcome (Unit {0})
assuming true = ok tt
assuming false = undefined
