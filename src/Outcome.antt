-- ===== src/Outcome.antt =====
-- How a call of the C++ code may end: with a result, an exception, a failed assertion, or an
-- access outside the memory that is its own, which C++ leaves undefined.
use keyless_zk_proofs.Common.{Bool, true, false}

pub data Exception : Type 0 where
  invalid_argument range_error system_error : Exception

pub data Outcome {ℓ} (A : Type ℓ) : Type ℓ where
  ok : A → Outcome A
  throws : Exception → Outcome A
  aborts : Outcome A
  reads_outside : Outcome A

infixl 5 ◌>>=◌ ◌>>◌
abbrev pub ◌>>=◌ {ℓ κ} : {A : Type ℓ} {B : Type κ} → Outcome A → (A → Outcome B) → Outcome B
ok a >>= f = f a
throws e >>= f = throws e
aborts >>= f = aborts
reads_outside >>= f = reads_outside

abbrev pub ◌>>◌ {ℓ κ} : {A : Type ℓ} {B : Type κ} → Outcome A → Outcome B → Outcome B
m >> k = m >>= λ _. k

abbrev pub assert : Bool → Outcome (Unit {0})
assert true = ok tt
assert false = aborts
