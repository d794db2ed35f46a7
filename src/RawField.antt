-- ===== src/RawField.antt =====
-- fq.hpp and fq.cpp: the class RawFq, whose elements are four limbs in Montgomery form. What GMP's
-- mpz_invert gives is a parameter.
pub mod Values
pub mod Instance
use keyless_zk_proofs.Common.{ℕ, suc, ◌-◌, List, Bool}
use keyless_zk_proofs.Common.Int.{ℤ, pos, negsuc}
use keyless_zk_proofs.Mpn.{Gmp}
use keyless_zk_proofs.Mpn.Limbs.{value, limbs}
use keyless_zk_proofs.Raw.{
  Modulus, n64, raw_add, raw_sub, raw_neg, raw_mmul, raw_msquare, raw_is_eq, raw_is_zero,
  raw_to_montgomery,
}

module _ (g : Gmp) (m : Modulus) where
  -- set: mpz_set_si and mpz_add, and the limbs that mpz_export writes over zeros.
  unfoldable pub set_value : ℤ → ℕ
  set_value (pos n) = n
  set_value (negsuc n) = m.q - suc n

  unfoldable pub set_element : ℤ → List ℕ
  set_element k = raw_to_montgomery g m (limbs n64 (set_value k))

  -- RawFq's zero, one and negOne.
  unfoldable pub raw_zero_element : List ℕ
  raw_zero_element = set_element (pos 0)

  unfoldable pub raw_one_element : List ℕ
  raw_one_element = set_element (pos 1)

  unfoldable pub raw_neg_one_element : List ℕ
  raw_neg_one_element = raw_neg g m raw_one_element

  -- inv.
  unfoldable pub raw_inv : (ℕ → ℕ → ℕ) → List ℕ → List ℕ
  raw_inv mpz_invert a = raw_mmul g m (limbs n64 (mpz_invert (value a) m.q)) m.raw_r3
