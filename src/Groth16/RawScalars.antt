-- ===== src/Groth16/RawScalars.antt =====
-- RawFr as the scalar field of the prover.
use native.Mathlib.Nat.{mod-eq_of_lt, mod-mod, mod-lt}
use keyless_zk_proofs.Common.{
  ℕ, zero, suc, ◌+◌, ◌*◌, ◌/◌, ◌%◌, ◌<◌, ◌≡◌, refl, sym, ◌∙◌, ap, arith, List, [], ◌∷◌, ◌++◌,
  length, length-append, add-mod_congr, mul-mod_congr,
}
use keyless_zk_proofs.Mpn.{Gmp}
use keyless_zk_proofs.Mpn.Limbs.{value, word, limbs, IsLimbs, limbs-IsLimbs, value-limbs_of_lt}
use keyless_zk_proofs.BinFile.{from_le}
use keyless_zk_proofs.BinFile.Reads.{to_le, length-to_le}
use keyless_zk_proofs.Naf.Digits.{IsBytes}
use keyless_zk_proofs.Raw.{Modulus, n64, raw_mmul, raw_to_montgomery, raw_from_montgomery}
use keyless_zk_proofs.Raw.Montgomery.Forms.{
  r, Holds-mod, raw_mmul-IsForm, raw_to_montgomery-IsForm, raw_from_montgomery-Holds,
}
use keyless_zk_proofs.Group.Times.{times}
use keyless_zk_proofs.Field.Residues.{residue, residue_congr, residues}
use keyless_zk_proofs.RawField.Values.{Reduced, large, decode, form}
use keyless_zk_proofs.RawField.Instance.{raw_field}
use keyless_zk_proofs.Groth16.{ScalarField}
use keyless_zk_proofs.Groth16.Scalars.{append-IsBytes}

-- The bytes of limbs in memory.
abbrev pub image : List ℕ → List ℕ
image [] = []
image (x ∷ xs) = to_le 8 x ++ image xs

pub to_le-IsBytes : (n v : ℕ) → IsBytes (to_le n v)
unfolding to_le
to_le-IsBytes zero v = tt
to_le-IsBytes (suc n) v = (omega arith, to_le-IsBytes n (v / 256))

pub image-IsBytes : (xs : List ℕ) → IsBytes (image xs)
image-IsBytes [] = tt
image-IsBytes (x ∷ xs) =
    append-IsBytes (to_le 8 x) (image xs) (to_le-IsBytes 8 x) (image-IsBytes xs)

pub length-image : (n : ℕ) (xs : List ℕ) → IsLimbs n xs → length (image xs) ≡ n * 8
length-image zero [] h = refl
length-image zero (x ∷ xs) h = absurd h
length-image (suc n) [] h = absurd h
length-image (suc n) (x ∷ xs) h =
    length-append (to_le 8 x) (image xs) ∙ omega (arith, length-to_le 8 x, length-image n xs h.1)

from_le-word : (x : ℕ) (ys : List ℕ) → x < word → from_le (to_le 8 x ++ ys) ≡ x + word * from_le ys
unfolding from_le to_le
from_le-word x ys lt = omega (arith, lt)

pub from_le-image : (n : ℕ) (xs : List ℕ) → IsLimbs n xs → from_le (image xs) ≡ value xs
unfolding from_le value
from_le-image zero [] h = refl
from_le-image zero (x ∷ xs) h = absurd h
from_le-image (suc n) [] h = absurd h
from_le-image (suc n) (x ∷ xs) h =
    from_le-word x (image xs) h.0 ∙ ap (λ (t : ℕ). x + word * t) (from_le-image n xs h.1)

-- A multiple of the unit.
pub times-residue :
    (q : ℕ) (large : 1 < q) (n : ℕ)
    → times (residues q large).sums n (residue q large 1) ≡ residue q large n
unfolding times
times-residue q large zero = refl
times-residue q large (suc n) =
    ap ((residues q large).sums.plus (residue q large 1)) (times-residue q large n)
    ∙ residue_congr q large _ (suc n)
        (add-mod_congr _ 1 _ n q (mod-mod 1 q) (mod-mod n q) ∙ ap (λ (t : ℕ). t % q) (omega arith))

module _ (g : Gmp) (m : Modulus) (mpz_invert : ℕ → ℕ → ℕ) where
  abbrev pub to_montgomery_reduced : Reduced m → Reduced m
  to_montgomery_reduced x =
      (raw_to_montgomery g m x.0, (raw_to_montgomery-IsForm g m x.0 x.1.limbs).reduced)

  abbrev pub from_montgomery_reduced : Reduced m → Reduced m
  from_montgomery_reduced x = (
    raw_from_montgomery g m x.0,
    (raw_from_montgomery-Holds g m x.0 (decode m x.0) (form g m x)).reduced,
  )

  pub reduced_value : (v : ℕ) → value (limbs n64 (v % m.q)) ≡ v % m.q
  reduced_value v =
      let low : v % m.q < m.q = mod-lt v (omega (arith, m.q_gt)) in
      value-limbs_of_lt n64 (v % m.q) (omega (arith, low, m.q_lt))

  pub reduced_lt : (v : ℕ) → value (limbs n64 (v % m.q)) < m.q
  reduced_lt v =
      let low : v % m.q < m.q = mod-lt v (omega (arith, m.q_gt)) in
      omega (arith, low, reduced_value v)

  -- The limbs, which are reduced wherever the prover makes an element of them.
  abbrev pub limbs_reduced : List ℕ → Reduced m
  limbs_reduced xs = (
    limbs n64 (value xs % m.q),
    record { limbs = limbs-IsLimbs n64 (value xs % m.q); below = reduced_lt (value xs) },
  )

  -- The product of the numbers of two elements.
  pub product_lem :
      (x y : Reduced m)
      → value (raw_to_montgomery g m (raw_mmul g m x.0 y.0)) ≡ value x.0 * value y.0 % m.q
  product_lem x y =
      let product = raw_mmul-IsForm g m x.0 y.0 _ _ (form g m x) (form g m y) in
      let a = raw_mmul g m x.0 y.0 in
      (raw_to_montgomery-IsForm g m a product.reduced.limbs).same
      ∙ mul-mod_congr (value a) (decode m x.0 * decode m y.0 * r) r r m.q (Holds-mod m a _ product)
          refl
      ∙ ap (λ (t : ℕ). t % m.q) (regroup (decode m x.0) (decode m y.0))
      ∙ sym (
          mul-mod_congr (value x.0) (decode m x.0 * r) (value y.0) (decode m y.0 * r) m.q
            (Holds-mod m x.0 _ (form g m x)) (Holds-mod m y.0 _ (form g m y)))
    where
      regroup : (x y : ℕ) → x * y * r * r ≡ x * r * (y * r)
      regroup x y = omega arith

  abbrev pub raw_scalars : ScalarField (raw_field g m mpz_invert)
  raw_scalars = record {
    order = m.q;
    to_montgomery = to_montgomery_reduced;
    from_montgomery = from_montgomery_reduced;
    number = λ x. value x.0;
    bytes = λ x. image x.0;
    of_limbs = limbs_reduced;
    number_lt = λ x. x.1.below;
    from_value = λ x.
        times-residue m.q (large m) _
        ∙ residue_congr m.q (large m) _ (decode m x.0)
            (Holds-mod m _ _ (raw_from_montgomery-Holds g m x.0 (decode m x.0) (form g m x)));
    product_number = product_lem;
    bytes_length = λ x. length-image n64 x.0 x.1.limbs;
    bytes_IsBytes = λ x. image-IsBytes x.0;
    bytes_number = λ x. from_le-image n64 x.0 x.1.limbs;
    of_limbs_number = λ xs h lt. reduced_value (value xs) ∙ mod-eq_of_lt lt;
  }
