-- ===== src/Element/Residues.antt =====
-- Arithmetic on 32-bit integers, modulo q.
use native.Mathlib.Nat.{mul-le-mul}
use keyless_zk_proofs.Common.{
  ℕ, suc, ◌+◌, ◌*◌, ◌%◌, ◌^◌, ◌≤◌, ◌<◌, ◌≡◌, refl, sym, ◌∙◌, ap, arith, add-mod_congr,
  mul-mod_congr, add-mod_cancel, neg_mod, neg_mod_cancel,
}
use keyless_zk_proofs.Common.Int.{
  ℤ, pos, negsuc, pos_part, neg_part, ◌+ℤ◌, ◌-ℤ◌, ◌*ℤ◌, sub_ℕ, +ℤ_parts, -ℤ_parts, *ℤ_parts,
}
use keyless_zk_proofs.Element.Int32.{InInt32}
use keyless_zk_proofs.Element.Meaning.{IsResidue}

-- What the end of an operation on short operands asks of the exact result.
pub record IsResult (q : ℕ) (z : ℤ) (v : ℕ) : Type 0 where
  pub pos_small : pos_part z ≤ 2 ^ 32
  pub neg_small : neg_part z ≤ 2 ^ 32
  pub residue : IsResidue q z v

pub record IsProduct (q : ℕ) (z : ℤ) (v : ℕ) : Type 0 where
  pub pos_small : pos_part z ≤ 2 ^ 62
  pub neg_small : neg_part z ≤ 2 ^ 62
  pub residue : IsResidue q z v

-- The negative part `d` and the positive part `s` of a difference.
difference :
    (q : ℕ)
    → 0 < q
    → (x y nz pz nw pw d s : ℕ) → (x + nz) % q ≡ pz % q
    → (y + nw) % q ≡ pw % q
    → s + nz + pw ≡ d + pz + nw
    → (x + neg_mod q y + d) % q ≡ s % q
difference q h0 x y nz pz nw pw d s ez ew e =
    let l = x + neg_mod q y + d in
    add-mod_cancel l s (nz + pw) q h0 (
      ap (λ t. t % q) (regroup l nz pw)
      ∙ add-mod_congr (l + nz) (l + nz) pw (y + nw) q refl (sym ew)
      ∙ ap (λ t. t % q) (gather (neg_mod q y))
      ∙ add-mod_congr (x + nz + neg_mod q y + y) pz (d + nw) (d + nw) q
          (neg_mod_cancel (x + nz) y q h0 ∙ ez) refl
      ∙ ap (λ t. t % q) (omega arith))
  where
    regroup : (l n p : ℕ) → l + (n + p) ≡ l + n + p
    regroup l n p = omega arith

    gather : (c : ℕ) → x + c + d + nz + (y + nw) ≡ x + nz + c + y + (d + nw)
    gather c = omega arith

-- Likewise of a product.
product_of_parts :
    (q : ℕ)
    → 0 < q
    → (x y nz pz nw pw d s : ℕ) → (x + nz) % q ≡ pz % q
    → (y + nw) % q ≡ pw % q
    → s + (pz * nw + nz * pw) ≡ d + (pz * pw + nz * nw)
    → (x * y + d) % q ≡ s % q
product_of_parts q h0 x y nz pz nw pw d s ez ew e =
    add-mod_cancel (x * y + d) s (pz * nw + nz * pw) q h0 (
      add-mod_congr (x * y + d) (x * y + d) (pz * nw + nz * pw) ((x + nz) * nw + nz * (y + nw)) q
        refl
        (add-mod_congr (pz * nw) ((x + nz) * nw) (nz * pw) (nz * (y + nw)) q
          (mul-mod_congr pz (x + nz) nw nw q (sym ez) refl)
          (mul-mod_congr nz nz pw (y + nw) q refl (sym ew)))
      ∙ ap (λ t. t % q) expand
      ∙ add-mod_congr ((x + nz) * (y + nw)) (pz * pw) (d + nz * nw) (d + nz * nw) q
          (mul-mod_congr (x + nz) pz (y + nw) pw q ez ew) refl
      ∙ ap (λ t. t % q) (omega arith))
  where
    expand : x * y + d + ((x + nz) * nw + nz * (y + nw)) ≡ (x + nz) * (y + nw) + (d + nz * nw)
    expand = omega arith

sub_ℕ-le : (a b : ℕ) → (pos_part (sub_ℕ a b) ≤ a) × (neg_part (sub_ℕ a b) ≤ b)
sub_ℕ-le a b = ground arith

small_product : (n k : ℕ) → n ≤ 2 ^ 31 → k ≤ 2 ^ 31 → n * k ≤ 2 ^ 62
small_product n k hn hk = mul-le-mul {n₂ = 2 ^ 31} {m₂ = 2 ^ 31} hn hk

-- The two parts of a product of 32-bit integers.
*ℤ-le :
    (z w : ℤ) → InInt32 z → InInt32 w → (pos_part (z *ℤ w) ≤ 2 ^ 62) × (neg_part (z *ℤ w) ≤ 2 ^ 62)
unfolding ◌*ℤ◌
*ℤ-le (pos n) (pos k) hz hw =
    let h = small_product n k (omega arith) (omega arith) in
    omega (arith, sub_ℕ-le (n * k + 0 * 0) (n * 0 + 0 * k))
*ℤ-le (pos n) (negsuc k) hz hw =
    let h = small_product n (suc k) (omega arith) (omega arith) in
    omega (arith, sub_ℕ-le (n * 0 + 0 * suc k) (n * suc k + 0 * 0))
*ℤ-le (negsuc n) (pos k) hz hw =
    let h = small_product (suc n) k (omega arith) (omega arith) in
    omega (arith, sub_ℕ-le (0 * k + suc n * 0) (0 * 0 + suc n * k))
*ℤ-le (negsuc n) (negsuc k) hz hw =
    let h = small_product (suc n) (suc k) (omega arith) (omega arith) in
    omega (arith, sub_ℕ-le (0 * 0 + suc n * suc k) (0 * suc k + suc n * 0))

module _ (q : ℕ) (h0 : 0 < q) (z w : ℤ) (x y : ℕ) (hz : InInt32 z) (hw : InInt32 w)
    (ez : IsResidue q z x) (ew : IsResidue q w y) where
  pub +ℤ-IsResult : IsResult q (z +ℤ w) (x + y)
  unfolding ◌+ℤ◌
  +ℤ-IsResult = record {
    pos_small = ground arith;
    neg_small = ground arith;
    residue = add-mod_cancel _ _ (neg_part z + neg_part w) q h0 (
        ap (λ t. t % q) (omega arith)
        ∙ add-mod_congr (x + neg_part z) (pos_part z) _ (pos_part w + neg_part (z +ℤ w)) q ez (
            add-mod_congr (y + neg_part w) (pos_part w) (neg_part (z +ℤ w)) (neg_part (z +ℤ w)) q ew
              refl)
        ∙ ap (λ t. t % q) (omega (arith, +ℤ_parts z w)));
  }

  pub -ℤ-IsResult : IsResult q (z -ℤ w) (x + neg_mod q y)
  unfolding ◌-ℤ◌
  -ℤ-IsResult = record {
    pos_small = ground arith;
    neg_small = ground arith;
    residue =
        difference q h0 x y (neg_part z) (pos_part z) (neg_part w) (pos_part w) _ _ ez ew
          (omega (arith, -ℤ_parts z w));
  }

  pub *ℤ-IsProduct : IsProduct q (z *ℤ w) (x * y)
  *ℤ-IsProduct = record {
    pos_small = (*ℤ-le z w hz hw).0;
    neg_small = (*ℤ-le z w hz hw).1;
    residue =
        product_of_parts q h0 x y (neg_part z) (pos_part z) (neg_part w) (pos_part w) _ _ ez ew
          (*ℤ_parts z w);
  }
