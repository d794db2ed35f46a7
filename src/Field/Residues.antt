-- ===== src/Field/Residues.antt =====
-- The remainders modulo a number, as a commutative ring.
use mathlib.Core.HLevel.{Σ_prop_path}
use native.Mathlib.Bridge.{le_prop}
use native.Mathlib.Nat.{
  mod-eq_of_lt, mod-lt, mod-mod, mul_comm, mul_assoc, add_comm, add_assoc, mul-add,
}
use keyless_zk_proofs.Common.{
  ℕ, suc, ◌+◌, ◌*◌, ◌%◌, ◌<◌, ◌≡◌, refl, sym, ◌∙◌, ap, arith, add-mod_congr, mul-mod_congr, neg_mod,
  neg_mod_cancel,
}
use keyless_zk_proofs.Field.{CommutativeRing}

abbrev pub Residue : ℕ → Type 0
Residue q = (n : ℕ) × (n < q)

module _ (q : ℕ) (large : 1 < q) where
  pub residue_eq : (a b : Residue q) → a.0 ≡ b.0 → a ≡ b
  residue_eq a b e = Σ_prop_path (λ (k : ℕ). le_prop {n = suc k} {m = q}) {u = a} {v = b} e

  abbrev pub residue : ℕ → Residue q
  residue n = (n % q, mod-lt n (omega (arith, large)))

  pub residue_congr : (x y : ℕ) → x % q ≡ y % q → residue x ≡ residue y
  residue_congr x y e = residue_eq (residue x) (residue y) e

  pub residue_back : (a : Residue q) → residue a.0 ≡ a
  residue_back a = residue_eq (residue a.0) a (mod-eq_of_lt a.1)

  abbrev pub residues : CommutativeRing (Residue q)
  residues = record {
    sums = record {
      none = residue 0;
      plus = λ a b. residue (a.0 + b.0);
      opposite = λ a. residue (neg_mod q a.0);
      plus_assoc = λ a b c. residue_congr _ _ (
          add-mod_congr _ (a.0 + b.0) _ c.0 q (mod-mod (a.0 + b.0) q) refl
          ∙ ap (λ (t : ℕ). t % q) (add_assoc a.0 b.0 c.0)
          ∙ add-mod_congr a.0 a.0 (b.0 + c.0) _ q refl (sym (mod-mod (b.0 + c.0) q)));
      plus_comm = λ a b. residue_congr _ _ (ap (λ (t : ℕ). t % q) (add_comm a.0 b.0));
      none-plus = λ a.
          residue_congr _ _
            (add-mod_congr _ 0 a.0 a.0 q (mod-mod 0 q) refl ∙ ap (λ (t : ℕ). t % q) (omega arith))
          ∙ residue_back a;
      opposite-plus = λ a. residue_congr _ 0 (
          add-mod_congr _ (neg_mod q a.0) a.0 a.0 q (mod-mod (neg_mod q a.0) q) refl
          ∙ ap (λ (t : ℕ). t % q) (omega arith)
          ∙ neg_mod_cancel 0 a.0 q (omega (arith, large)));
    };
    unit = residue 1;
    mult = λ a b. residue (a.0 * b.0);
    mult_assoc = λ a b c. residue_congr _ _ (
        mul-mod_congr _ (a.0 * b.0) _ c.0 q (mod-mod (a.0 * b.0) q) refl
        ∙ ap (λ (t : ℕ). t % q) (mul_assoc a.0 b.0 c.0)
        ∙ mul-mod_congr a.0 a.0 (b.0 * c.0) _ q refl (sym (mod-mod (b.0 * c.0) q)));
    mult_comm = λ a b. residue_congr _ _ (ap (λ (t : ℕ). t % q) (mul_comm a.0 b.0));
    unit-mult = λ a.
        residue_congr _ _
          (mul-mod_congr _ 1 a.0 a.0 q (mod-mod 1 q) refl ∙ ap (λ (t : ℕ). t % q) (omega arith))
        ∙ residue_back a;
    mult-plus = λ a b c. residue_congr _ _ (
        mul-mod_congr a.0 a.0 _ (b.0 + c.0) q refl (mod-mod (b.0 + c.0) q)
        ∙ ap (λ (t : ℕ). t % q) (mul-add a.0 b.0 c.0)
        ∙ sym (add-mod_congr _ (a.0 * b.0) _ (a.0 * c.0) q (mod-mod _ q) (mod-mod _ q)));
  }
