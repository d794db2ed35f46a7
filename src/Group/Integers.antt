-- ===== src/Group/Integers.antt =====
-- The integers as such a group, with themselves as their points: the laws can hold together, and
-- the model runs.
use mathlib.Core.Nat.{ℕ}
use mathlib.Core.Int.{
  ℤ, pos, negsuc, ◌+ℤ◌, ◌-ℤ◌, neg_ℤ, +ℤ_assoc, +ℤ_comm, +ℤ_idl, +ℤ_invl, -ℤ-+ℤ_cancel,
}
use keyless_zk_proofs.Common.{◌≡◌, refl, Bool, true, false}
use keyless_zk_proofs.Group.{AbelianGroup, Points}

abbrev pub integers : AbelianGroup ℤ
integers = record {
  none = pos 0;
  plus = ◌+ℤ◌;
  opposite = neg_ℤ;
  plus_assoc = +ℤ_assoc;
  plus_comm = +ℤ_comm;
  none-plus = +ℤ_idl;
  opposite-plus = +ℤ_invl;
}

abbrev pub is_nought : ℤ → Bool
is_nought (pos ℕ.zero) = true
is_nought (pos (ℕ.suc n)) = false
is_nought (negsuc n) = false

pub is_nought→eq : (k : ℤ) → is_nought k ≡ true → k ≡ pos 0
is_nought→eq (pos ℕ.zero) h = refl
is_nought→eq (pos (ℕ.suc n)) h = cc
is_nought→eq (negsuc n) h = cc

abbrev pub integer_points : Points integers ℤ ℤ
integer_points = record {
  zero_point = pos 0;
  cleared = pos 0;
  add_point = ◌+ℤ◌;
  add_affine = ◌+ℤ◌;
  sub_affine = ◌-ℤ◌;
  dbl = λ k. k +ℤ k;
  is_zero = is_nought;
  is_zero_affine = is_nought;
  value_of = λ k. k;
  value_of_affine = λ k. k;
  zero_value = refl;
  cleared_value = refl;
  add_value = λ p q. refl;
  add_affine_value = λ p b. refl;
  sub_affine_value = λ p b. -ℤ-+ℤ_cancel p b;
  dbl_value = λ p. refl;
  is_zero_value = is_nought→eq;
  is_zero_affine_value = is_nought→eq;
}
