-- ===== src/Field.antt =====
-- The field that f2field.cpp and curve.cpp compute over, as an interface: the operations of a class
-- such as RawFq on its elements, and their values in a commutative ring.
pub mod Laws
pub mod Residues
use keyless_zk_proofs.Common.{◌≡◌, Bool, true}
use keyless_zk_proofs.Group.{AbelianGroup}

-- A commutative ring.
pub record CommutativeRing {ℓ} (V : Type ℓ) : Type ℓ where
  pub sums : AbelianGroup V
  pub unit : V
  pub mult : V → V → V
  pub mult_assoc : (a b c : V) → mult (mult a b) c ≡ mult a (mult b c)
  pub mult_comm : (a b : V) → mult a b ≡ mult b a
  pub unit-mult : (a : V) → mult unit a ≡ a
  pub mult-plus : (a b c : V) → mult a (sums.plus b c) ≡ sums.plus (mult a b) (mult a c)

-- The operations, and their values.
pub record BaseField {ℓ κ} {V : Type ℓ} (v : CommutativeRing V) (El : Type κ) : Type (ℓ ⊔ κ) where
  pub zero_el : El
  pub one_el : El
  pub neg_one_el : El
  pub add_el : El → El → El
  pub sub_el : El → El → El
  pub neg_el : El → El
  pub mul_el : El → El → El
  pub square_el : El → El
  pub inv_el : El → El
  pub div_el : El → El → El
  pub is_zero_el : El → Bool
  pub eq_el : El → El → Bool
  pub val : El → V
  pub zero_val : val zero_el ≡ v.sums.none
  pub one_val : val one_el ≡ v.unit
  pub neg_one_val : v.sums.plus (val neg_one_el) v.unit ≡ v.sums.none
  pub add_val : (x y : El) → val (add_el x y) ≡ v.sums.plus (val x) (val y)
  pub sub_val : (x y : El) → v.sums.plus (val (sub_el x y)) (val y) ≡ val x
  pub neg_val : (x : El) → v.sums.plus (val (neg_el x)) (val x) ≡ v.sums.none
  pub mul_val : (x y : El) → val (mul_el x y) ≡ v.mult (val x) (val y)
  pub square_val : (x : El) → val (square_el x) ≡ v.mult (val x) (val x)
  pub is_zero_val : (x : El) → is_zero_el x ≡ true → val x ≡ v.sums.none
  pub eq_val : (x y : El) → eq_el x y ≡ true → val x ≡ val y
