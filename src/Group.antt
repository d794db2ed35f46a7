-- ===== src/Group.antt =====
-- The group of points that exp.hpp and multiexp.cpp compute in, as an interface: the operations of
-- the class Curve on points and affine points, and the values in an abelian group that they
-- compute. A point may have several representations; what memset leaves is one of zero.
pub mod Times
pub mod Integers
use keyless_zk_proofs.Common.{◌≡◌, Bool, true}

-- An abelian group.
pub record AbelianGroup {ℓ} (V : Type ℓ) : Type ℓ where
  pub none : V
  pub plus : V → V → V
  pub opposite : V → V
  pub plus_assoc : (a b c : V) → plus (plus a b) c ≡ plus a (plus b c)
  pub plus_comm : (a b : V) → plus a b ≡ plus b a
  pub none-plus : (a : V) → plus none a ≡ a
  pub opposite-plus : (a : V) → plus (opposite a) a ≡ none

-- The operations, and their values.
pub record Points {ℓ κ μ} {V : Type ℓ} (v : AbelianGroup V) (Point : Type κ) (PointAffine : Type μ)
    : Type (ℓ ⊔ κ ⊔ μ) where
  pub zero_point : Point
  pub cleared : Point
  pub add_point : Point → Point → Point
  pub add_affine : Point → PointAffine → Point
  pub sub_affine : Point → PointAffine → Point
  pub dbl : Point → Point
  pub is_zero : Point → Bool
  pub is_zero_affine : PointAffine → Bool
  pub value_of : Point → V
  pub value_of_affine : PointAffine → V
  pub zero_value : value_of zero_point ≡ v.none
  pub cleared_value : value_of cleared ≡ v.none
  pub add_value : (p q : Point) → value_of (add_point p q) ≡ v.plus (value_of p) (value_of q)
  pub add_affine_value :
      (p : Point) (b : PointAffine)
      → value_of (add_affine p b) ≡ v.plus (value_of p) (value_of_affine b)
  pub sub_affine_value :
      (p : Point) (b : PointAffine)
      → v.plus (value_of (sub_affine p b)) (value_of_affine b) ≡ value_of p
  pub dbl_value : (p : Point) → value_of (dbl p) ≡ v.plus (value_of p) (value_of p)
  pub is_zero_value : (p : Point) → is_zero p ≡ true → value_of p ≡ v.none
  pub is_zero_affine_value :
      (b : PointAffine) → is_zero_affine b ≡ true → value_of_affine b ≡ v.none
