-- ===== src/Groth16.antt =====
-- groth16.cpp and groth16.hpp: the prover, over the fields, groups, Fourier transform and
-- multi-exponentiation that it is put together from. The parts that run at the same time share
-- nothing that one of them writes, but for the loop over the coefficients, whose locks make each
-- addition one step: a loop is its rounds in an order.
pub mod Scalars
pub mod RawScalars
pub mod Sampling
pub mod Arrays
pub mod Prove
pub mod Loops
pub mod Coset
pub mod Quotient
pub mod Whole
pub mod Proving
use Prim.Native.Nat.{bit_and}
use keyless_zk_proofs.Common.{
  ℕ, zero, suc, ◌+◌, ◌-◌, ◌*◌, ◌/◌, ◌%◌, ◌^◌, ◌<◌, ◌≡◌, List, [], ◌∷◌, ◌++◌, Option, none, some,
  if◌then◌else◌, ◌==◌, length, Ordering,
}
use keyless_zk_proofs.Outcome.{Outcome, ok, aborts, ◌>>=◌}
use keyless_zk_proofs.Mpn.{Gmp}
use keyless_zk_proofs.Mpn.Limbs.{value, IsLimbs}
use keyless_zk_proofs.BinFile.{from_le}
use keyless_zk_proofs.Naf.Digits.{IsBytes}
use keyless_zk_proofs.Naf.Multiply.{naf_mul_by_scalar}
use keyless_zk_proofs.Group.{AbelianGroup, Points}
use keyless_zk_proofs.Group.Times.{times}
use keyless_zk_proofs.Multiexp.{Plan, multiexp}
use keyless_zk_proofs.Field.{CommutativeRing, BaseField}
use keyless_zk_proofs.Fft.{Fft, Orders, log2, root, put_at, run_rounds, fft, ifft}

-- What the prover uses of RawFr beside its arithmetic: the Montgomery conversions, the number in an
-- element's limbs, its bytes in memory, and the element that four limbs are.
pub record ScalarField {ℓ κ} {V : Type ℓ} {v : CommutativeRing V} {El : Type κ} (f : BaseField v El)
    : Type (ℓ ⊔ κ) where
  pub order : ℕ
  pub to_montgomery : El → El
  pub from_montgomery : El → El
  pub number : El → ℕ
  pub bytes : El → List ℕ
  pub of_limbs : List ℕ → El
  pub number_lt : (x : El) → number x < order
  pub from_value : (x : El) → times v.sums (number (from_montgomery x)) v.unit ≡ f.val x
  pub product_number :
      (x y : El) → number (to_montgomery (f.mul_el x y)) ≡ number x * number y % order
  pub bytes_length : (x : El) → length (bytes x) ≡ 32
  pub bytes_IsBytes : (x : El) → IsBytes (bytes x)
  pub bytes_number : (x : El) → from_le (bytes x) ≡ number x
  pub of_limbs_number :
      (xs : List ℕ) → IsLimbs 4 xs → value xs < order → number (of_limbs xs) ≡ value xs

-- What the prover uses of Curve beside `Points`: sub, and copy to an affine point.
pub record Subtraction {ℓ κ μ} {V : Type ℓ} {v : AbelianGroup V} {Point : Type κ}
    {PointAffine : Type μ} (g : Points v Point PointAffine) : Type (ℓ ⊔ κ ⊔ μ) where
  pub sub_point : Point → Point → Point
  pub to_affine : Point → PointAffine
  pub sub_value : (p q : Point) → v.plus (g.value_of (sub_point p q)) (g.value_of q) ≡ g.value_of p
  pub to_affine_value : (p : Point) → g.value_of_affine (to_affine p) ≡ g.value_of p

-- The group with points for its affine points, as mulByScalar of a point takes it.
abbrev pub on_points {ℓ κ μ} :
    {V : Type ℓ} {v : AbelianGroup V} {Point : Type κ} {PointAffine : Type μ}
    (g : Points v Point PointAffine)
    → Subtraction g
    → Points v Point Point
on_points g c = record {
  zero_point = g.zero_point;
  cleared = g.cleared;
  add_point = g.add_point;
  add_affine = g.add_point;
  sub_affine = c.sub_point;
  dbl = g.dbl;
  is_zero = g.is_zero;
  is_zero_affine = g.is_zero;
  value_of = g.value_of;
  value_of_affine = g.value_of;
  zero_value = g.zero_value;
  cleared_value = g.cleared_value;
  add_value = g.add_value;
  add_affine_value = g.add_value;
  sub_affine_value = c.sub_value;
  dbl_value = g.dbl_value;
  is_zero_value = g.is_zero_value;
  is_zero_affine_value = g.is_zero_value;
}

-- The struct Coef.
pub record Coef {ℓ} (El : Type ℓ) : Type ℓ where
  pub m : ℕ
  pub c : ℕ
  pub s : ℕ
  pub coef : El

-- What multiexp leaves open: aptos::log2, the number of threads and the schedules.
pub record Run : Type 0 where
  pub log2_of : ℕ → ℕ
  pub threads : ℕ
  pub plans : ℕ → Plan

-- The orders of the loops on the arrays a, b and c.
pub record LoopOrders : Type 0 where
  pub clearing : List ℕ
  pub coefs : List ℕ
  pub products : List ℕ
  pub inverse : ℕ → Orders
  pub shifts : ℕ → List ℕ
  pub forward : ℕ → Orders
  pub abc : List ℕ

-- The members of a Prover that the sizes and the loop over the coefficients take.
pub record Circuit {ℓ} (El : Type ℓ) : Type ℓ where
  pub n_vars : ℕ
  pub n_public : ℕ
  pub domain_size : ℕ
  pub n_coefs : ℕ
  pub coefs : ℕ → Coef El

-- The points that a Prover holds.
pub record ProvingKey {ℓ κ} (Affine1 : Type ℓ) (Affine2 : Type κ) : Type (ℓ ⊔ κ) where
  pub vk_alpha1 : Affine1
  pub vk_beta1 : Affine1
  pub vk_beta2 : Affine2
  pub vk_delta1 : Affine1
  pub vk_delta2 : Affine2
  pub points_a : ℕ → Affine1
  pub points_b1 : ℕ → Affine1
  pub points_b2 : ℕ → Affine2
  pub points_c : ℕ → Affine1
  pub points_h : ℕ → Affine1

pub record Proof {ℓ κ} (Affine1 : Type ℓ) (Affine2 : Type κ) : Type (ℓ ⊔ κ) where
  pub a : Affine1
  pub b : Affine2
  pub c : Affine1

-- The multi-exponentiations of pointsA, pointsB1, pointsB2, pointsC and pointsH.
pub record Runs : Type 0 where
  pub run_a : Run
  pub run_b1 : Run
  pub run_b2 : Run
  pub run_c : Run
  pub run_h : Run
