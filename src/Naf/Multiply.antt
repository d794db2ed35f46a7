-- ===== src/Naf/Multiply.antt =====
-- exp.hpp: multiplication of an affine point by a scalar through its signed digits.
use keyless_zk_proofs.Common.{
  ℕ, zero, suc, ◌+◌, ◌*◌, ◌%◌, ◌^◌, ◌<◌, ◌≡◌, refl, sym, ◌∙◌, ap, List, [], ◌∷◌, ◌++◌, true, false,
  arith, if◌then◌else◌, ◌==◌, ltb, length, take,
}
use keyless_zk_proofs.BinFile.{from_le}
use keyless_zk_proofs.Group.{AbelianGroup, Points}
use keyless_zk_proofs.Group.Times.{times, times-double, plus_cancel}
use keyless_zk_proofs.Naf.{build_naf}
use keyless_zk_proofs.Naf.Chain.{IsStep, Chain}
use keyless_zk_proofs.Naf.Digits.{IsBytes}
use keyless_zk_proofs.Naf.Recode.{build_naf-Chain}

pub reverse : List ℕ → List ℕ
reverse [] = []
reverse (d ∷ ds) = reverse ds ++ (d ∷ [])

-- `while ((i>=0)&&(naf[i] == 0)) i--`, on the digits from the highest down.
unfoldable pub skip_zeros : List ℕ → List ℕ
skip_zeros [] = []
skip_zeros (d ∷ ds) = elim (d == 0) [ true ↦ skip_zeros ds | false ↦ d ∷ ds ]

-- How many digits the loops read: `int nBits = (scalarSize*8)+2` of an unsigned int, none where it
-- is negative.
unfoldable pub digit_count : ℕ → ℕ
digit_count scalar_size =
    let bits = (scalar_size * 8 + 2) % 2 ^ 32 in if ltb bits (2 ^ 31) then bits else 0

-- Below 2 ^ 28 bytes it does not wrap.
digit_count-exact : (size : ℕ) → size < 2 ^ 28 → digit_count size ≡ 8 * size + 2
unfolding digit_count
digit_count-exact size few = ground arith

module _ {ℓ κ μ} {V : Type ℓ} {v : AbelianGroup V} {Point : Type κ} {PointAffine : Type μ}
    (g : Points v Point PointAffine) where
  -- The second loop, on the digits from the highest down.
  unfoldable pub horner : PointAffine → Point → List ℕ → Point
  horner base r [] = r
  horner base r (d ∷ ds) =
      let doubled = g.dbl r in
      horner base
        (if d == 1
          then g.add_affine doubled base
          else if d == 2
          then g.sub_affine doubled base
          else doubled)
        ds

  -- nafMulByScalar: the highest of the `nBits` digits stands at `nBits - 1`.
  unfoldable pub naf_mul_by_scalar : PointAffine → List ℕ → Point
  unfolding reverse skip_zeros horner
  naf_mul_by_scalar base scalar =
      horner base g.zero_point
        (skip_zeros (reverse (take (digit_count (length scalar)) (build_naf scalar))))

-- Digits from the highest down: each takes a natural number to twice it and the digit.
abbrev pub Descends : ℕ → List ℕ → ℕ → Type 0
Descends n [] m = n ≡ m
Descends n (d ∷ ds) m = (k : ℕ) × (IsStep d k n × Descends k ds m)

Descends-append :
    (n k m d : ℕ) (ds : List ℕ) → Descends n ds k → IsStep d m k → Descends n (ds ++ (d ∷ [])) m
Descends-append n k m d [] e s = (m, (rw e s, refl))
Descends-append n k m d (c ∷ ds) (l, (t, h)) s = (l, (t, Descends-append l k m d ds h s))

reverse-Descends : (ds : List ℕ) (n m : ℕ) → Chain ds n m → Descends m (reverse ds) n
unfolding reverse
reverse-Descends [] n m e = sym e
reverse-Descends (d ∷ ds) n m (k, s, h) =
    Descends-append m k n d (reverse ds) (reverse-Descends ds k m h) s

skip_zeros-Descends : (ds : List ℕ) (m : ℕ) → Descends 0 ds m → Descends 0 (skip_zeros ds) m
unfolding skip_zeros
skip_zeros-Descends [] m e = e
skip_zeros-Descends (zero ∷ ds) m (k, (s, h)) =
    let none : k ≡ 0 = omega (arith, s.0) in skip_zeros-Descends ds m (rw (← none) h)
skip_zeros-Descends (suc d ∷ ds) m h =
    let set : (suc d == 0) ≡ false = ground arith in rw (skip_zeros, set) h

module _ {ℓ κ μ} {V : Type ℓ} {v : AbelianGroup V} {Point : Type κ} {PointAffine : Type μ}
    (g : Points v Point PointAffine) where
  -- What a digit does to a doubled point.
  digit_lem :
      (base : PointAffine) (doubled : Point) (n k d : ℕ)
      → g.value_of doubled ≡ times v (2 * n) (g.value_of_affine base)
      → IsStep d k n
      → g.value_of (
          if d == 1
          then g.add_affine doubled base
          else if d == 2
          then g.sub_affine doubled base
          else doubled)
        ≡ times v k (g.value_of_affine base)
  unfolding times
  digit_lem base doubled n k zero e s =
      let same : 2 * n ≡ k = omega (arith, s.0) in
      e ∙ ap (λ t. times v t (g.value_of_affine base)) same
  digit_lem base doubled n k (suc zero) e s =
      let same : k ≡ suc (2 * n) = omega (arith, s.0) in
      rw (same, g.add_affine_value doubled base, e) (v.plus_comm _ _)
  digit_lem base doubled n k (suc (suc zero)) e s =
      let same : 2 * n ≡ suc k = omega (arith, s.0) in
      plus_cancel v _ _ (g.value_of_affine base) (
        g.sub_affine_value doubled base
        ∙ e
        ∙ ap (λ t. times v t (g.value_of_affine base)) same
        ∙ v.plus_comm _ _)
  digit_lem base doubled n k (suc (suc (suc d))) e s = absurd (omega (arith, s.1))

  horner_lem :
      (base : PointAffine) (ds : List ℕ) (r : Point) (n m : ℕ)
      → Descends n ds m
      → g.value_of r ≡ times v n (g.value_of_affine base)
      → g.value_of (horner g base r ds) ≡ times v m (g.value_of_affine base)
  unfolding horner
  horner_lem base [] r n m e h = rw (← e) h
  horner_lem base (d ∷ ds) r n m (k, (s, rest)) h = horner_lem base ds _ k m rest (
      digit_lem base (g.dbl r) n k d
        (g.dbl_value r ∙ rw h (times-double v n (g.value_of_affine base))) s)

  -- For points with values in an abelian group and a scalar of at least one byte and fewer than 2
  -- ^ 28, the value of nafMulByScalar's result is the base's value times the number in the
  -- scalar's bytes.
  pub naf_mul_by_scalar_lem :
      (base : PointAffine) (scalar : List ℕ)
      → IsBytes scalar
      → 0 < length scalar
      → length scalar < 2 ^ 28
      → g.value_of (naf_mul_by_scalar g base scalar)
        ≡ times v (from_le scalar) (g.value_of_affine base)
  unfolding naf_mul_by_scalar times
  naf_mul_by_scalar_lem base scalar bytes some few =
      let all = digit_count-exact (length scalar) few in
      rw all (
        horner_lem base _ g.zero_point 0 (from_le scalar)
          (skip_zeros-Descends _ _ (reverse-Descends _ _ 0 (build_naf-Chain scalar bytes some)))
          g.zero_value)
