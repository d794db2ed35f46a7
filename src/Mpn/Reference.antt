-- ===== src/Mpn/Reference.antt =====
-- A `Gmp` that computes through the values of its operands: it shows that the documented laws can
-- hold together, and runs the model in tests.
use keyless_zk_proofs.Common.{
  ℕ, ◌+◌, ◌-◌, ◌*◌, ◌/◌, ◌<◌, ◌≡◌, refl, compare, List, arith, ltb, if◌then◌else◌,
}
use keyless_zk_proofs.Mpn.{Gmp}
use keyless_zk_proofs.Mpn.Limbs.{
  value, limbs, base, IsLimbs, limbs-IsLimbs, value-limbs, value-limbs_of_lt, value-lt,
}

-- The low limbs of a number, and what lies above them.
unfoldable pub split : ℕ → ℕ → List ℕ × ℕ
split n v = (limbs n v, v / base n)

-- x - y in `n` limbs, with the borrow.
unfoldable pub borrow : ℕ → ℕ → ℕ → List ℕ × ℕ
borrow n x y = if ltb x y then (limbs n (x + base n - y), 1) else (limbs n (x - y), 0)

pub split-IsLimbs : (n v : ℕ) → IsLimbs n (split n v).0
unfolding split
split-IsLimbs n v = limbs-IsLimbs n v

pub split-value : (n v : ℕ) → value (split n v).0 + base n * (split n v).1 ≡ v
unfolding split
split-value n v = value-limbs n v

pub borrow-IsLimbs : (n x y : ℕ) → IsLimbs n (borrow n x y).0
unfolding borrow
borrow-IsLimbs n x y = ground (arith, limbs-IsLimbs n (x + base n - y), limbs-IsLimbs n (x - y))

pub borrow-value :
    (n x y : ℕ)
    → x < base n
    → y < base n
    → value (borrow n x y).0 + y ≡ x + base n * (borrow n x y).1
unfolding borrow
borrow-value n x y hx hy =
    ground (arith, value-limbs_of_lt n (x + base n - y), value-limbs_of_lt n (x - y))

abbrev pub reference : Gmp
unfolding split borrow
reference = record {
  add_n = λ xs ys n. split n (value xs + value ys);
  sub_n = λ xs ys n. borrow n (value xs) (value ys);
  add_1 = λ xs n y. split n (value xs + y);
  sub_1 = λ xs n y. borrow n (value xs) y;
  mul_1 = λ xs n y. split n (value xs * y);
  addmul_1 = λ rs xs n y. split n (value rs + value xs * y);
  add = λ xs n ys k. split n (value xs + value ys);
  cmp = λ xs ys n. compare (value xs) (value ys);
  add_n_limbs = λ xs ys n _ _. split-IsLimbs n (value xs + value ys);
  add_n_value = λ xs ys n _ _. split-value n (value xs + value ys);
  sub_n_limbs = λ xs ys n _ _. borrow-IsLimbs n (value xs) (value ys);
  sub_n_value =
      λ xs ys n p q. borrow-value n (value xs) (value ys) (value-lt n xs p) (value-lt n ys q);
  add_1_limbs = λ xs n y _ _. split-IsLimbs n (value xs + y);
  add_1_value = λ xs n y _ _. split-value n (value xs + y);
  sub_1_limbs = λ xs n y _ _. borrow-IsLimbs n (value xs) y;
  sub_1_value = λ xs n y p q. borrow-value n (value xs) y (value-lt n xs p) q;
  mul_1_limbs = λ xs n y _ _. split-IsLimbs n (value xs * y);
  mul_1_value = λ xs n y _ _. split-value n (value xs * y);
  addmul_1_limbs = λ rs xs n y _ _ _. split-IsLimbs n (value rs + value xs * y);
  addmul_1_value = λ rs xs n y _ _ _. split-value n (value rs + value xs * y);
  add_limbs = λ xs n ys k _ _. split-IsLimbs n (value xs + value ys);
  add_value = λ xs n ys k _ _ _. split-value n (value xs + value ys);
  cmp_value = λ xs ys n _ _. refl;
}
