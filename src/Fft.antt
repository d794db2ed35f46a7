-- ===== src/Fft.antt =====
-- fft.cpp and fft.hpp: the Fourier transform over a field whose roots of unity are in a table. An
-- array is the function from its indices to its elements. What tbb::parallel_for leaves open is a
-- parameter: the rounds of a loop in an order. Two rounds of one of these loops share no cell of
-- the array, so that an order of whole rounds stands for every interleaving.
pub mod Rounds
pub mod Length
pub mod Reverse
pub mod Permute
pub mod Powers
pub mod Transform
pub mod Butterfly
pub mod Roots
pub mod Stages
pub mod Exponent
pub mod Table
pub mod Multiples
pub mod Constructor
pub mod Orthogonal
pub mod Swaps
pub mod Inverse
use Prim.Native.Nat.{bit_and, bit_or}
use keyless_zk_proofs.Common.{
  ℕ, zero, suc, ◌+◌, ◌-◌, ◌*◌, ◌/◌, ◌%◌, ◌^◌, List, [], ◌∷◌, Option, none, some, if◌then◌else◌,
  ◌==◌, ltb, not,
}
use keyless_zk_proofs.Outcome.{Outcome, ok, aborts, assert, ◌>>=◌, ◌>>◌}
use keyless_zk_proofs.BinFile.{word64}
use keyless_zk_proofs.Multiexp.{pow2}
use keyless_zk_proofs.Field.{CommutativeRing, BaseField}

-- The loop of log2, for `fuel` rounds.
unfoldable pub log2_loop : ℕ → ℕ → ℕ → Option ℕ
log2_loop zero n res = if n == 1 then some res else none
log2_loop (suc fuel) n res = if n == 1 then some res else log2_loop fuel (n / 2) (suc res)

-- A loop's result. The fuel of log2 is enough for every uint64_t.
abbrev pub finished : Option ℕ → Outcome ℕ
finished none = aborts
finished (some res) = ok res

-- log2, with its assertion.
unfoldable pub log2 : ℕ → Outcome ℕ
log2 n = do assert (not (n == 0)); finished (log2_loop 64 n 0)

-- One line of BR: two masks and a shift by `width` bits, both ways.
unfoldable pub swap_groups : ℕ → ℕ → ℕ → ℕ → ℕ
swap_groups upper lower width x =
    bit_or (bit_and x upper / 2 ^ width) (bit_and x lower * 2 ^ width % word64)

-- BR.
unfoldable pub br : ℕ → ℕ → ℕ
br x domain_pow =
    let x = bit_or (x / 2 ^ 16) (x * 2 ^ 16 % word64) in
    let x = swap_groups 0xFF00FF00 0x00FF00FF 8 x in
    let x = swap_groups 0xF0F0F0F0 0x0F0F0F0F 4 x in
    let x = swap_groups 0xCCCCCCCC 0x33333333 2 x in
    let x = swap_groups 0xAAAAAAAA 0x55555555 1 x in x / pow2 (32 - domain_pow)

module _ {ℓ} {A : Type ℓ} where
  -- `a[i] = x`.
  unfoldable pub put_at : ℕ → A → (ℕ → A) → ℕ → A
  put_at i x a j = if j == i then x else a j

  -- What tbb::parallel_for does with a loop whose body is `step`, where it runs these rounds in this
  -- order.
  unfoldable pub run_rounds : (ℕ → (ℕ → A) → ℕ → A) → List ℕ → (ℕ → A) → ℕ → A
  run_rounds step [] a = a
  run_rounds step (i ∷ rounds) a = run_rounds step rounds (step i a)

  -- A round of a loop that counts in an int up to a uint64_t: from 2 ^ 31 on the int is negative,
  -- which is above the end once it is converted, and the round is not run.
  unfoldable pub int_rounds : (ℕ → (ℕ → A) → ℕ → A) → ℕ → (ℕ → A) → ℕ → A
  int_rounds step i a = if ltb i (2 ^ 31) then step i a else a

  -- The body of reversePermutation's loop.
  unfoldable pub swap_one : ℕ → ℕ → (ℕ → A) → ℕ → A
  swap_one domain_pow i a =
      let r = br i domain_pow in if ltb r i then put_at r (a i) (put_at i (a r) a) else a

  -- reversePermutation.
  unfoldable pub reverse_permutation : ℕ → List ℕ → (ℕ → A) → Outcome (ℕ → A)
  reverse_permutation n rounds a = do
    domain_pow ← log2 n
    ok (run_rounds (int_rounds (swap_one domain_pow)) rounds a)

-- An object of the class FFT: `s`, `roots` and `powTwoInv`.
pub record Fft {ℓ} (El : Type ℓ) : Type ℓ where
  pub s : ℕ
  pub roots : ℕ → El
  pub pow_two_inv : ℕ → El

-- root(domainPow, idx).
unfoldable pub root {ℓ} : {El : Type ℓ} → Fft El → ℕ → ℕ → El
root fft_ domain_pow idx = fft_.roots (idx * pow2 (fft_.s - domain_pow))

-- The rounds of the loops: those of reversePermutation, of each stage and of ifft.
pub record Orders : Type 0 where
  pub reversal : List ℕ
  pub stages : ℕ → List ℕ
  pub swaps : List ℕ

module _ {ℓ κ} {V : Type ℓ} {v : CommutativeRing V} {El : Type κ} (f : BaseField v El)
    (fft_ : Fft El) where
  -- The body of the inner loop of fft.
  unfoldable pub butterfly : ℕ → ℕ → (ℕ → El) → ℕ → El
  butterfly s i a =
      let m = pow2 s in
      let mdiv2 = m / 2 in
      let k = i / mdiv2 * m in
      let j = i % mdiv2 in
      let t = f.mul_el (root fft_ s j) (a (k + j + mdiv2)) in
      let u = a (k + j) in put_at (k + j + mdiv2) (f.sub_el u t) (put_at (k + j) (f.add_el t u) a)

  -- The outer loop of fft, for `count` stages from `s`.
  unfoldable pub run_stages : (ℕ → List ℕ) → ℕ → ℕ → (ℕ → El) → ℕ → El
  run_stages orders zero s a = a
  run_stages orders (suc count) s a =
      run_stages orders count (suc s) (run_rounds (int_rounds (butterfly s)) (orders s) a)

  -- fft. The GPU's branch is left out.
  unfoldable pub fft : Orders → ℕ → (ℕ → El) → Outcome (ℕ → El)
  fft orders n a = do
    a1 ← reverse_permutation n orders.reversal a
    domain_pow ← log2 n
    assert (pow2 domain_pow == n)
    ok (run_stages orders.stages domain_pow 1 a1)

  -- The body of ifft's loop, for `inv = powTwoInv[domainPow]`. Its own test, `i >= nDiv2`, is
  -- false of every index of the range.
  unfoldable pub swap_scaled : ℕ → El → ℕ → (ℕ → El) → ℕ → El
  swap_scaled n inv i a =
      let tmp = a i in
      let r = n - i in let a1 = put_at i (f.mul_el (a r) inv) a in put_at r (f.mul_el tmp inv) a1

  -- ifft.
  unfoldable pub ifft : Orders → ℕ → (ℕ → El) → Outcome (ℕ → El)
  ifft orders n a = do
    a1 ← fft orders n a
    domain_pow ← log2 n
    let inv = fft_.pow_two_inv domain_pow in
        let a2 = run_rounds (int_rounds (swap_scaled n inv)) orders.swaps a1 in
        let a3 = put_at 0 (f.mul_el (a2 0) inv) a2 in
        ok (put_at (n / 2) (f.mul_el (a3 (n / 2)) inv) a3)
