-- ===== src/Fft/Length.antt =====
-- log2: its loop ends for every uint64_t but 0.
use keyless_zk_proofs.Common.{
  ℕ, zero, suc, ◌+◌, ◌*◌, ◌/◌, ◌^◌, ◌≤◌, ◌<◌, ◌≡◌, refl, ◌∙◌, arith, some, true, false, ◌==◌,
  Bool-cases, inl, inr, ==_iff, ap,
}
use keyless_zk_proofs.Outcome.{ok}
use keyless_zk_proofs.Multiexp.{pow2}
use keyless_zk_proofs.Multiexp.Powers.{pow2-pos}
use keyless_zk_proofs.Fft.{log2_loop, log2}

zero_plus : (n : ℕ) → n ≡ 0 + n
zero_plus n = omega arith

-- With fuel for the number's bits, the loop counts the halvings.
log2_loop_lem :
    (fuel n res : ℕ)
    → 0 < n
    → n < pow2 (suc fuel)
    → (k : ℕ) × (log2_loop fuel n res ≡ some (k + res)) × (pow2 k ≤ n) × (n < pow2 (suc k))
unfolding log2_loop
log2_loop_lem zero n res pos lt =
    let e : n ≡ 1 = omega (arith, pos, lt) in
    let t : (n == 1) ≡ true = ground arith in
    (0, rw t (ap some (zero_plus res)), omega (arith, pos), omega (arith, e))
log2_loop_lem (suc fuel) n res pos lt = elim (Bool-cases (n == 1)) [
  | inl one ↦
      (0, rw one (ap some (zero_plus res)), omega (arith, pos), omega (arith, (==_iff n 1).0 one))
  | inr more ↦
      let large : 1 < n = ground arith in
      let (k, e, low, high) =
        log2_loop_lem fuel (n / 2) (suc res) (omega (arith, large)) (omega (arith, lt)) in
      let c : k + suc res ≡ suc k + res = omega arith in
      (suc k, rw more (e ∙ ap some c), omega (arith, low), omega (arith, high))
]

-- For every n with 0 < n < 2 ^ 64, log2 comes to an end: its result k is that with 2 ^ k <= n < 2
-- ^ (k + 1).
pub log2_lem :
    (n : ℕ) → 0 < n → n < 2 ^ 64 → (k : ℕ) × (log2 n ≡ ok k) × (pow2 k ≤ n) × (n < pow2 (suc k))
unfolding log2
log2_lem n pos lt =
    let (k, e, low, high) = log2_loop_lem 64 n 0 pos (omega arith) in
    let z : (n == 0) ≡ false = ground arith in
    let c : k + 0 ≡ k = omega arith in (k, rw (z, e, c) refl, low, high)

log2_loop-pow2 : (fuel k res : ℕ) → k ≤ fuel → log2_loop fuel (pow2 k) res ≡ some (k + res)
unfolding log2_loop
log2_loop-pow2 zero zero res h = ap some (zero_plus res)
log2_loop-pow2 zero (suc k) res h = absurd (omega arith)
log2_loop-pow2 (suc fuel) zero res h = ap some (zero_plus res)
log2_loop-pow2 (suc fuel) (suc k) res h =
    let more : (2 * pow2 k == 1) ≡ false = ground (arith, pow2-pos k) in
    let half : 2 * pow2 k / 2 ≡ pow2 k = omega arith in
    let c : k + suc res ≡ suc k + res = omega arith in
    rw (more, half) (log2_loop-pow2 fuel k (suc res) (omega (arith, h)) ∙ ap some c)

pub log2-pow2 : (k : ℕ) → k ≤ 63 → log2 (pow2 k) ≡ ok k
unfolding log2
log2-pow2 k h =
    let z : (pow2 k == 0) ≡ false = ground (arith, pow2-pos k) in
    let c : k + 0 ≡ k = omega arith in rw (z, log2_loop-pow2 64 k 0 (omega (arith, h)), c) refl
