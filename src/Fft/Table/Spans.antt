-- ===== src/Fft/Table/Spans.antt =====
-- Every index of the table of roots lies in a span.
use native.Mathlib.Nat.{div-add-mod, mod-lt, mul_comm, mul-le-mul_right, add-mul}
use keyless_zk_proofs.Common.{
  ℕ, zero, suc, ◌+◌, ◌-◌, ◌*◌, ◌/◌, ◌%◌, ◌^◌, ◌≤◌, ◌<◌, ◌≡◌, refl, arith, true, false,
  if◌then◌else◌, ◌==◌, ltb, Bool-cases, ◌⊎◌, inl, inr,
}
use keyless_zk_proofs.Fft.Table.{span_start, span_end}

-- The span of an index.
pub span_of :
    (n_roots n_span x : ℕ)
    → 0 < n_span
    → 2 ≤ x
    → x < n_roots
    → (id : ℕ) × (id < n_span)
      × (span_start (n_roots / n_span) id ≤ x)
      × (x < span_end n_roots n_span (n_roots / n_span) id)
unfolding span_start span_end
span_of n_roots n_span x pos low high = go (n_roots / n_span) refl
  where
    last :
        (c : ℕ)
        → n_span - 1 ≡ 0 ⊎ ((n_span - 1) * c ≤ x)
        → (id : ℕ) × (id < n_span)
          × ((if id == 0 then 2 else id * c) ≤ x)
          × (x < (if id == n_span - 1 then n_roots else (id + 1) * c))
    last c h =
        let same : (n_span - 1 == n_span - 1) ≡ true = ground arith in
        (n_span - 1, omega (arith, pos), ground (arith, h), rw same high)

    go :
        (c : ℕ)
        → n_roots / n_span ≡ c
        → (id : ℕ) × (id < n_span)
          × ((if id == 0 then 2 else id * c) ≤ x)
          × (x < (if id == n_span - 1 then n_roots else (id + 1) * c))
    go zero e = last 0 (inr (omega arith))
    go (suc c) e =
        let d = x / suc c in
        let whole : suc c * d + x % suc c ≡ x = div-add-mod x (suc c) in
        let rest : x % suc c < suc c = mod-lt x (omega arith) in
        let place : d * suc c ≤ x = omega (arith, whole, mul_comm d (suc c)) in
        elim (Bool-cases (ltb d (n_span - 1))) [
          | inl inner ↦
              let apart : (d == n_span - 1) ≡ false = ground arith in
              let above : x < (d + 1) * suc c =
                omega (arith, whole, rest, mul_comm d (suc c), add-mul d 1 (suc c)) in
              (d, ground arith, first d c low place, rw apart above)
          | inr outer ↦
              let below : n_span - 1 ≤ d = ground arith in
              let bound : (n_span - 1) * suc c ≤ x =
                omega (arith, mul-le-mul_right (suc c) below, place) in
              last (suc c) (inr bound)
        ]
      where
        first : (d c : ℕ) → 2 ≤ x → d * suc c ≤ x → (if d == 0 then 2 else d * suc c) ≤ x
        first d c low place = ground arith

pub span_start_lt :
    (n_roots n_span id : ℕ)
    → n_roots ≤ 2 ^ 63
    → id < n_span
    → span_start (n_roots / n_span) id < 2 ^ 64
unfolding span_start
span_start_lt n_roots n_span id small lt =
    let c = n_roots / n_span in
    let below : id * c ≤ n_span * c = mul-le-mul_right c (omega (arith, lt)) in
    let whole : n_span * c + n_roots % n_span ≡ n_roots = div-add-mod n_roots n_span in
    let bound : id * c ≤ 2 ^ 63 = omega (arith, below, whole, small) in ground (arith, bound)
