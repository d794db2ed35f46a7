-- ===== src/Fft/Constructor.antt =====
-- FFT's constructor: it comes to an end with the tables that fft and ifft take.
use native.Mathlib.Nat.{mod-lt, mul_comm, mul_assoc}
use keyless_zk_proofs.Common.{
  ℕ, zero, suc, ◌+◌, ◌-◌, ◌*◌, ◌/◌, ◌%◌, ◌^◌, ◌≤◌, ◌<◌, ◌≡◌, refl, sym, ◌∙◌, ap, subst, arith, List,
  true, false, ◌==◌, ==_iff, ltb, ◌&&◌, some,
}
use keyless_zk_proofs.Multiexp.{pow2}
use keyless_zk_proofs.Field.{CommutativeRing, BaseField}
use keyless_zk_proofs.Group.Times.{times, plus-none}
use keyless_zk_proofs.Multiexp.Sums.{times-times}
use keyless_zk_proofs.Fft.{Fft}
use keyless_zk_proofs.Fft.Rounds.{IsRange}
use keyless_zk_proofs.Fft.Powers.{power, power-times}
use keyless_zk_proofs.Outcome.{ok}
use keyless_zk_proofs.Fft.Length.{log2-pow2}
use keyless_zk_proofs.Fft.Roots.{IsRootTable}
use keyless_zk_proofs.Fft.Table.{find_nqr, halve_loop, make_fft}
use keyless_zk_proofs.Fft.Multiples.{number, number-power, number-mod}
use keyless_zk_proofs.Fft.Table.Both.{make_tables_lem}

-- It finds the first such number, where the fuel reaches it.
find_nqr_lem :
    (powm : ℕ → ℕ → ℕ → ℕ) (half q fuel m n : ℕ)
    → m < fuel
    → ((l : ℕ) → l < m → powm (n + l) half q ≡ 1)
    → (powm (n + m) half q == 1) ≡ false
    → find_nqr powm half q fuel n ≡ some (n + m)
unfolding find_nqr
find_nqr_lem powm half q zero m n lt ones other = absurd (omega (arith, lt))
find_nqr_lem powm half q (suc fuel) zero n lt ones other =
    let e : n + 0 ≡ n = omega arith in
    let here : (powm n half q == 1) ≡ false = subst (λ b. (powm b half q == 1) ≡ false) e other in
    rw (here, e) refl
find_nqr_lem powm half q (suc fuel) (suc m) n lt ones other =
    let e : n + 0 ≡ n = omega arith in
    let d : n + suc m ≡ suc n + m = omega arith in
    let here : (powm n half q == 1) ≡ true =
      (==_iff (powm n half q) 1).1 (subst (λ b. powm b half q ≡ 1) e (ones 0 (omega arith))) in
    rw (here, d)
      (find_nqr_lem powm half q fuel m (suc n) (omega (arith, lt))
        (λ l p. subst (λ b. powm b half q ≡ 1) (shift n l) (ones (suc l) (omega (arith, p))))
        (subst (λ b. (powm b half q == 1) ≡ false) d other))
  where
    shift : (n l : ℕ) → n + suc l ≡ suc n + l
    shift n l = omega arith

-- For a number that enough powers of two divide, it ends at `domain_pow`.
halve_loop_lem : (t e s c : ℕ) → halve_loop (t + s) (t + e) s (pow2 t * c) ≡ (t + s, c)
unfolding halve_loop
halve_loop_lem zero zero s c =
    let w : 1 * c ≡ c = omega arith in let z : 0 + s ≡ s = omega arith in rw (w, z) refl
halve_loop_lem zero (suc e) s c =
    let w : 1 * c ≡ c = omega arith in
    let z : 0 + s ≡ s = omega arith in
    let y : 0 + suc e ≡ suc e = omega arith in
    let stop : ((c % 2 == 0) && ltb s s) ≡ false = ground arith in rw (w, z, y, stop) refl
halve_loop_lem (suc t) e s c =
    let whole : 2 * pow2 t * c ≡ 2 * (pow2 t * c) = mul_assoc 2 (pow2 t) c in
    let half : 2 * pow2 t * c / 2 ≡ pow2 t * c = omega (arith, whole) in
    let go : ((2 * pow2 t * c % 2 == 0) && ltb s (suc t + s)) ≡ true = ground (arith, whole) in
    let n : suc t + e ≡ suc (t + e) = omega arith in
    let d : t + suc s ≡ suc t + s = omega arith in
    rw (n, go, half)
      (subst (λ k. halve_loop k (t + e) (suc s) (pow2 t * c) ≡ (k, c)) d
        (halve_loop_lem t e (suc s) c))

half_order : (q k c : ℕ) → 0 < k → q ≡ 1 + pow2 k * c → (q - 1) / 2 ≡ pow2 (k - 1) * c
half_order q zero c pos e = absurd (omega (arith, pos))
half_order q (suc k) c pos e =
    let d : suc k - 1 ≡ k = omega arith in
    let whole : 2 * pow2 k * c ≡ 2 * (pow2 k * c) = mul_assoc 2 (pow2 k) c in
    rw d (omega (arith, e, whole))

module _ {ℓ} {V : Type ℓ} (v : CommutativeRing V) where
  -- A power of `b` whose own power `half` is -1 modulo q has a power that is -1.
  root_minus :
      (q half b c p : ℕ) (root : V)
      → half ≡ p * c
      → root ≡ power v (number v b) c
      → number v q ≡ v.sums.none
      → b ^ half % q + 1 ≡ q
      → v.sums.plus (power v root p) v.unit ≡ v.sums.none
  unfolding times
  root_minus q half b c p root halved is_root char other =
      ap (λ t. v.sums.plus (power v t p) v.unit) is_root
      ∙ ap (λ t. v.sums.plus t v.unit)
          (sym (power-times v (number v b) c p)
            ∙ sym (number-power v b (c * p))
            ∙ ap (λ e. number v (b ^ e)) (mul_comm c p ∙ sym halved)
            ∙ sym (number-mod v q (b ^ half) char))
      ∙ v.sums.plus_comm _ _
      ∙ ap (number v) (next (b ^ half % q))
      ∙ ap (number v) other
      ∙ char
    where
      next : (n : ℕ) → suc n ≡ n + 1
      next n = omega arith

module _ {ℓ κ} {V : Type ℓ} {v : CommutativeRing V} {El : Type κ} (f : BaseField v El) where
  -- For a field whose order q has q - 1 = 2 ^ k * c, with k positive and at most 62, whose
  -- elements with the same value are equal for eq, and in which q units sum to none and fromMpz(n)
  -- is n units for n below q; where mpz_powm and mpz_invert do what GMP documents, 2 + m is the
  -- first number v from 2 whose power (q - 1) / 2 is not 1 modulo q, m below the fuel, and that
  -- power is then -1, as for every prime q; and for at least one span, each of which is run once,
  -- in any order: the constructor with maxDomainSize = 2 ^ k comes to an end without an exception
  -- or a failed assertion, with s = k and with tables of the powers of a root of unity of order 2
  -- ^ k and of the inverses of the powers of two.
  pub make_fft_lem :
      (from_mpz : ℕ → El) (powm : ℕ → ℕ → ℕ → ℕ) (invert : ℕ → ℕ → ℕ) (q fuel k c m n_span : ℕ)
      (rounds : List ℕ) (fresh : ℕ → ℕ → El)
      → ((x y : El) → f.val x ≡ f.val y → f.eq_el x y ≡ true)
      → ((n : ℕ) → n < q → f.val (from_mpz n) ≡ times v.sums n v.unit)
      → times v.sums q v.unit ≡ v.sums.none
      → ((b e : ℕ) → powm b e q ≡ b ^ e % q)
      → invert 2 q < q
      → 2 * invert 2 q % q ≡ 1
      → 0 < k
      → k ≤ 62
      → q ≡ 1 + pow2 k * c
      → m < fuel
      → ((l : ℕ) → l < m → (2 + l) ^ ((q - 1) / 2) % q ≡ 1)
      → (2 + m) ^ ((q - 1) / 2) % q + 1 ≡ q
      → 2 < q
      → 0 < n_span
      → IsRange 0 n_span rounds
      → (fft_ : Fft El) × (w : V) × (make_fft f from_mpz powm invert q fuel
            (pow2 k)
            n_span
            rounds
            fresh
          ≡ ok fft_)
        × (fft_.s ≡ k)
        × IsRootTable f fft_ w
  unfolding make_fft times
  make_fft_lem from_mpz powm invert q fuel k c m n_span rounds fresh complete mpz char power_law
        inverse_lt inverse positive few order m_lt ones other large spans range =
      let b = 2 + m in
      let p = pow2 (k - 1) in
      let half = (q - 1) / 2 in
      let halved : half ≡ p * c = half_order q k c positive order in
      let found : find_nqr powm half q fuel 2 ≡ some b =
        find_nqr_lem powm half q fuel m 2 m_lt (λ l lt. power_law (2 + l) half ∙ ones l lt)
          (not_one _ (power_law b half)) in
      let step : 1 + (k - 1) ≡ k = omega (arith, positive) in
      let counted : halve_loop k k 1 half ≡ (k, c) =
        ap (halve_loop k k 1) halved ∙ ends k positive in
      let same : ltb k k ≡ false = ground arith in
      let root_val : f.val (from_mpz (powm b c q)) ≡ power v (number v b) c =
        mpz _ (subst (λ n. n < q) (sym (power_law b c)) (mod-lt _ (omega (arith, large))))
        ∙ ap (number v) (power_law b c)
        ∙ number-mod v q (b ^ c) char
        ∙ number-power v b c in
      let minus = root_minus v q half b c p _ halved root_val char other in
      let two : times v.sums 2 (f.val (from_mpz (invert 2 q))) ≡ v.unit =
        ap (times v.sums 2) (mpz (invert 2 q) inverse_lt)
        ∙ times-times v.sums 2 (invert 2 q) v.unit
        ∙ sym (number-mod v q (2 * invert 2 q) char)
        ∙ ap (number v) inverse
        ∙ number_one in
      let (fft_, run, is_s, table) =
        make_tables_lem f complete k n_span rounds (from_mpz (powm b c q)) (from_mpz (invert 2 q))
          fresh positive few spans range minus two in
      (
        fft_,
        f.val (from_mpz (powm b c q)),
        rw (log2-pow2 k (omega (arith, few)), found, counted, same) run,
        is_s,
        table,
      )
    where
      ends : (k : ℕ) → 0 < k → halve_loop k k 1 (pow2 (k - 1) * c) ≡ (k, c)
      ends zero pos = absurd (omega (arith, pos))
      ends (suc k) pos =
          let e : suc k - 1 ≡ k = omega arith in
          let d : k + 1 ≡ suc k = omega arith in
          rw e (subst (λ n. halve_loop n n 1 (pow2 k * c) ≡ (n, c)) d (halve_loop_lem k 1 1 c))

      not_one : (x : ℕ) → x ≡ (2 + m) ^ ((q - 1) / 2) % q → (x == 1) ≡ false
      not_one x e = let g : x + 1 ≡ q = ap (λ (t : ℕ). t + 1) e ∙ other in ground (arith, g)

      number_one : number v 1 ≡ v.unit
      number_one = plus-none v.sums v.unit
