-- ===== src/Fft/Table/Both.antt =====
-- The two tables that the constructor computes.
use keyless_zk_proofs.Common.{
  ℕ, zero, suc, ◌+◌, ◌-◌, ◌*◌, ◌≤◌, ◌<◌, ◌≡◌, refl, sym, ◌∙◌, ap, ap₂, arith, List, true, ◌⊎◌, inl,
  inr,
}
use keyless_zk_proofs.Multiexp.{pow2}
use keyless_zk_proofs.Field.{CommutativeRing, BaseField}
use keyless_zk_proofs.Group.Times.{times}
use keyless_zk_proofs.Fft.{put_at, run_rounds, Fft}
use keyless_zk_proofs.Fft.Rounds.{IsRange}
use keyless_zk_proofs.Fft.Powers.{power, power-add, minus_square}
use keyless_zk_proofs.Outcome.{ok}
use keyless_zk_proofs.Multiexp.Powers.{pow2-pos, pow2_mono}
use keyless_zk_proofs.Fft.Roots.{IsRootTable}
use keyless_zk_proofs.Fft.Table.{fill_loop, fill_span, make_tables}
use keyless_zk_proofs.Fft.Multiples.{half-power}
use keyless_zk_proofs.Fft.Table.Cells.{Good, fill_loop-Good, table_lem}

module _ {ℓ κ} {V : Type ℓ} {v : CommutativeRing V} {El : Type κ} (f : BaseField v El) where
  module _ (complete : (x y : El) → f.val x ≡ f.val y → f.eq_el x y ≡ true) (s n_span : ℕ)
      (rounds : List ℕ) (root_one half_one : El) (fresh : ℕ → ℕ → El) (positive : 0 < s)
      (few : s ≤ 62) (spans : 0 < n_span) (range : IsRange 0 n_span rounds)
      (minus : v.sums.plus (power v (f.val root_one) (pow2 (s - 1))) v.unit ≡ v.sums.none)
      (two : times v.sums 2 (f.val half_one) ≡ v.unit) where
    abbrev w : V
    w = f.val root_one

    -- What an array holds after its first two cells are set.
    started :
        (x : El) (a : ℕ → El)
        → Good f (f.val x) (put_at 1 x (put_at 0 f.one_el a)) 0
          × Good f (f.val x) (put_at 1 x (put_at 0 f.one_el a)) 1
    unfolding put_at power
    started x a = (f.one_val, sym (v.mult_comm _ v.unit ∙ v.unit-mult _))

    abbrev roots_table : ℕ → El
    roots_table =
        run_rounds (fill_span f (pow2 s) n_span) rounds
          (put_at 1 root_one (put_at 0 f.one_el (fresh 0)))

    abbrev inverse_table : ℕ → El
    inverse_table = fill_loop f (s - 1) 2 (put_at 1 half_one (put_at 0 f.one_el (fresh 1)))

    roots-Good : (x : ℕ) → x < pow2 s → Good f w roots_table x
    roots-Good x lt =
        table_lem f w (pow2 s) n_span rounds _ x (omega (arith, pow2_mono s 62 few)) spans range
          (started root_one (fresh 0)).0 (started root_one (fresh 0)).1 lt

    inverses-Good : (x : ℕ) → x ≤ s → Good f (f.val half_one) inverse_table x
    inverses-Good x le =
        fill_loop-Good f (f.val half_one) (s - 1) 1 _ x (started half_one (fresh 1)).1
          (started half_one (fresh 1)).1 (cases x le)
      where
        a : ℕ → El
        a = put_at 1 half_one (put_at 0 f.one_el (fresh 1))

        cases : (x : ℕ) → x ≤ s → (Good f (f.val half_one) a x) ⊎ ((1 < x) × (x ≤ s - 1 + 1))
        cases zero le = inl (started half_one (fresh 1)).0
        cases (suc zero) le = inl (started half_one (fresh 1)).1
        cases (suc (suc x)) le = inr (omega arith, omega (arith, le))

    -- The last root times the first is one.
    closes : f.val (f.mul_el (roots_table (pow2 s - 1)) (roots_table 1)) ≡ f.val f.one_el
    unfolding power
    closes =
        let p = pow2 (s - 1) in
        let size : pow2 s ≡ 2 * p = grown s positive in
        let one_lt : 1 < pow2 s = omega (arith, size, pow2-pos (s - 1)) in
        let last : pow2 s - 1 + 1 ≡ p + p = omega (arith, size, pow2-pos (s - 1)) in
        f.mul_val _ _
        ∙ ap₂ v.mult (roots-Good (pow2 s - 1) (omega (arith, one_lt))) (roots-Good 1 one_lt)
        ∙ sym (power-add v w (pow2 s - 1) 1)
        ∙ ap (power v w) last
        ∙ power-add v w p p
        ∙ minus_square v (power v w p) minus
        ∙ sym f.one_val
      where
        grown : (s : ℕ) → 0 < s → pow2 s ≡ 2 * pow2 (s - 1)
        grown zero pos = absurd (omega (arith, pos))
        grown (suc s) pos = let e : suc s - 1 ≡ s = omega arith in rw e refl

    pub make_tables_lem :
        (fft_ : Fft El) × (make_tables f s n_span rounds root_one half_one fresh ≡ ok fft_)
        × (fft_.s ≡ s)
        × IsRootTable f fft_ w
    unfolding make_tables
    make_tables_lem =
        let passes = complete _ _ closes in
        (
          record { s = s; roots = roots_table; pow_two_inv = inverse_table },
          rw passes refl,
          refl,
          record {
            roots_val = roots-Good;
            minus_one = minus;
            inverse_val = λ i le.
                ap (times v.sums (pow2 i)) (inverses-Good i le)
                ∙ half-power v (f.val half_one) i two;
          },
        )
