-- ===== src/Multiexp/Whole/Combine.antt =====
-- The results of the chunks, combined from the last one on.
use keyless_zk_proofs.Common.{ℕ, suc, ◌+◌, ◌*◌, ◌≡◌, sym, ◌∙◌, ap, arith, List, [], ◌∷◌, length}
use keyless_zk_proofs.Group.{AbelianGroup, Points}
use keyless_zk_proofs.Group.Times.{times, plus-none}
use keyless_zk_proofs.Multiexp.{pow2, dbl_times, combine, combine_all}
use keyless_zk_proofs.Multiexp.Sums.{times-plus, times-times}
use keyless_zk_proofs.Multiexp.Reduce.{dbl_times_lem}
use keyless_zk_proofs.Multiexp.Powers.{pow2-add}

module _ {ℓ κ μ} {V : Type ℓ} {v : AbelianGroup V} {Point : Type κ} {PointAffine : Type μ}
    (g : Points v Point PointAffine) (bits : ℕ) where
  -- The results, the last one first, each with the weight of its chunk.
  unfoldable pub weighted : List Point → V
  weighted [] = v.none
  weighted (r ∷ results) =
      v.plus (times v (pow2 (bits * length results)) (g.value_of r)) (weighted results)

  combine_lem :
      (results : List Point) (r : Point)
      → g.value_of (combine g bits r results) ≡ weighted (r ∷ results)
  unfolding combine weighted times
  combine_lem [] r =
      let e : bits * 0 ≡ 0 = omega arith in
      sym (plus-none v _ ∙ ap (λ t. times v (pow2 t) (g.value_of r)) e ∙ plus-none v _)
  combine_lem (c ∷ results) r =
      let m = length results in
      let e : bits * suc m ≡ bits * m + bits = omega arith in
      combine_lem results (g.add_point (dbl_times g bits r) c)
      ∙ ap (λ t. v.plus t (weighted results))
          (ap (times v (pow2 (bits * m))) (
              g.add_value (dbl_times g bits r) c
              ∙ ap (λ t. v.plus t (g.value_of c)) (dbl_times_lem g bits r))
            ∙ times-plus v (pow2 (bits * m)) _ _
            ∙ ap (λ t. v.plus t (times v (pow2 (bits * m)) (g.value_of c)))
                (times-times v (pow2 (bits * m)) (pow2 bits) (g.value_of r)
                  ∙ ap (λ w. times v w (g.value_of r))
                      (sym (pow2-add (bits * m) bits) ∙ ap pow2 (sym e))))
      ∙ v.plus_assoc _ _ _

  -- The combination is the sum of all chunks under their weights.
  pub combine_all_lem :
      (results : List Point) → g.value_of (combine_all g bits results) ≡ weighted results
  unfolding combine_all weighted
  combine_all_lem [] = g.zero_value
  combine_all_lem (r ∷ results) = combine_lem results r
