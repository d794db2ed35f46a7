-- ===== src/Element/Compare.antt =====
-- Fr_neg, the comparison Fr_req with Fr_eq and Fr_neq, and the logical operations.
pub mod Laws
use mathlib.Core.Bool.{not}
use keyless_zk_proofs.Common.{
  ℕ, ◌+◌, ◌≤◌, List, Bool, true, false, ◌&&◌, ◌||◌, ◌==◌, ltb, if◌then◌else◌,
}
use keyless_zk_proofs.Common.Int.{ℤ, pos, negsuc, pos_part, neg_part, ◌-ℤ◌}
use keyless_zk_proofs.Mpn.{Gmp}
use keyless_zk_proofs.Raw.{Modulus, raw_neg, raw_cmp, raw_is_zero, is_eq}
use keyless_zk_proofs.Element.Memory.{Kind, short, Element, Memory, is_long, is_montgomery, write}
use keyless_zk_proofs.Element.Shorts.{store_short_result}
use keyless_zk_proofs.Element.Convert.{to_montgomery, to_long_normal}

-- `==` on 32-bit integers.
unfoldable pub equal_ℤ : ℤ → ℤ → Bool
equal_ℤ z w = pos_part z + neg_part w == pos_part w + neg_part z

module _ (g : Gmp) (m : Modulus) where
  pub neg : ℕ → ℕ → Memory → Memory
  unfolding is_long
  neg r a mem =
      if is_long (mem a).kind
      then write r (record (mem a) { long_val = raw_neg g m (mem a).long_val }) mem
      else store_short_result g m r (pos 0 -ℤ (mem a).short_val) mem

  -- reqL1L2.
  req_limbs : List ℕ → List ℕ → Bool
  req_limbs a b = is_eq (raw_cmp g m b a)

  module _ (uninit : Element) where
    pub req : Element → Element → Bool
    unfolding is_long is_montgomery req_limbs equal_ℤ
    req a b =
        let a_m = (to_montgomery g m uninit a).long_val in
        let b_m = (to_montgomery g m uninit b).long_val in
        if is_long a.kind
        then if is_long b.kind
          then if is_montgomery a.kind
            then if is_montgomery b.kind
              then req_limbs a.long_val b.long_val
              else req_limbs a.long_val b_m
            else if is_montgomery b.kind
            then req_limbs a_m b.long_val
            else req_limbs a.long_val b.long_val
          else if is_montgomery a.kind
          then req_limbs a.long_val b_m
          else req_limbs a.long_val (to_long_normal g m uninit b).long_val
        else if is_long b.kind
        then if is_montgomery b.kind
          then req_limbs a_m b.long_val
          else req_limbs (to_long_normal g m uninit a).long_val b.long_val
        else equal_ℤ a.short_val b.short_val

    -- `r->shortVal = result; r->type = Fr_SHORT`.
    pub store_truth : ℕ → Bool → Memory → Memory
    store_truth r result mem =
        write r (record (mem r) { short_val = if result then pos 1 else pos 0; kind = short }) mem

    pub eq : ℕ → ℕ → ℕ → Memory → Memory
    eq r a b mem = store_truth r (req (mem a) (mem b)) mem

    pub neq : ℕ → ℕ → ℕ → Memory → Memory
    neq r a b mem = store_truth r (not (req (mem a) (mem b))) mem

    pub is_true : Element → Bool
    unfolding is_long equal_ℤ
    is_true e =
        if is_long e.kind
        then not (raw_is_zero g m e.long_val)
        else not (equal_ℤ e.short_val (pos 0))

    pub lor : ℕ → ℕ → ℕ → Memory → Memory
    lor r a b mem = store_truth r (is_true (mem a) || is_true (mem b)) mem

    pub land : ℕ → ℕ → ℕ → Memory → Memory
    land r a b mem = store_truth r (is_true (mem a) && is_true (mem b)) mem

    pub lnot : ℕ → ℕ → Memory → Memory
    lnot r a mem = store_truth r (not (is_true (mem a))) mem
