-- ===== src/Element/Product.antt =====
-- Fr_mul: one function for each pair of representations, and the dispatch on them; Fr_square.
pub mod Laws
use keyless_zk_proofs.Common.{ℕ, List, Bool, true, false, if◌then◌else◌}
use keyless_zk_proofs.Common.Int.{ℤ, pos, ◌*ℤ◌}
use keyless_zk_proofs.Mpn.{Gmp}
use keyless_zk_proofs.Raw.{Modulus, raw_mmul, raw_msquare, raw_copy_s2l}
use keyless_zk_proofs.Element.Memory.{
  Kind, short, long, long_montgomery, Element, Memory, is_long, is_montgomery, write, store,
}
use keyless_zk_proofs.Element.Int32.{has_mul32_overflow, to_int32}
use keyless_zk_proofs.Element.Convert.{times_short, is_long_montgomery}

module _ (g : Gmp) (m : Modulus) where
  -- The end of mul_s1s2 and of the short branch of Fr_square: both branches end in limbs.
  unfoldable pub store_product : ℕ → ℤ → Memory → Memory
  store_product r result mem =
      let as_limbs : Element = record {
        short_val = pos 0;
        kind = long;
        long_val = raw_copy_s2l g m result;
      } in
      if has_mul32_overflow result
      then write r as_limbs mem
      else write r as_limbs
          (write r (record (mem r) { short_val = to_int32 result; kind = short }) mem)

  module _ (r a b : ℕ) where
    mul_s1s2 : Memory → Memory
    mul_s1s2 mem = store_product r ((mem a).short_val *ℤ (mem b).short_val) mem

    mul_l1nl2n : Memory → Memory
    mul_l1nl2n =
        store r long_montgomery
          λ mem. raw_mmul g m (raw_mmul g m (mem a).long_val (mem b).long_val) m.raw_r3

    mul_l1nl2m : Memory → Memory
    mul_l1nl2m = store r long λ mem. raw_mmul g m (mem a).long_val (mem b).long_val

    mul_l1ml2m : Memory → Memory
    mul_l1ml2m = store r long_montgomery λ mem. raw_mmul g m (mem a).long_val (mem b).long_val

    mul_l1ml2n : Memory → Memory
    mul_l1ml2n = store r long λ mem. raw_mmul g m (mem a).long_val (mem b).long_val

    mul_l1ns2n : Memory → Memory
    mul_l1ns2n =
        store r long_montgomery
          λ mem. raw_mmul g m (times_short g m (mem a).long_val (mem b).short_val) m.raw_r3

    mul_s1nl2n : Memory → Memory
    mul_s1nl2n =
        store r long_montgomery
          λ mem. raw_mmul g m (times_short g m (mem b).long_val (mem a).short_val) m.raw_r3

    mul_l1ms2n : Memory → Memory
    mul_l1ms2n = store r long λ mem. times_short g m (mem a).long_val (mem b).short_val

    mul_s1nl2m : Memory → Memory
    mul_s1nl2m = store r long λ mem. times_short g m (mem b).long_val (mem a).short_val

    mul_l1ns2m : Memory → Memory
    mul_l1ns2m = store r long λ mem. raw_mmul g m (mem a).long_val (mem b).long_val

    mul_l1ms2m : Memory → Memory
    mul_l1ms2m = store r long_montgomery λ mem. raw_mmul g m (mem a).long_val (mem b).long_val

    mul_s1ml2m : Memory → Memory
    mul_s1ml2m = store r long_montgomery λ mem. raw_mmul g m (mem a).long_val (mem b).long_val

    mul_s1ml2n : Memory → Memory
    mul_s1ml2n = store r long λ mem. raw_mmul g m (mem a).long_val (mem b).long_val

    unfoldable pub mul : Memory → Memory
    unfolding is_long is_montgomery mul_s1s2 mul_l1nl2n mul_l1nl2m mul_l1ml2m mul_l1ml2n mul_l1ns2n
        mul_s1nl2n mul_l1ms2n mul_s1nl2m mul_l1ns2m mul_l1ms2m mul_s1ml2m mul_s1ml2n
    mul mem =
        if is_long (mem a).kind
        then if is_long (mem b).kind
          then if is_montgomery (mem a).kind
            then if is_montgomery (mem b).kind then mul_l1ml2m mem else mul_l1ml2n mem
            else if is_montgomery (mem b).kind
            then mul_l1nl2m mem
            else mul_l1nl2n mem
          else if is_montgomery (mem a).kind
          then if is_montgomery (mem b).kind then mul_l1ms2m mem else mul_l1ms2n mem
          else if is_montgomery (mem b).kind
          then mul_l1ns2m mem
          else mul_l1ns2n mem
        else if is_long (mem b).kind
        then if is_montgomery (mem a).kind
          then if is_montgomery (mem b).kind then mul_s1ml2m mem else mul_s1ml2n mem
          else if is_montgomery (mem b).kind
          then mul_s1nl2m mem
          else mul_s1nl2n mem
        else mul_s1s2 mem

  unfoldable pub square : ℕ → ℕ → Memory → Memory
  unfolding is_long is_long_montgomery
  square r a mem =
      if is_long (mem a).kind
      then if is_long_montgomery (mem a).kind
        then store r long_montgomery (λ at. raw_msquare g m (at a).long_val) mem
        else store r long_montgomery (λ at. raw_mmul g m (raw_msquare g m (at a).long_val) m.raw_r3)
            mem
      else store_product r ((mem a).short_val *ℤ (mem a).short_val) mem
