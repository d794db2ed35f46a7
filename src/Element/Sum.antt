-- ===== src/Element/Sum.antt =====
-- Fr_add: one function for each pair of representations, and the dispatch on them.
pub mod Laws
use keyless_zk_proofs.Common.{ℕ, List, Bool, true, false, suc, if◌then◌else◌}
use keyless_zk_proofs.Common.Int.{ℤ, pos, negsuc, ◌+ℤ◌}
use keyless_zk_proofs.Mpn.{Gmp}
use keyless_zk_proofs.Raw.{Modulus, raw_add, raw_add_ls, raw_sub_ls, raw_copy_s2l}
use keyless_zk_proofs.Element.Memory.{
  Kind, short, long, long_montgomery, Element, Memory, is_long, is_montgomery, write, store,
}
use keyless_zk_proofs.Element.Shorts.{store_short_result, add_short}
use keyless_zk_proofs.Element.Convert.{to_montgomery}

-- `uninit` is what a local FrElement holds before it is written.
module _ (g : Gmp) (m : Modulus) (uninit : Element) where
  module _ (r a b : ℕ) where
    add_s1s2 : Memory → Memory
    add_s1s2 mem = store_short_result g m r ((mem a).short_val +ℤ (mem b).short_val) mem

    add_l1nl2n : Memory → Memory
    add_l1nl2n = store r long λ mem. raw_add g m (mem a).long_val (mem b).long_val

    -- The operand that is not in Montgomery form is converted after the type of the destination
    -- was written.
    add_l1nl2m : Memory → Memory
    add_l1nl2m =
        store r long_montgomery
          λ mem. raw_add g m (to_montgomery g m uninit (mem a)).long_val (mem b).long_val

    add_l1ml2m : Memory → Memory
    add_l1ml2m = store r long_montgomery λ mem. raw_add g m (mem a).long_val (mem b).long_val

    add_l1ml2n : Memory → Memory
    add_l1ml2n =
        store r long_montgomery
          λ mem. raw_add g m (mem a).long_val (to_montgomery g m uninit (mem b)).long_val

    add_s1l2n : Memory → Memory
    add_s1l2n = store r long λ mem. add_short g m (mem b).long_val (mem a).short_val

    add_l1ms2n : Memory → Memory
    add_l1ms2n =
        store r long_montgomery
          λ mem. raw_add g m (mem a).long_val (to_montgomery g m uninit (mem b)).long_val

    add_s1nl2m : Memory → Memory
    add_s1nl2m =
        store r long_montgomery
          λ mem. raw_add g m (to_montgomery g m uninit (mem a)).long_val (mem b).long_val

    add_l1ns2 : Memory → Memory
    add_l1ns2 = store r long λ mem. add_short g m (mem a).long_val (mem b).short_val

    add_l1ms2m : Memory → Memory
    add_l1ms2m = store r long_montgomery λ mem. raw_add g m (mem a).long_val (mem b).long_val

    add_s1ml2m : Memory → Memory
    add_s1ml2m = store r long_montgomery λ mem. raw_add g m (mem a).long_val (mem b).long_val

    unfoldable pub add : Memory → Memory
    unfolding is_long is_montgomery add_l1ml2m add_l1ml2n add_l1nl2m add_l1nl2n add_l1ms2m
        add_l1ms2n add_l1ns2 add_s1ml2m add_s1nl2m add_s1l2n add_s1s2
    add mem =
        if is_long (mem a).kind
        then if is_long (mem b).kind
          then if is_montgomery (mem a).kind
            then if is_montgomery (mem b).kind then add_l1ml2m mem else add_l1ml2n mem
            else if is_montgomery (mem b).kind
            then add_l1nl2m mem
            else add_l1nl2n mem
          else if is_montgomery (mem a).kind
          then if is_montgomery (mem b).kind then add_l1ms2m mem else add_l1ms2n mem
          else add_l1ns2 mem
        else if is_long (mem b).kind
        then if is_montgomery (mem b).kind
          then if is_montgomery (mem a).kind then add_s1ml2m mem else add_s1nl2m mem
          else add_s1l2n mem
        else add_s1s2 mem
