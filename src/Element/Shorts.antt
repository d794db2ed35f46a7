-- ===== src/Element/Shorts.antt =====
-- What the operations of fr_generic.cpp on short operands share: the store of an exact 64-bit
-- result, and sums of limbs with a 32-bit integer.
pub mod Laws
use keyless_zk_proofs.Common.{ℕ, suc, List, if◌then◌else◌}
use keyless_zk_proofs.Common.Int.{ℤ, pos, negsuc}
use keyless_zk_proofs.Mpn.{Gmp}
use keyless_zk_proofs.Raw.{Modulus, raw_add_ls, raw_sub_ls, raw_sub_sl, raw_neg_ls, raw_copy_s2l}
use keyless_zk_proofs.Element.Memory.{Kind, short, long, Element, Memory, write}
use keyless_zk_proofs.Element.Int32.{has_add32_overflow, to_int32}

module _ (g : Gmp) (m : Modulus) where
  -- The end of add_s1s2, sub_s1s2 and the short branch of Fr_neg.
  unfoldable pub store_short_result : ℕ → ℤ → Memory → Memory
  store_short_result r val mem =
      write r
        (if has_add32_overflow val
          then record { short_val = pos 0; kind = long; long_val = raw_copy_s2l g m val }
          else record (mem r) { kind = short; short_val = to_int32 val })
        mem

  -- The branches on the sign in add_s1l2n and add_l1ns2.
  unfoldable pub add_short : List ℕ → ℤ → List ℕ
  add_short limbs (pos n) = raw_add_ls g m limbs n
  add_short limbs (negsuc n) = raw_sub_ls g m limbs (suc n)

  -- The branches on the sign in sub_l1ns2.
  unfoldable pub sub_short : List ℕ → ℤ → List ℕ
  sub_short limbs (pos n) = raw_sub_ls g m limbs n
  sub_short limbs (negsuc n) = raw_add_ls g m limbs (suc n)

  -- The branches on the sign in sub_s1l2n.
  unfoldable pub short_sub : ℤ → List ℕ → List ℕ
  short_sub (pos n) limbs = raw_sub_sl g m n limbs
  short_sub (negsuc n) limbs = raw_neg_ls g m limbs (suc n)
