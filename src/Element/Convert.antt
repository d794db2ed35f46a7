-- ===== src/Element/Convert.antt =====
-- Conversions between the representations. Each reads its operand before it writes what it
-- read, so it is a function from the old content of the destination and the operand to the new
-- content, also when the two are one object.
pub mod Laws
use keyless_zk_proofs.Common.{ℕ, suc, List, Bool, true, false, if◌then◌else◌}
use keyless_zk_proofs.Common.Int.{ℤ, pos, negsuc}
use keyless_zk_proofs.Mpn.{Gmp}
use keyless_zk_proofs.Raw.{Modulus, raw_mmul, raw_mmul1, raw_neg, raw_copy_s2l, raw_from_montgomery}
use keyless_zk_proofs.Element.Memory.{
  Kind, short, short_montgomery, long, long_montgomery, Element, is_long, is_montgomery,
}

-- `a->type == Fr_LONGMONTGOMERY`.
unfoldable pub is_long_montgomery : Kind → Bool
is_long_montgomery short = false
is_long_montgomery short_montgomery = false
is_long_montgomery long = false
is_long_montgomery long_montgomery = true

module _ (g : Gmp) (m : Modulus) where
  unfoldable pub to_normal : Element → Element → Element
  unfolding is_long_montgomery
  to_normal old a =
      if is_long_montgomery a.kind
      then record old { kind = long; long_val = raw_from_montgomery g m a.long_val }
      else a

  unfoldable pub to_long_normal : Element → Element → Element
  unfolding is_long is_montgomery
  to_long_normal old a =
      if is_long a.kind
      then if is_montgomery a.kind
        then record old { kind = long; long_val = raw_from_montgomery g m a.long_val }
        else a
      else record { short_val = pos 0; kind = long; long_val = raw_copy_s2l g m a.short_val }

  -- A product of limbs by a 32-bit integer: by its absolute value, and negated where it is negative.
  unfoldable pub times_short : List ℕ → ℤ → List ℕ
  times_short limbs (pos n) = raw_mmul1 g m limbs n
  times_short limbs (negsuc n) = raw_neg g m (raw_mmul1 g m limbs (suc n))

  -- In the last branch `shortVal` of the destination stays as it was.
  unfoldable pub to_montgomery : Element → Element → Element
  unfolding is_long is_montgomery
  to_montgomery old a =
      if is_montgomery a.kind
      then a
      else if is_long a.kind
      then record {
        short_val = a.short_val;
        kind = long_montgomery;
        long_val = raw_mmul g m a.long_val m.raw_r2;
      }
      else record old { kind = short_montgomery; long_val = times_short m.raw_r2 a.short_val }
