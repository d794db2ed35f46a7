-- ===== src/Tests/Values.antt =====
-- Elements of Fr, plain and in Montgomery form, and a memory that holds four of them.
use native.Mathlib.Nat.{mod-lt}
use keyless_zk_proofs.Common.{
  mod_eq_of_add_mul, ℕ, ◌+◌, ◌-◌, ◌*◌, ◌%◌, ◌<◌, ◌≡◌, refl, List, [], arith, if◌then◌else◌, ◌==◌,
}
use keyless_zk_proofs.Common.Int.{pos, negsuc}
use keyless_zk_proofs.Mpn.Limbs.{limbs, limbs-IsLimbs, value-limbs_of_lt, value}
use keyless_zk_proofs.Raw.{n64}
use keyless_zk_proofs.Raw.Fields.{fr}
use keyless_zk_proofs.Raw.Reduction.{IsReduced, Holds}
use keyless_zk_proofs.Raw.Montgomery.Forms.{r}
use keyless_zk_proofs.Element.Memory.{Element, Memory, short, long, long_montgomery}
use keyless_zk_proofs.Element.Meaning.{Represents, is_short, is_plain, is_form}

-- The four limbs of a number's remainder.
abbrev pub plain : ℕ → List ℕ
plain v = limbs n64 (v % fr.q)

pub plain-Holds : (v : ℕ) → Holds fr (plain v) v
plain-Holds v =
    let below : v % fr.q < fr.q = mod-lt v (omega (arith, fr.q_gt)) in
    let same : value (plain v) ≡ v % fr.q =
      value-limbs_of_lt n64 (v % fr.q) (omega (arith, below, fr.q_lt)) in
    record {
      reduced = record { limbs = limbs-IsLimbs n64 (v % fr.q); below = rw same below };
      same = same;
    }

pub plain-IsReduced : (v : ℕ) → IsReduced fr (plain v)
plain-IsReduced v = (plain-Holds v).reduced

abbrev pub minus_five : Element
minus_five = record { short_val = negsuc 4; kind = short; long_val = [] }

abbrev pub form_of_seven : Element
form_of_seven = record { short_val = pos 0; kind = long_montgomery; long_val = plain (7 * r) }

abbrev pub plain_nine : Element
plain_nine = record { short_val = pos 0; kind = long; long_val = plain 9 }

abbrev pub elements : Memory
elements p = if p == 1 then minus_five else if p == 2 then form_of_seven else plain_nine

pub minus_five-Represents : Represents fr minus_five (fr.q - 5)
minus_five-Represents =
    is_short refl (omega arith)
      (mod_eq_of_add_mul (fr.q - 5 + 5) 0 0 1 fr.q (omega (arith, fr.q_gt)))

pub form_of_seven-Represents : Represents fr form_of_seven 7
form_of_seven-Represents = is_form refl (plain-Holds (7 * r))

pub plain_nine-Represents : Represents fr plain_nine 9
plain_nine-Represents = is_plain refl (plain-Holds 9)
