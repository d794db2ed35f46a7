-- ===== src/Tests/Elements.antt =====
-- The theorems about elements, at the elements of a small memory.
use keyless_zk_proofs.Common.{◌+◌, ◌-◌, ◌*◌, ◌%◌, ◌≡◌, refl, ◌↔◌, true, arith, neg_mod}
use keyless_zk_proofs.Mpn.Reference.{reference}
use keyless_zk_proofs.Raw.Fields.{fr, fr_q}
use keyless_zk_proofs.Raw.Reduction.{Holds}
use keyless_zk_proofs.Raw.Montgomery.Forms.{r}
use keyless_zk_proofs.Element.Memory.{long}
use keyless_zk_proofs.Element.Meaning.{Represents}
use keyless_zk_proofs.Element.Convert.{to_montgomery, to_normal, to_long_normal}
use keyless_zk_proofs.Element.Convert.Laws.{IsNormal, to_normal-IsNormal, to_long_normal-Holds}
use keyless_zk_proofs.Element.Sum.{add}
use keyless_zk_proofs.Element.Sum.Laws.{add-Represents}
use keyless_zk_proofs.Element.Difference.{sub}
use keyless_zk_proofs.Element.Difference.Laws.{sub-Represents}
use keyless_zk_proofs.Element.Product.{mul}
use keyless_zk_proofs.Element.Product.Laws.{mul-Represents}
use keyless_zk_proofs.Element.Compare.{neg, req}
use keyless_zk_proofs.Element.Compare.Laws.{neg-Represents, req_iff}
use keyless_zk_proofs.Element.Aliasing.{add_in_place_mixed, to_montgomery_stale}
use keyless_zk_proofs.Tests.Values.{
  plain-Holds, minus_five, form_of_seven, plain_nine, elements, minus_five-Represents,
  form_of_seven-Represents, plain_nine-Represents,
}

mul-Represents_example : Represents fr (mul reference fr 2 1 2 elements 2) ((fr.q - 5) * 7)
mul-Represents_example =
    mul-Represents reference fr 2 1 2 elements (fr.q - 5) 7 minus_five-Represents
      form_of_seven-Represents

add-Represents_example : Represents fr (add reference fr plain_nine 0 3 2 elements 0) (9 + 7)
add-Represents_example =
    add-Represents reference fr plain_nine 0 3 2 elements 9 7 (omega arith) (omega arith)
      plain_nine-Represents form_of_seven-Represents

sub-Represents_example :
    Represents fr (sub reference fr plain_nine 0 3 1 elements 0) (9 + neg_mod fr.q (fr.q - 5))
sub-Represents_example =
    sub-Represents reference fr plain_nine 0 3 1 elements 9 (fr.q - 5) (omega arith) (omega arith)
      plain_nine-Represents minus_five-Represents

neg-Represents_example : Represents fr (neg reference fr 2 2 elements 2) (neg_mod fr.q 7)
neg-Represents_example = neg-Represents reference fr 2 2 elements 7 form_of_seven-Represents

req_iff_example :
    (req reference fr plain_nine form_of_seven plain_nine ≡ true) ↔ (7 % fr.q ≡ 9 % fr.q)
req_iff_example =
    req_iff reference fr plain_nine form_of_seven plain_nine 7 9 form_of_seven-Represents
      plain_nine-Represents

to_long_normal-Holds_example :
    Holds fr (to_long_normal reference fr plain_nine minus_five).long_val (fr.q - 5)
    × ((to_long_normal reference fr plain_nine minus_five).kind ≡ long)
to_long_normal-Holds_example =
    to_long_normal-Holds reference fr plain_nine minus_five (fr.q - 5) minus_five-Represents

to_normal-IsNormal_example :
    Represents fr (to_normal reference fr plain_nine form_of_seven) 7
    × IsNormal fr (to_normal reference fr plain_nine form_of_seven) 7
to_normal-IsNormal_example =
    to_normal-IsNormal reference fr plain_nine form_of_seven 7 form_of_seven-Represents

add_in_place_mixed_example : ¬ Represents fr (add reference fr plain_nine 3 3 2 elements 3) (9 + 7)
add_in_place_mixed_example =
    add_in_place_mixed reference fr plain_nine 3 2 elements 9 7 (omega arith) refl (plain-Holds 9)
      refl (plain-Holds (7 * r)) (rw fr_q (omega arith))

to_montgomery_stale_example :
    ¬ Represents fr (to_montgomery reference fr plain_nine minus_five) (fr.q - 5)
to_montgomery_stale_example =
    to_montgomery_stale reference fr plain_nine plain_nine minus_five (fr.q - 5) 0 refl refl
      (rw fr_q (omega arith))
