-- ===== src/Tests/Raws.antt =====
-- The theorems about limbs, at limbs of Fr.
use keyless_zk_proofs.Common.{◌*◌, ◌≡◌}
use keyless_zk_proofs.Mpn.Limbs.{value}
use keyless_zk_proofs.Mpn.Reference.{reference}
use keyless_zk_proofs.Raw.{raw_mmul, raw_to_montgomery, raw_from_montgomery}
use keyless_zk_proofs.Raw.Fields.{fr}
use keyless_zk_proofs.Raw.Montgomery.{IsQuotient, raw_mmul_lem}
use keyless_zk_proofs.Raw.Montgomery.Forms.{r, raw_from-to_montgomery}
use keyless_zk_proofs.Tests.Values.{plain, plain-IsReduced}

raw_mmul_lem_example :
    IsQuotient fr
      (raw_mmul reference fr (plain 9) (plain (7 * r)))
      (value (plain 9) * value (plain (7 * r)))
raw_mmul_lem_example =
    raw_mmul_lem reference fr (plain 9) (plain (7 * r)) (plain-IsReduced 9).limbs
      (plain-IsReduced (7 * r))

raw_from-to_montgomery_example :
    raw_from_montgomery reference fr (raw_to_montgomery reference fr (plain 9)) ≡ plain 9
raw_from-to_montgomery_example = raw_from-to_montgomery reference fr (plain 9) (plain-IsReduced 9)
