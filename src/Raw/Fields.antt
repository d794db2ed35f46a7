-- ===== src/Raw/Fields.antt =====
-- The constants of fr_raw_generic.cpp and fq_raw_generic.cpp, and Fr_R3 and Fq_R3 of fr_generic.cpp
-- and fq_generic.cpp: the scalar field and the base field of BN254.
use keyless_zk_proofs.Common.{◌≡◌, refl, [], ◌∷◌, arith}
use keyless_zk_proofs.Mpn.Limbs.{value}
use keyless_zk_proofs.Raw.{Modulus}

abbrev pub fr : Modulus
unfolding value
fr = record {
  rawq = 0x43e1f593f0000001 ∷ 0x2833e84879b97091 ∷ 0xb85045b68181585d ∷ 0x30644e72e131a029 ∷ 0 ∷ [];
  np = 0xc2e1f593efffffff;
  raw_r2 = 0x1bb8e645ae216da7 ∷ 0x53fe3ab1e35c59e3 ∷ 0x8c49833d53bb8085 ∷ 0x0216d0b17f4e44a5 ∷ [];
  raw_r3 = 0x5e94d8e1b4bf0040 ∷ 0x2a489cbe1cfbb6b8 ∷ 0x893cc664a19fcfed ∷ 0x0cf8594b7fcc657c ∷ [];
  q = 21888242871839275222246405745257275088548364400416034343698204186575808495617;
  rawq_limbs = omega arith;
  low_limbs = omega arith;
  rawq_value = refl;
  low_value = refl;
  q_lt = omega arith;
  q_gt = omega arith;
  np_inverse = refl;
  r2_limbs = omega arith;
  r3_limbs = omega arith;
  r2_value = refl;
  r_inverse = 9915499612839321149637521777990102151350674507940716049588462388200839649614;
  r_inverse_lem = refl;
  r3_value = refl;
}

pub fr_q : fr.q ≡ 21888242871839275222246405745257275088548364400416034343698204186575808495617
unfolding fr
fr_q = refl

abbrev pub fq : Modulus
unfolding value
fq = record {
  rawq = 0x3c208c16d87cfd47 ∷ 0x97816a916871ca8d ∷ 0xb85045b68181585d ∷ 0x30644e72e131a029 ∷ 0 ∷ [];
  np = 0x87d20782e4866389;
  raw_r2 = 0xf32cfc5b538afa89 ∷ 0xb5e71911d44501fb ∷ 0x47ab1eff0a417ff6 ∷ 0x06d89f71cab8351f ∷ [];
  raw_r3 = 0xb1cd6dafda1530df ∷ 0x62f210e6a7283db6 ∷ 0xef7f0b0c0ada0afb ∷ 0x20fd6e902d592544 ∷ [];
  q = 21888242871839275222246405745257275088696311157297823662689037894645226208583;
  rawq_limbs = omega arith;
  low_limbs = omega arith;
  rawq_value = refl;
  low_value = refl;
  q_lt = omega arith;
  q_gt = omega arith;
  np_inverse = refl;
  r2_limbs = omega arith;
  r3_limbs = omega arith;
  r2_value = refl;
  r_inverse = 20988524275117001072002809824448087578619730785600314334253784976379291040311;
  r_inverse_lem = refl;
  r3_value = refl;
}
