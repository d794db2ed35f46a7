-- ===== src/Element/Meaning.antt =====
-- The number modulo q that an element stands for, in each of its representations.
use keyless_zk_proofs.Common.{
  ℕ, suc, ◌+◌, ◌-◌, ◌%◌, ◌^◌, ◌≤◌, ◌<◌, ◌≡◌, ◌≢◌, refl, sym, ◌∙◌, ap, List, arith,
  mod_eq_of_add_mul, add-mod_cancel,
}
use keyless_zk_proofs.Common.Int.{ℤ, pos, negsuc, pos_part, neg_part}
use keyless_zk_proofs.Mpn.{Gmp}
use keyless_zk_proofs.Raw.{Modulus, raw_copy_s2l}
use keyless_zk_proofs.Raw.Reduction.{Holds}
use keyless_zk_proofs.Raw.Sums.{raw_copy_s2l-pos, raw_copy_s2l-negsuc}
use keyless_zk_proofs.Raw.Montgomery.Forms.{IsForm, Holds_congr}
use keyless_zk_proofs.Element.Memory.{
  Kind, set_kind, short, short_montgomery, long, long_montgomery, Element, Memory, store,
  store_self, set_kind_other, set_kind_kept,
}
use keyless_zk_proofs.Element.Int32.{InInt32}

-- `v` is congruent to the integer `z`.
abbrev pub IsResidue : ℕ → ℤ → ℕ → Type 0
IsResidue q z v = (v + neg_part z) % q ≡ pos_part z % q

-- `e` stands for `v` modulo q. A short element in Montgomery form has its integer as well.
pub data Represents (m : Modulus) (e : Element) (v : ℕ) : Type 0 where
  is_short : e.kind ≡ short → InInt32 e.short_val → IsResidue m.q e.short_val v → Represents m e v
  is_both :
      e.kind ≡ short_montgomery
      → InInt32 e.short_val
      → IsResidue m.q e.short_val v
      → IsForm m e.long_val v
      → Represents m e v
  is_plain : e.kind ≡ long → Holds m e.long_val v → Represents m e v
  is_form : e.kind ≡ long_montgomery → IsForm m e.long_val v → Represents m e v

-- Sign extension to limbs, for any 64-bit integer.
pub raw_copy_s2l-Holds :
    (g : Gmp) (m : Modulus) (z : ℤ) (v : ℕ)
    → pos_part z < 2 ^ 63
    → neg_part z ≤ 2 ^ 63
    → IsResidue m.q z v
    → Holds m (raw_copy_s2l g m z) v
raw_copy_s2l-Holds g m (pos n) v hp hn e =
    Holds_congr m _ n v (sym e ∙ ap (λ t. t % m.q) (omega arith))
      (raw_copy_s2l-pos g m n (omega arith))
raw_copy_s2l-Holds g m (negsuc n) v hp hn e =
    Holds_congr m _ (m.q - suc n) v
      (add-mod_cancel (m.q - suc n) v (suc n) m.q (omega (arith, m.q_gt))
        (mod_eq_of_add_mul (m.q - suc n + suc n) 0 0 1 m.q (omega (arith, m.q_gt)) ∙ sym e))
      (raw_copy_s2l-negsuc g m n (omega arith))

-- Limbs that an operation computed from two operands, of which it reads what the type that was
-- written to the destination leaves alone.
module _ {ℓ κ} {X : Type ℓ} {Y : Type κ} (m : Modulus) (p a b : ℕ) (mem : Memory)
    (left : Element → X) (right : Element → Y)
    (pa : (k : Kind) → left (set_kind p k mem a) ≡ left (mem a))
    (pb : (k : Kind) → right (set_kind p k mem b) ≡ right (mem b)) (op : X → Y → List ℕ)
    (v : ℕ) where
  pub store-IsForm :
      IsForm m (op (left (mem a)) (right (mem b))) v
      → Represents m (store p long_montgomery (λ at. op (left (at a)) (right (at b))) mem p) v
  store-IsForm h = rw store_self (is_form refl (rw (pa long_montgomery, pb long_montgomery) h))

  pub store-Holds :
      Holds m (op (left (mem a)) (right (mem b))) v
      → Represents m (store p long (λ at. op (left (at a)) (right (at b))) mem p) v
  store-Holds h = rw store_self (is_plain refl (rw (pa long, pb long) h))

-- In an object other than the destination nothing changes.
pub elsewhere {ℓ} :
    {X : Type ℓ} (f : Element → X) (p x : ℕ) (mem : Memory)
    → p ≢ x
    → (k : Kind) → f (set_kind p k mem x) ≡ f (mem x)
elsewhere f p x mem ne k = ap f (set_kind_other p x k mem ne)

abbrev pub limbs_of : Element → List ℕ
limbs_of e = e.long_val

abbrev pub short_of : Element → ℤ
short_of e = e.short_val

-- A destination's limbs and integer do not depend on its type.
pub limbs_of-set_kind :
    (p x : ℕ) (mem : Memory) (k : Kind) → limbs_of (set_kind p k mem x) ≡ limbs_of (mem x)
limbs_of-set_kind p x mem k = set_kind_kept limbs_of (λ e k'. refl) p x k mem

pub short_of-set_kind :
    (p x : ℕ) (mem : Memory) (k : Kind) → short_of (set_kind p k mem x) ≡ short_of (mem x)
short_of-set_kind p x mem k = set_kind_kept short_of (λ e k'. refl) p x k mem
