-- ===== src/Element/Memory.antt =====
-- FrElement, and a memory of such objects, through which the functions read and write: the
-- destination of a call may be one of its operands.
use keyless_zk_proofs.Common.{
  ap, ℕ, ◌≡◌, ◌≢◌, List, Bool, true, false, arith, ◌==◌, Bool-cases, ==_iff, inl, inr,
  if◌then◌else◌,
}
use keyless_zk_proofs.Common.Int.{ℤ}

-- The four values of `type`: Fr_SHORT, Fr_SHORTMONTGOMERY, Fr_LONG, Fr_LONGMONTGOMERY.
pub data Kind : Type 0 where
  short short_montgomery long long_montgomery : Kind

-- `type & Fr_LONG` and `type & Fr_MONTGOMERY`.
unfoldable pub is_long : Kind → Bool
is_long short = false
is_long short_montgomery = false
is_long long = true
is_long long_montgomery = true

unfoldable pub is_montgomery : Kind → Bool
is_montgomery short = false
is_montgomery short_montgomery = true
is_montgomery long = false
is_montgomery long_montgomery = true

pub record Element : Type 0 where
  pub short_val : ℤ
  pub kind : Kind
  pub long_val : List ℕ

-- What each address holds.
abbrev pub Memory : Type 0
Memory = ℕ → Element

pub write : ℕ → Element → Memory → Memory
write p e mem x = if x == p then e else mem x

-- `p->type = k`.
pub set_kind : ℕ → Kind → Memory → Memory
set_kind p k mem = write p (record (mem p) { kind = k }) mem

-- `p->longVal = ...`.
pub set_long : ℕ → List ℕ → Memory → Memory
set_long p v mem = write p (record (mem p) { long_val = v }) mem

-- `p->type = k`, and then limbs computed from what memory holds after that.
pub store : ℕ → Kind → (Memory → List ℕ) → Memory → Memory
store p k limbs mem = let typed = set_kind p k mem in set_long p (limbs typed) typed

pub write_self : (p : ℕ) (e : Element) (mem : Memory) → write p e mem p ≡ e
unfolding write
write_self p e mem = ground arith

pub write_other : (p x : ℕ) (e : Element) (mem : Memory) → p ≢ x → write p e mem x ≡ mem x
unfolding write
write_other p x e mem ne = ground arith

pub set_kind_self :
    (p : ℕ) (k : Kind) (mem : Memory) → set_kind p k mem p ≡ record (mem p) { kind = k }
unfolding set_kind
set_kind_self p k mem = write_self p _ mem

pub set_kind_other : (p x : ℕ) (k : Kind) (mem : Memory) → p ≢ x → set_kind p k mem x ≡ mem x
unfolding set_kind
set_kind_other p x k mem ne = write_other p x _ mem ne

-- What does not depend on the type is not changed by a type that is written, not even in its own
-- object.
pub set_kind_kept {ℓ} :
    {X : Type ℓ} (f : Element → X)
    → ((e : Element) (k : Kind) → f (record e { kind = k }) ≡ f e)
    → (p x : ℕ) (k : Kind) (mem : Memory) → f (set_kind p k mem x) ≡ f (mem x)
set_kind_kept f h p x k mem = elim (Bool-cases (x == p)) [
  | inl same ↦ rw ((==_iff x p).0 same, set_kind_self p k mem) (h (mem p) k)
  | inr other ↦ let ne : p ≢ x = ground arith in ap f (set_kind_other p x k mem ne)
]

pub store_self :
    (p : ℕ) (k : Kind) (limbs : Memory → List ℕ) (mem : Memory)
    → store p k limbs mem p ≡ record (mem p) { kind = k; long_val = limbs (set_kind p k mem) }
unfolding store set_long
store_self p k limbs mem = rw (write_self, set_kind_self)

pub store_other :
    (p x : ℕ) (k : Kind) (limbs : Memory → List ℕ) (mem : Memory)
    → p ≢ x
    → store p k limbs mem x ≡ mem x
unfolding store set_long
store_other p x k limbs mem ne = rw (write_other p x _ _ ne) (set_kind_other p x k mem ne)
