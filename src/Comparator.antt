-- ===== src/Comparator.antt =====
-- The comparison functions that rbtree and base_hash are created with. A comparison returns an int
-- of which only the sign is read; the sign is an `Ordering`.
use Prim.Native.Nat.{ℕ, compare, Ordering}
use Prim.Native.Nat.Ordering.{lt, eq, gt}
use mathlib.Core.Path.{◌≡◌, refl}
use mathlib.Core.Logic.{◌⊎◌, inl, inr}
use native.Mathlib.Omega.{arith}

abbrev pub flip : Ordering → Ordering
flip lt = gt
flip eq = eq
flip gt = lt

pub Ordering-cases : (o : Ordering) → (o ≡ lt) ⊎ (o ≡ eq) ⊎ (o ≡ gt)
Ordering-cases lt = inl refl
Ordering-cases eq = inr (inl refl)
Ordering-cases gt = inr (inr refl)

-- The laws that a comparison function has to meet: it orders the classes of equal keys. Two keys may
-- compare equal and yet differ.
pub record Comparator {ℓ} (K : Type ℓ) : Type ℓ where
  pub cmp : K → K → Ordering
  pub cmp_flip : (a b : K) → cmp b a ≡ flip (cmp a b)
  pub cmp_refl : (a : K) → cmp a a ≡ eq
  pub cmp_same : (a b c : K) → cmp a b ≡ eq → cmp a c ≡ cmp b c
  pub lt_trans : (a b c : K) → cmp a b ≡ lt → cmp b c ≡ lt → cmp a c ≡ lt

pub compare-flip : (a b : ℕ) → compare b a ≡ flip (compare a b)
compare-flip a b = ground arith

pub compare_refl : (a : ℕ) → compare a a ≡ eq
compare_refl a = ground arith

pub compare_same : (a b c : ℕ) → compare a b ≡ eq → compare a c ≡ compare b c
compare_same a b c h = ground arith

pub compare_trans : (a b c : ℕ) → compare a b ≡ lt → compare b c ≡ lt → compare a c ≡ lt
compare_trans a b c h k = ground arith

-- Numbers, with the order of the numbers.
abbrev pub nat_comparator : Comparator ℕ
nat_comparator = record {
  cmp = compare;
  cmp_flip = compare-flip;
  cmp_refl = compare_refl;
  cmp_same = compare_same;
  lt_trans = compare_trans;
}
