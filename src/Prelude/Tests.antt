-- ===== src/Prelude/Tests.antt =====
-- Boolean tests on the native numbers, the conditional, and checks over a range of values.
use Prim.Native.Nat.{ℕ, zero, suc, ◌<◌, compare, Ordering}
use mathlib.Core.Path.{◌≡◌, refl}
use mathlib.Core.Logic.{◌↔◌, ◌⊎◌, inl, inr}
use mathlib.Core.Bool.{Bool, true, false, ◌&&◌}
use mathlib.Core.Option.{Option, none, some}
use native.Mathlib.Omega.{arith}

abbrev pub ltb : ℕ → ℕ → Bool
ltb a b = elim (compare a b) [ Ordering.lt ↦ true | _ ↦ false ]

abbrev pub leb : ℕ → ℕ → Bool
leb a b = elim (compare a b) [ Ordering.gt ↦ false | _ ↦ true ]

infix 50 ◌==◌
abbrev pub ◌==◌ : ℕ → ℕ → Bool
a == b = elim (compare a b) [ Ordering.eq ↦ true | _ ↦ false ]

infix 1 if◌then◌else◌
abbrev pub if◌then◌else◌ {ℓ} : {A : Type ℓ} → Bool → A → A → A
if true then x else y = x
if false then x else y = y

pub true_not_false : true ≡ false → ⊥
true_not_false e = cc

pub true_and_false : (b : Bool) → b ≡ true → b ≡ false → ⊥
true_and_false b h k = cc

pub ltb_lt : (a b : ℕ) → ltb a b ≡ true → a < b
ltb_lt a b h = ground arith

pub ==_iff : (a b : ℕ) → ((a == b) ≡ true) ↔ (a ≡ b)
==_iff a b = ground arith

pub ==_refl : (a : ℕ) → (a == a) ≡ true
==_refl a = ground arith

-- To split on a computed value and keep the equation.
pub Bool-cases : (b : Bool) → (b ≡ true) ⊎ (b ≡ false)
Bool-cases true = inl refl
Bool-cases false = inr refl

pub Option-cases {ℓ} : {A : Type ℓ} (o : Option A) → (o ≡ none) ⊎ ((a : A) × (o ≡ some a))
Option-cases none = inl refl
Option-cases (some a) = inr (a, refl)

last_or_before : (i bound : ℕ) → i < suc bound → (i ≡ bound) ⊎ (i < bound)
last_or_before i bound p = ground arith

-- A test that holds of each number below a bound: a table of results, checked by evaluation.
unfoldable pub every_below : ℕ → (ℕ → Bool) → Bool
every_below zero test = true
every_below (suc bound) test = every_below bound test && test bound

pub every_below-at :
    (test : ℕ → Bool) (bound : ℕ)
    → every_below bound test ≡ true
    → (i : ℕ) → i < bound
    → test i ≡ true
unfolding every_below
every_below-at test (suc bound) table i below = elim (last_or_before i bound (omega arith)) [
  | inl e ↦ rw (e) (ground arith)
  | inr less ↦ every_below-at test bound (ground arith) i less
]
every_below-at test zero table i below = absurd (omega arith)
