-- ===== src/Base/Tests.antt =====
-- Boolean tests on the native numbers, the conditional, and case lemmas on computed values.
use Prim.Native.Nat.{ℕ, zero, suc, ◌<◌, compare, Ordering}
use mathlib.Core.Path.{◌≡◌, refl}
use mathlib.Core.Logic.{◌↔◌, ◌⊎◌, inl, inr}
use mathlib.Core.Bool.{Bool, true, false, ◌&&◌}
use mathlib.Core.Option.{Option, none, some}
use native.Mathlib.Omega.{arith}

abbrev pub ltb : ℕ → ℕ → Bool
ltb a b = elim (compare a b) [ Ordering.lt ↦ true | _ ↦ false ]

abbrev pub leb : ℕ → ℕ → Bool
leb a b = elim (compare a b) [ Ordering.gt ↦ false | _ ↦ true ]

infix 50 ◌==◌
abbrev pub ◌==◌ : ℕ → ℕ → Bool
a == b = elim (compare a b) [ Ordering.eq ↦ true | _ ↦ false ]

infix 1 if◌then◌else◌
abbrev pub if◌then◌else◌ {ℓ} : {A : Type ℓ} → Bool → A → A → A
if true then x else y = x
if false then x else y = y

pub ==_iff : (a b : ℕ) → ((a == b) ≡ true) ↔ (a ≡ b)
==_iff a b = ground arith

pub Bool-cases : (b : Bool) → (b ≡ true) ⊎ (b ≡ false)
Bool-cases true = inl refl
Bool-cases false = inr refl

pub Option-cases {ℓ} : {A : Type ℓ} (o : Option A) → (o ≡ none) ⊎ ((a : A) × (o ≡ some a))
Option-cases none = inl refl
Option-cases (some a) = inr (a, refl)

-- A test that is passed by each number under a bound, checked by evaluation.
unfoldable pub each_below : ℕ → (ℕ → Bool) → Bool
each_below (suc bound) test = each_below bound test && test bound
each_below zero test = true

pub each_below_sound :
    (bound : ℕ) (test : ℕ → Bool) (value : ℕ) (passed : each_below bound test ≡ true)
    → value < bound
    → test value ≡ true
unfolding each_below
each_below_sound (suc bound) test value passed under =
    ground (arith, each_below_sound bound test value)
each_below_sound zero test value passed under = absurd (omega (arith, under))

-- An optional number that is there.
abbrev pub is_just : ℕ → Option ℕ → Bool
is_just n none = false
is_just n (some m) = m == n

pub is_just_sound : (n : ℕ) (o : Option ℕ) → is_just n o ≡ true → o ≡ some n
is_just_sound n none e = ground arith
is_just_sound n (some m) e = ground arith
