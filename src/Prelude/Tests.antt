-- ===== src/Prelude/Tests.antt =====
-- Boolean tests on the native numbers, the conditional, and case splits that keep the equation.
use Prim.Native.Nat.{ℕ, compare, Ordering}
use mathlib.Core.Path.{◌≡◌, refl}
use mathlib.Core.Logic.{◌⊎◌, inl, inr}
use mathlib.Core.Bool.{Bool, true, false}
use mathlib.Core.Option.{Option, none, some}
use native.Mathlib.Omega.{arith}

abbrev pub ltb : ℕ → ℕ → Bool
ltb a b = elim (compare a b) [ Ordering.lt ↦ true | _ ↦ false ]

abbrev pub leb : ℕ → ℕ → Bool
leb a b = elim (compare a b) [ Ordering.gt ↦ false | _ ↦ true ]

abbrev pub nat_eq : ℕ → ℕ → Bool
nat_eq a b = elim (compare a b) [ Ordering.eq ↦ true | _ ↦ false ]

infix 1 if◌then◌else◌
abbrev pub if◌then◌else◌ {ℓ} : {A : Type ℓ} → Bool → A → A → A
if true then x else y = x
if false then x else y = y

abbrev pub one_if : Bool → ℕ
one_if true = 1
one_if false = 0

pub Bool-cases : (b : Bool) → (b ≡ true) ⊎ (b ≡ false)
Bool-cases true = inl refl
Bool-cases false = inr refl

-- What holds of both branches holds of the conditional.
pub if-both {ℓ} :
    {A : Type 0} (P : A → Type ℓ) (b : Bool) {x y : A} → P x → P y → P (if b then x else y)
if-both P true p q = p
if-both P false p q = q

-- The same, where each branch may use how the test came out.
pub if-cases {ℓ} :
    {A : Type 0} (P : A → Type ℓ) (b : Bool) {x y : A}
    → (b ≡ true → P x)
    → (b ≡ false → P y)
    → P (if b then x else y)
if-cases P true p q = p refl
if-cases P false p q = q refl

module _ {ℓ} {A : Type ℓ} where
  pub Option-cases : (o : Option A) → (o ≡ none) ⊎ ((a : A) × (o ≡ some a))
  Option-cases none = inl refl
  Option-cases (some a) = inr (a, refl)

  abbrev pub is_some : Option A → Bool
  is_some none = false
  is_some (some a) = true

  pub some_injective : {x y : A} → some x ≡ some y → x ≡ y
  some_injective e = cc

-- What fails has no result.
pub absurd-none {ℓ κ} : {A : Type ℓ} {P : Type κ} {y : A} → none ≡ some y → P
absurd-none {A} e = elim (none_is e) [ ]
  where
    none_is : {y : A} → none ≡ some y → ⊥
    none_is e = ground arith

module _ {ℓ κ} {A : Type ℓ} {B : Type κ} where
  -- The first step that fails ends the sequence.
  abbrev pub and_then : Option A → (A → Option B) → Option B
  and_then none f = none
  and_then (some a) f = f a

  -- When a sequence gives a result, each of its steps has.
  pub and_then-some :
      (o : Option A) (f : A → Option B) (b : B)
      → and_then o f ≡ some b
      → (a : A) × ((o ≡ some a) × (f a ≡ some b))
  and_then-some none f b e = absurd-none e
  and_then-some (some a) f b e = (a, (refl, e))
