-- ===== src/Prelude/Lists.antt =====
-- Lists counted by native numbers and searched by Boolean tests.
use Prim.Native.Nat.{ℕ, zero, suc, ◌+◌}
use mathlib.Core.Path.{◌≡◌, refl, sym, ap}
use mathlib.Core.Logic.{◌≢◌}
use mathlib.Core.Bool.{Bool, true, false, ◌||◌}
use mathlib.Core.Option.{Option, none, some}
use mathlib.Core.List.{List, [], ◌∷◌, ◌++◌}
use native.Mathlib.Omega.{arith}
use mt5_bridge.Prelude.Tests.{if◌then◌else◌, one_if, some_injective, absurd-none}

module _ {ℓ} {A : Type ℓ} where
  abbrev pub length : List A → ℕ
  length [] = 0
  length (x ∷ xs) = suc (length xs)

  abbrev pub get_elem? : List A → ℕ → Option A
  get_elem? [] i = none
  get_elem? (x ∷ xs) zero = some x
  get_elem? (x ∷ xs) (suc i) = get_elem? xs i

  abbrev pub take : ℕ → List A → List A
  take zero xs = []
  take (suc n) [] = []
  take (suc n) (x ∷ xs) = x ∷ take n xs

  -- The element at an index is replaced; out of range nothing is.
  unfoldable pub set_at : ℕ → A → List A → List A
  set_at i y [] = []
  set_at zero y (x ∷ xs) = y ∷ xs
  set_at (suc i) y (x ∷ xs) = x ∷ set_at i y xs

  pub length-append : (xs ys : List A) → length (xs ++ ys) ≡ length xs + length ys
  length-append [] ys = omega arith
  length-append (x ∷ xs) ys = omega (arith, length-append xs ys)

module _ {ℓ} {A : Type ℓ} (p : A → Bool) where
  unfoldable pub find : List A → Option A
  find [] = none
  find (x ∷ xs) = if p x then some x else find xs

  unfoldable pub filter : List A → List A
  filter [] = []
  filter (x ∷ xs) = let rest = filter xs in if p x then x ∷ rest else rest

  unfoldable pub any : List A → Bool
  any [] = false
  any (x ∷ xs) = p x || any xs

  unfoldable pub count : List A → ℕ
  count [] = 0
  count (x ∷ xs) = let rest = count xs in if p x then suc rest else rest

  -- The rows that pass the test are replaced.
  unfoldable pub update_where : (A → A) → List A → List A
  update_where f [] = []
  update_where f (x ∷ xs) = (if p x then f x else x) ∷ update_where f xs

module _ {ℓ} {A : Type ℓ} where
  pub find-append :
      (p : A → Bool) (xs : List A) (y : A)
      → find p (xs ++ y ∷ [])
        ≡ elim (find p xs) [ none ↦ if p y then some y else none | some x ↦ some x ]
  unfolding find
  find-append p [] y = refl
  find-append p (x ∷ xs) y = ground (arith, find-append p xs y)

  pub any-append : (p : A → Bool) (xs : List A) (y : A) → any p (xs ++ y ∷ []) ≡ (any p xs || p y)
  unfolding any
  any-append p [] y = ground arith
  any-append p (x ∷ xs) y = ground (arith, any-append p xs y)

  -- A row that `find` returns passes the test.
  pub find-passes : (p : A → Bool) (xs : List A) (y : A) → find p xs ≡ some y → p y ≡ true
  unfolding find
  find-passes p [] y h = ground arith
  find-passes p (x ∷ xs) y h = ground (arith, find-passes p xs y)

  abbrev pub All {κ} : (A → Type κ) → List A → Type κ
  All P [] = Unit
  All P (x ∷ xs) = P x × All P xs

  pub All-append {κ} : (P : A → Type κ) (xs ys : List A) → All P xs → All P ys → All P (xs ++ ys)
  All-append P [] ys h k = k
  All-append P (x ∷ xs) ys (p, h) k = (p, All-append P xs ys h k)

  -- A property of what stands at an index, if anything does, is kept by a replacement that keeps it.
  pub get_elem?-set_at {κ} :
      (P : Option A → Type κ) (i j : ℕ) (x y : A) (xs : List A)
      → get_elem? xs j ≡ some x
      → (P (some x) → P (some y))
      → P (get_elem? xs i)
      → P (get_elem? (set_at j y xs) i)
  unfolding set_at
  get_elem?-set_at P i j x y [] e k p = p
  get_elem?-set_at P zero zero x y (z ∷ zs) e k p = k (rw (sym e) p)
  get_elem?-set_at P zero (suc j) x y (z ∷ zs) e k p = p
  get_elem?-set_at P (suc i) zero x y (z ∷ zs) e k p = p
  get_elem?-set_at P (suc i) (suc j) x y (z ∷ zs) e k p = get_elem?-set_at P i j x y zs e k p

  pub get_elem?-append {κ} :
      (P : Option A → Type κ) (i : ℕ) (y : A) (xs : List A)
      → (P none → P (some y))
      → P (get_elem? xs i)
      → P (get_elem? (xs ++ y ∷ []) i)
  get_elem?-append P zero y [] k p = k p
  get_elem?-append P (suc i) y [] k p = p
  get_elem?-append P zero y (x ∷ xs) k p = p
  get_elem?-append P (suc i) y (x ∷ xs) k p = get_elem?-append P i y xs k p

  pub get_elem?-set_at_same :
      (i : ℕ) (x y : A) (xs : List A)
      → get_elem? xs i ≡ some x
      → get_elem? (set_at i y xs) i ≡ some y
  unfolding set_at
  get_elem?-set_at_same i x y [] e = ground arith
  get_elem?-set_at_same zero x y (z ∷ zs) e = refl
  get_elem?-set_at_same (suc i) x y (z ∷ zs) e = get_elem?-set_at_same i x y zs e

  pub get_elem?-set_at_other :
      (i j : ℕ) (y : A) (xs : List A) → i ≢ j → get_elem? (set_at j y xs) i ≡ get_elem? xs i
  unfolding set_at
  get_elem?-set_at_other i j y [] ne = refl
  get_elem?-set_at_other zero zero y (z ∷ zs) ne = absurd (ne refl)
  get_elem?-set_at_other zero (suc j) y (z ∷ zs) ne = refl
  get_elem?-set_at_other (suc i) zero y (z ∷ zs) ne = refl
  get_elem?-set_at_other (suc i) (suc j) y (z ∷ zs) ne =
      get_elem?-set_at_other i j y zs (λ e. ne (ap suc e))

  -- A replacement changes a count by what the two elements count.
  pub count-set_at :
      (p : A → Bool) (i : ℕ) (x y : A) (xs : List A)
      → get_elem? xs i ≡ some x
      → count p (set_at i y xs) + one_if (p x) ≡ count p xs + one_if (p y)
  unfolding set_at count
  count-set_at p i x y [] e = ground arith
  count-set_at p zero x y (z ∷ zs) e = rw (some_injective e) (counted (p x) (p y) (count p zs))
    where
      counted :
          (b c : Bool) (n : ℕ)
          → (if c then suc n else n) + one_if b ≡ (if b then suc n else n) + one_if c
      counted b c n = ground arith
  count-set_at p (suc i) x y (z ∷ zs) e = ground (arith, count-set_at p i x y zs e)

  pub count-append :
      (p : A → Bool) (xs : List A) (y : A) → count p (xs ++ y ∷ []) ≡ count p xs + one_if (p y)
  unfolding count
  count-append p [] y = ground arith
  count-append p (x ∷ xs) y = ground (arith, count-append p xs y)

  -- Where nothing is counted, no element passes.
  pub count-zero :
      (p : A → Bool) (i : ℕ) (x : A) (xs : List A)
      → count p xs ≡ 0
      → get_elem? xs i ≡ some x
      → p x ≡ false
  unfolding count
  count-zero p i x [] n e = absurd-none e
  count-zero p zero x (z ∷ zs) n e = rw (sym (some_injective e)) (ground (arith, n))
  count-zero p (suc i) x (z ∷ zs) n e = count-zero p i x zs (ground (arith, n)) e
