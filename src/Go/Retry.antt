-- ===== src/Go/Retry.antt =====
-- A loop that tries something until it succeeds, with so many tries left.
use mt5_bridge.Prelude.{
  ℕ, zero, suc, ◌+◌, ◌≤◌, ◌<◌, ◌≡◌, refl, Bool, true, false, Option, none, some, if◌then◌else◌,
  arith, nat_eq, Bool-cases, inl, inr,
}

-- The number of the first try from `i` on that succeeds.
unfoldable pub retry : ℕ → ℕ → (ℕ → Bool) → Option ℕ
retry zero i succeeds = none
retry (suc left) i succeeds =
    let later = retry left (suc i) succeeds in if succeeds i then some i else later

-- The number is that of the first success.
abbrev pub IsFirst : ℕ → (ℕ → Bool) → ℕ → Type 0
IsFirst i succeeds n =
    (i ≤ n) × ((succeeds n ≡ true) × ((j : ℕ) → i ≤ j → j < n → succeeds j ≡ false))

retry-now :
    (left i : ℕ) (succeeds : ℕ → Bool)
    → succeeds i ≡ true
    → 0 < left
    → retry left i succeeds ≡ some i
unfolding retry
retry-now zero i succeeds now l = ground arith
retry-now (suc left) i succeeds now l = rw (now) refl

retry-later :
    (left i m : ℕ) (succeeds : ℕ → Bool)
    → succeeds i ≡ false
    → 0 < left
    → ((k : ℕ) → suc k ≡ left → retry k (suc i) succeeds ≡ some m)
    → retry left i succeeds ≡ some m
unfolding retry
retry-later zero i m succeeds fails l h = ground arith
retry-later (suc left) i m succeeds fails l h = rw (fails) (h left refl)

-- What is found from `i` on.
abbrev pub Found : ℕ → ℕ → (ℕ → Bool) → Type 0
Found d i succeeds =
    (m : ℕ) × (IsFirst i succeeds m
      × ((m ≤ i + d) × ((left : ℕ) → d < left → retry left i succeeds ≡ some m)))

Found-now : (d i : ℕ) (succeeds : ℕ → Bool) → succeeds i ≡ true → Found d i succeeds
Found-now d i succeeds now = (
  i,
  (
    (omega arith, (now, λ j a l. ground arith)),
    (omega arith, λ left l. retry-now left i succeeds now (omega arith)),
  ),
)

Found-later :
    (d i : ℕ) (succeeds : ℕ → Bool)
    → succeeds i ≡ false
    → Found d (suc i) succeeds
    → Found (suc d) i succeeds
Found-later d i succeeds fails (m, ((low, (s, before)), (high, found))) = (
  m,
  (
    (omega arith, (s, earlier)),
    (
      omega arith,
      λ left l. retry-later left i m succeeds fails (omega arith) λ k e. found k (omega arith),
    ),
  ),
)
  where
    earlier : (j : ℕ) → i ≤ j → j < m → succeeds j ≡ false
    earlier j a l = elim (Bool-cases (nat_eq i j)) [
      | inl e ↦ ground arith
      | inr e ↦ before j (ground arith) l
    ]

-- If the try `d` after `i` succeeds, there is a first one, and enough tries find it.
pub retry-finds : (d i : ℕ) (succeeds : ℕ → Bool) → succeeds (i + d) ≡ true → Found d i succeeds
retry-finds zero i succeeds s = Found-now zero i succeeds (rw (plus_zero i) at s)
  where
    plus_zero : (i : ℕ) → i + 0 ≡ i
    plus_zero i = omega arith
retry-finds (suc d) i succeeds s = elim (Bool-cases (succeeds i)) [
  | inl now ↦ Found-now (suc d) i succeeds now
  | inr fails ↦
      Found-later d i succeeds fails (retry-finds d (suc i) succeeds (rw (shift i d) at s))
]
  where
    shift : (i d : ℕ) → i + suc d ≡ suc i + d
    shift i d = omega arith

-- If no try succeeds, none is found.
pub retry-none :
    (left i : ℕ) (succeeds : ℕ → Bool)
    → ((j : ℕ) → i ≤ j → j < i + left → succeeds j ≡ false)
    → retry left i succeeds ≡ none
unfolding retry
retry-none zero i succeeds h = refl
retry-none (suc left) i succeeds h =
    rw (h i (omega arith) (omega arith))
      (retry-none left (suc i) succeeds (λ j a b. h j (omega arith) (omega arith)))
