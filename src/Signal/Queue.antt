-- ===== src/Signal/Queue.antt =====
-- `Queue` of signal/queue.go. Each method holds the lock throughout, so it is one step.
pub mod Fifo
pub mod Slice
use mt5_bridge.Prelude.{
  ℕ, ◌≡◌, refl, List, [], ◌∷◌, ◌++◌, Option, none, some, arith, length, Bool, true, false,
}

-- Oldest first.
pub record Queue {ℓ} (A : Type ℓ) : Type ℓ where
  pub signals : List A

module _ {ℓ} {A : Type ℓ} where
  unfoldable pub empty : Queue A
  empty = record { signals = [] }

  unfoldable pub push : Queue A → A → Queue A
  push q s = record q { signals = q.signals ++ s ∷ [] }

  pop_from : List A → Option A × Queue A
  pop_from [] = (none, record { signals = [] })
  pop_from (s ∷ rest) = (some s, record { signals = rest })

  -- `none` is the Go result `(Signal{}, false)`.
  unfoldable pub pop : Queue A → Option A × Queue A
  unfolding pop_from
  pop q = pop_from q.signals

  unfoldable pub drain : Queue A → List A × Queue A
  drain q = (q.signals, record q { signals = [] })

  unfoldable pub size : Queue A → ℕ
  size q = length q.signals

  unfoldable pub clear : Queue A → Queue A
  clear q = record q { signals = [] }
