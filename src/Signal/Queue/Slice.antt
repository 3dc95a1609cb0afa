-- ===== src/Signal/Queue/Slice.antt =====
-- The slice that `Queue` of signal/queue.go keeps its signals in: `append` writes into the backing
-- array while there is room, `Pop` moves the start, `Drain` and `Clear` keep the array.
pub mod Refines
use mt5_bridge.Prelude.{
  ℕ, zero, suc, ◌≤◌, Option, none, some, List, [], ◌∷◌, ◌++◌, length, take, set_at, ltb,
  if◌then◌else◌,
}
use mt5_bridge.Signal.Queue.{Queue}
use mt5_bridge.Signal.Queue.Fifo.{Op, pushes, pops, drains, clears}

-- The cells of the array from the start of the slice on, as many as its capacity.
pub record Slice {ℓ} (A : Type ℓ) : Type ℓ where
  pub cells : List A
  pub len : ℕ

module _ {ℓ} {A : Type ℓ} where
  abbrev pub IsSlice : Slice A → Type 0
  IsSlice s = s.len ≤ length s.cells

  -- The queue that the slice stands for.
  abbrev pub queue_of : Slice A → Queue A
  queue_of s = record { signals = take s.len s.cells }

  -- `q.signals[:0]`.
  unfoldable pub slice_clear : Slice A → Slice A
  slice_clear s = record s { len = 0 }

  -- `copy` into a slice of its own, and `q.signals[:0]`.
  unfoldable pub slice_drain : Slice A → List A × Slice A
  unfolding slice_clear
  slice_drain s = (take s.len s.cells, slice_clear s)

  unfoldable pub slice_size : Slice A → ℕ
  slice_size s = s.len

  -- `q.signals[0]` and `q.signals[1:]`. No slice is longer than its array.
  pop_cell : ℕ → List A → Option A × Slice A
  pop_cell zero cells = (none, record { cells = cells; len = 0 })
  pop_cell (suc n) [] = (none, record { cells = []; len = suc n })
  pop_cell (suc n) (x ∷ cells) = (some x, record { cells = cells; len = n })

  unfoldable pub slice_pop : Slice A → Option A × Slice A
  unfolding pop_cell
  slice_pop s = pop_cell s.len s.cells

  module _ (spare : ℕ → List A) where
    -- `append(q.signals, x)`. A full array is copied to a new one, with the spare cells that the
    -- runtime gives it.
    unfoldable pub slice_push : Slice A → A → Slice A
    slice_push s x =
        if ltb s.len (length s.cells)
        then record { cells = set_at s.len x s.cells; len = suc s.len }
        else record { cells = take s.len s.cells ++ x ∷ spare s.len; len = suc s.len }

    abbrev delivered : Option A × Slice A → List A × Slice A
    delivered (none, s) = ([], s)
    delivered (some x, s) = (x ∷ [], s)

    unfoldable pub slice_step : Op A → Slice A → List A × Slice A
    unfolding slice_push slice_pop slice_drain slice_clear
    slice_step (pushes x) s = ([], slice_push s x)
    slice_step pops s = delivered (slice_pop s)
    slice_step drains s = slice_drain s
    slice_step clears s = ([], slice_clear s)

    unfoldable pub slice_run : List (Op A) → Slice A → List A × Slice A
    unfolding slice_step
    slice_run [] s = ([], s)
    slice_run (op ∷ ops) s =
        let (out, s') = slice_step op s in let (rest, s'') = slice_run ops s' in (out ++ rest, s'')
