-- ===== src/Signal/Queue/Slice/Refines.antt =====
-- The slice gives what the queue gives.
use mt5_bridge.Prelude.{
  ℕ, zero, suc, ◌≤◌, ◌<◌, ◌≡◌, refl, ap, ◌∙◌, true, List, [], ◌∷◌, ◌++◌, length, length-append,
  take, set_at, ltb, Bool-cases, inl, inr, arith,
}
use mt5_bridge.Signal.Queue.{Queue, push, pop, pop_from, drain, clear}
use mt5_bridge.Signal.Queue.Fifo.{Op, pushes, pops, drains, clears, step, run}
use mt5_bridge.Signal.Queue.Slice.{
  Slice, IsSlice, queue_of, slice_clear, slice_drain, slice_pop, pop_cell, slice_push, slice_step,
  slice_run,
}

below : (n m : ℕ) → ltb n m ≡ true → n < m
below n m h = ground arith

module _ {ℓ} {A : Type ℓ} where
  length-set_at : (i : ℕ) (x : A) (xs : List A) → length (set_at i x xs) ≡ length xs
  unfolding set_at
  length-set_at i x [] = refl
  length-set_at zero x (y ∷ ys) = refl
  length-set_at (suc i) x (y ∷ ys) = ap suc (length-set_at i x ys)

  length-take : (n : ℕ) (xs : List A) → n ≤ length xs → length (take n xs) ≡ n
  length-take zero xs h = refl
  length-take (suc n) [] h = ground arith
  length-take (suc n) (x ∷ xs) h = ap suc (length-take n xs (omega arith))

  take-set_at :
      (n : ℕ) (x : A) (xs : List A)
      → n < length xs
      → take (suc n) (set_at n x xs) ≡ take n xs ++ x ∷ []
  unfolding set_at
  take-set_at n x [] h = ground arith
  take-set_at zero x (y ∷ ys) h = refl
  take-set_at (suc n) x (y ∷ ys) h = ap (◌∷◌ y) (take-set_at n x ys (omega arith))

  take-append :
      (n : ℕ) (x : A) (xs more : List A)
      → n ≤ length xs
      → take (suc n) (take n xs ++ x ∷ more) ≡ take n xs ++ x ∷ []
  take-append zero x xs more h = refl
  take-append (suc n) x [] more h = ground arith
  take-append (suc n) x (y ∷ ys) more h = ap (◌∷◌ y) (take-append n x ys more (omega arith))

  -- A slice in its array, for the queue.
  Stands : List A × Slice A → List A × Queue A → Type ℓ
  Stands (out, s) (out', q) = IsSlice s × ((out ≡ out') × (queue_of s ≡ q))

  abbrev as_queue : List A → Queue A
  as_queue xs = record { signals = xs }

  push-Stands :
      (spare : ℕ → List A) (x : A) (s : Slice A)
      → IsSlice s
      → Stands ([], slice_push spare s x) ([], push (queue_of s) x)
  unfolding Stands slice_push push
  push-Stands spare x s h = elim (Bool-cases (ltb s.len (length s.cells))) [
    | inl r ↦
        let room = below s.len (length s.cells) r in
        rw (r) (
          omega (arith, length-set_at s.len x s.cells, room),
          (refl, ap as_queue (take-set_at s.len x s.cells room)),
        )
    | inr r ↦ rw (r) (
      omega (
        arith,
        length-append (take s.len s.cells) (x ∷ spare s.len),
        length-take s.len s.cells h,
      ),
      (refl, ap as_queue (take-append s.len x s.cells (spare s.len) h)),
    )
  ]

  pop-Stands :
      (spare : ℕ → List A) (n : ℕ) (cells : List A)
      → n ≤ length cells
      → Stands
          (slice_step spare pops (record { cells = cells; len = n }))
          (step pops (as_queue (take n cells)))
  unfolding Stands slice_step step slice_pop pop_cell pop pop_from
  pop-Stands spare zero cells h = (omega arith, (refl, refl))
  pop-Stands spare (suc n) [] h = ground arith
  pop-Stands spare (suc n) (x ∷ cells) h = (omega arith, (refl, refl))

  step-Stands :
      (spare : ℕ → List A) (op : Op A) (s : Slice A)
      → IsSlice s
      → Stands (slice_step spare op s) (step op (queue_of s))
  unfolding Stands slice_step step slice_drain drain slice_clear clear
  step-Stands spare (pushes x) s h = push-Stands spare x s h
  step-Stands spare pops s h = pop-Stands spare s.len s.cells h
  step-Stands spare drains s h = (omega arith, (refl, refl))
  step-Stands spare clears s h = (omega arith, (refl, refl))

  -- From a slice that is within its array, whatever the calls and whatever spare cells the runtime
  -- gives a grown array, the slice gives back exactly the signals that the queue of its elements
  -- gives back, and ends as that queue, within its array.
  pub slice_run-run :
      (spare : ℕ → List A) (ops : List (Op A)) (s : Slice A)
      → IsSlice s
      → let (out, s') = slice_run spare ops s in
        IsSlice s' × ((out ≡ (run ops (queue_of s)).0) × (queue_of s' ≡ (run ops (queue_of s)).1))
  unfolding slice_run run Stands
  slice_run-run spare [] s h = (h, (refl, refl))
  slice_run-run spare (op ∷ ops) s h =
      let (in_array, (same, now)) = step-Stands spare op s h in
      let (in_array', (rest, later)) = slice_run-run spare ops (slice_step spare op s).1 in_array in
      (
        in_array',
        (
          ap (λ x. x ++ (slice_run spare ops (slice_step spare op s).1).0) same
              ∙ ap (λ x. (step op (queue_of s)).0 ++ x) (rest ∙ ap (λ q. (run ops q).0) now),
          later ∙ ap (λ q. (run ops q).1) now,
        ),
      )
