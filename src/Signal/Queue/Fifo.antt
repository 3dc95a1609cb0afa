-- ===== src/Signal/Queue/Fifo.antt =====
-- The order in which the queue gives its signals back.
use mathlib.Core.List.{append-nil, append_assoc, Sublist, nil-sublist}
use mathlib.Core.List.Sublist
use mt5_bridge.Prelude.{◌≡◌, ap, sym, ◌∙◌, List, [], ◌∷◌, ◌++◌, Option, none, some}
use mt5_bridge.Signal.Queue.{Queue, push, pop, drain, clear}

pub data Op {ℓ} (A : Type ℓ) : Type ℓ where
  pushes : A → Op A
  pops drains clears : Op A

module _ {ℓ} {A : Type ℓ} where
  abbrev delivered : Option A × Queue A → List A × Queue A
  delivered (none, q) = ([], q)
  delivered (some s, q) = (s ∷ [], q)

  -- One call: the signals that it returns, and the queue after it.
  unfoldable pub step : Op A → Queue A → List A × Queue A
  unfolding push pop drain clear
  step (pushes s) q = ([], push q s)
  step pops q = delivered (pop q)
  step drains q = drain q
  step clears q = ([], clear q)

  unfoldable pub run : List (Op A) → Queue A → List A × Queue A
  unfolding step
  run [] q = ([], q)
  run (op ∷ ops) q = let (out, q') = step op q in let (rest, q'') = run ops q' in (out ++ rest, q'')

  -- What the calls put in, in their order.
  abbrev pub pushed : List (Op A) → List A
  pushed [] = []
  pushed (pushes s ∷ ops) = s ∷ pushed ops
  pushed (_ ∷ ops) = pushed ops

  abbrev pub HasNoClear : List (Op A) → Type 0
  HasNoClear [] = Unit
  HasNoClear (clears ∷ ops) = ⊥
  HasNoClear (_ ∷ ops) = HasNoClear ops

  run_from-fifo :
      (ops : List (Op A)) (xs : List A)
      → HasNoClear ops
      → let (out, q) = run ops (record { signals = xs }) in out ++ q.signals ≡ xs ++ pushed ops
  unfolding run
  run_from-fifo [] xs h = sym (append-nil xs)
  run_from-fifo (pushes s ∷ ops) xs h =
      run_from-fifo ops (xs ++ s ∷ []) h ∙ append_assoc xs (s ∷ []) (pushed ops)
  run_from-fifo (pops ∷ ops) [] h = run_from-fifo ops [] h
  run_from-fifo (pops ∷ ops) (x ∷ xs) h = ap (◌∷◌ x) (run_from-fifo ops xs h)
  run_from-fifo (drains ∷ ops) xs h = append_assoc xs _ _ ∙ ap (◌++◌ xs) (run_from-fifo ops [] h)
  run_from-fifo (clears ∷ ops) xs h = absurd h

  -- Without a `Clear`, what the calls return, followed by what is left, is what was there and what
  -- was pushed, in that order.
  pub run-fifo :
      (ops : List (Op A)) (q : Queue A)
      → HasNoClear ops
      → (run ops q).0 ++ (run ops q).1.signals ≡ q.signals ++ pushed ops
  run-fifo ops q h = run_from-fifo ops q.signals h

  run_from-sublist :
      (ops : List (Op A)) (xs : List A)
      → let (out, q) = run ops (record { signals = xs }) in
        Sublist (out ++ q.signals) (xs ++ pushed ops)
  unfolding run
  run_from-sublist [] xs = rw (append-nil xs) (Sublist.refl xs)
  run_from-sublist (pushes s ∷ ops) xs =
      rw (← append_assoc xs (s ∷ []) (pushed ops)) (run_from-sublist ops (xs ++ s ∷ []))
  run_from-sublist (pops ∷ ops) [] = run_from-sublist ops []
  run_from-sublist (pops ∷ ops) (x ∷ xs) = Sublist.cons-cons x (run_from-sublist ops xs)
  run_from-sublist (drains ∷ ops) xs =
      rw (append_assoc xs _ _) (Sublist.append (Sublist.refl xs) (run_from-sublist ops []))
  run_from-sublist (clears ∷ ops) xs = Sublist.append (nil-sublist xs) (run_from-sublist ops [])

  -- Whatever the calls, what they return, followed by what is left, comes in order from what was
  -- there and what was pushed, each signal once at most.
  pub run-sublist :
      (ops : List (Op A)) (q : Queue A)
      → Sublist ((run ops q).0 ++ (run ops q).1.signals) (q.signals ++ pushed ops)
  run-sublist ops q = run_from-sublist ops q.signals
