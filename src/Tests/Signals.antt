-- ===== src/Tests/Signals.antt =====
-- Examples for the queue, the text form, the lots and the distribution.
use mt5_bridge.Prelude.{ℕ, ◌≡◌, refl, true, List, [], ◌∷◌, ◌++◌, arith}
use mt5_bridge.Go.Int.{pos}
use mt5_bridge.Go.Text.{trim_space}
use mt5_bridge.Go.Text.SplitJoin.{join}
use mt5_bridge.Signal.Queue.{Queue}
use mt5_bridge.Signal.Queue.Fifo.{Op, pushes, pops, drains, run, run-fifo}
use mt5_bridge.Signal.Queue.Slice.{IsSlice, queue_of, slice_run}
use mt5_bridge.Signal.Queue.Slice.Refines.{slice_run-run}
use mt5_bridge.Signal.Pipe.{parsed, parse_pipe}
use mt5_bridge.Signal.Pipe.Fields.{fields, parse_pipe-fields}
use mt5_bridge.Lot.{min_lot, max_lot, rounded_lot, calculate_lot}
use mt5_bridge.Lot.Bounds.{calculate_lot_bounds, calculate_lot_mono}
use mt5_bridge.Tests.Fixtures.{cents, cents-IsOrdered, cents-IsMonotone, conversions}

abbrev calls : List (Op ℕ)
calls = pushes 7 ∷ pops ∷ pushes 8 ∷ drains ∷ pushes 9 ∷ []

abbrev old_queue : Queue ℕ
old_queue = record { signals = 5 ∷ 6 ∷ [] }

run-fifo_example :
    (run calls old_queue).0 ++ (run calls old_queue).1.signals ≡ 5 ∷ 6 ∷ 7 ∷ 8 ∷ 9 ∷ []
run-fifo_example = run-fifo calls old_queue tt

-- Two signals in an array of three cells; the third push has to grow it.
slice_run-run_example :
    let (out, s) =
      slice_run
        (λ n. 0 ∷ 0 ∷ [])
        (pushes 7 ∷ pushes 8 ∷ calls)
        (record { cells = 5 ∷ 6 ∷ 1 ∷ []; len = 2 }) in
    IsSlice s
    × ((out ≡ (run (pushes 7 ∷ pushes 8 ∷ calls) old_queue).0)
        × (queue_of s ≡ (run (pushes 7 ∷ pushes 8 ∷ calls) old_queue).1))
slice_run-run_example =
    slice_run-run (λ n. 0 ∷ 0 ∷ []) (pushes 7 ∷ pushes 8 ∷ calls)
      (record { cells = 5 ∷ 6 ∷ 1 ∷ []; len = 2 }) (omega arith)

parse_pipe-fields_example :
    parse_pipe conversions 3
      (join "|" "OPEN" (fields "BUY" "XAUUSD" "0.5" "x" "7" "7" "7" "0.5" "hi"))
    ≡ parsed (record {
      account_id = "";
      action = "OPEN";
      side = "BUY";
      symbol = "XAUUSD";
      lot = 50;
      sl = 700;
      tp = 700;
      price = 0;
      magic = pos 7;
      pnl = 50;
      comment = "hi";
      time = 3;
    })
unfolding trim_space
parse_pipe-fields_example =
    parse_pipe-fields conversions 3 "OPEN" "BUY" "XAUUSD" "0.5" "x" "7" "7" "7" "0.5" "hi" refl
      (ground arith) (ground arith)

calculate_lot_bounds_example :
    (cents.le min_lot (calculate_lot 50 700) ≡ true)
    × (cents.le (calculate_lot 50 700) max_lot ≡ true)
unfolding rounded_lot
calculate_lot_bounds_example = calculate_lot_bounds cents-IsOrdered 50 700 refl

calculate_lot_mono_example : cents.le (calculate_lot 50 100) (calculate_lot 50 700) ≡ true
unfolding rounded_lot
calculate_lot_mono_example =
    calculate_lot_mono cents-IsOrdered cents-IsMonotone 50 100 700 refl refl refl refl refl refl
      refl refl
