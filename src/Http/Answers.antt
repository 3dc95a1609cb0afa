-- ===== src/Http/Answers.antt =====
-- What the handlers answer, and what they leave in the queue.
use mathlib.Core.List.{append-nil}
use mt5_bridge.Prelude.{ℕ, String, ◌≡◌, ◌↔◌, true, Option, none, some, [], ◌∷◌, ◌++◌, arith, ◌==◌}
use mt5_bridge.Go.Float.{Float64}
use mt5_bridge.Signal.{Signal, Conversions}
use mt5_bridge.Signal.Queue
use mt5_bridge.Signal.Queue.{Queue}
use mt5_bridge.Signal.Parse.{parse_signal}
use mt5_bridge.Signal.Pipe.{pipe_parts, parse_pipe}
use mt5_bridge.Signal.Pipe.Panics.{read_parts-panics}
use mt5_bridge.Http.{Response, handle_signal, handle_raw, raw_reading}

abbrev pub status_of : {F : Type 0} → Option (Response F) → Option ℕ
status_of none = none
status_of (some r) = some r.status

module _ {F : Type 0} ⦃fl : Float64 F⦄ (cv : Conversions F) where
  -- The handler of `/raw` panics exactly if the request is a POST whose body has two parts at `|`.
  pub handle_raw-panics_iff :
      (now : ℕ) (method body : String) (q : Queue (Signal F))
      → ((handle_raw cv now method body q).0 ≡ none) ↔ (
          ((method == "POST") ≡ true)
          × ((action : String) × (side : String) × (pipe_parts body ≡ action ∷ side ∷ [])))
  unfolding handle_raw raw_reading parse_pipe
  handle_raw-panics_iff now method body q = (
    λ e. (ground arith, (read_parts-panics cv now (pipe_parts body)).0 (ground arith)),
    λ p. ground (arith, (read_parts-panics cv now (pipe_parts body)).1 p.1),
  )

  -- The signal of a body: none if it was not read or is no JSON signal.
  abbrev pub signal_in : ℕ → Option String → Option (Signal F)
  signal_in now none = none
  signal_in now (some text) = parse_signal cv now text

  -- Every POST to `/signal` is answered with status 200, also one whose body is not read or is no JSON
  -- signal; the queue gains the signal of the body where there is one, at its end, and is left alone
  -- otherwise.
  pub handle_signal-post :
      (now : ℕ) (body : Option String) (q : Queue (Signal F))
      → (status_of (handle_signal cv now "POST" body q).0 ≡ some 200)
        × ((handle_signal cv now "POST" body q).1.signals
            ≡ q.signals ++ elim (signal_in now body) [ none ↦ [] | some sig ↦ sig ∷ [] ])
  unfolding handle_signal Queue.push
  handle_signal-post now none q = ground (arith, append-nil q.signals)
  handle_signal-post now (some text) q = ground (arith, append-nil q.signals)
