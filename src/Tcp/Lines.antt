-- ===== src/Tcp/Lines.antt =====
-- What the lines of a connection do to the bridge.
use mathlib.Core.List.{append_assoc, append-nil}
use mt5_bridge.Prelude.{
  ℕ, String, ◌≡◌, refl, ◌≢◌, ◌↔◌, inl, inr, Bool, true, false, not, ◌&&◌, Option, none, some, List,
  [], ◌∷◌, ◌++◌, arith, eq_iff, any, All, if◌then◌else◌, Bool-cases, Option-cases, ◌==◌,
}
use mt5_bridge.Go.Float.{Float64}
use mt5_bridge.Signal.{Signal, Conversions}
use mt5_bridge.Signal.Queue
use mt5_bridge.Signal.Parse.{parse_signal}
use mt5_bridge.Signal.Pipe.{panics, rejected, parsed, pipe_parts, parse_pipe, read_parts}
use mt5_bridge.Signal.Pipe.Panics.{read_parts-panics}
use mt5_bridge.Tcp.{
  Bridge, Effect, distributes, Handled, crashed, handled, process_signal, process_reading,
  handle_line, handle_lines,
}

module _ {F : Type 0} ⦃fl : Float64 F⦄ (cv : Conversions F) where
  -- A line ends the process exactly if it is not empty, is no JSON signal, and has two parts at `|`.
  pub handle_line-crashed_iff :
      (now : ℕ) (b : Bridge F) (line : String)
      → (handle_line cv now b line ≡ crashed) ↔ (
          (line ≢ "")
          × (parse_signal cv now line ≡ none)
          × ((action : String) × (side : String) × (pipe_parts line ≡ action ∷ side ∷ [])))
  unfolding handle_line process_reading process_signal parse_pipe
  handle_line-crashed_iff now b line = (
    λ e. (
      ground (arith, eq_iff line ""),
      ground arith,
      (read_parts-panics cv now (pipe_parts line)).0 (ground arith),
    ),
    λ p. ground (arith, eq_iff line "", (read_parts-panics cv now (pipe_parts line)).1 p.2),
  )

  abbrev pub crashes : ℕ → String → Bool
  crashes now line = not (line == "") && elim (parse_signal cv now line) [
    | some sig ↦ false
    | none ↦ elim (parse_pipe cv now line) [ panics ↦ true | rejected ↦ false | parsed sig ↦ false ]
  ]

  abbrev pub signals_in : ℕ → String → List (Signal F)
  signals_in now line = if line == "" then [] else elim (parse_signal cv now line) [
    | some sig ↦ sig ∷ []
    | none ↦ elim (parse_pipe cv now line) [ panics ↦ [] | rejected ↦ [] | parsed sig ↦ sig ∷ [] ]
  ]

  abbrev pub all_signals : ℕ → List String → List (Signal F)
  all_signals now [] = []
  all_signals now (line ∷ lines) = signals_in now line ++ all_signals now lines

  abbrev pub with_signals : Bridge F → List (Signal F) → Bridge F
  with_signals b sigs = record b { queue = record { signals = b.queue.signals ++ sigs } }

  -- What one line leaves: nothing where it ends the process.
  abbrev pub left_by : Handled F → Option (Bridge F)
  left_by crashed = none
  left_by (handled b effects) = some b

  pub handle_line-left :
      (now : ℕ) (b : Bridge F) (line : String)
      → left_by (handle_line cv now b line)
        ≡ (if crashes now line then none else some (with_signals b (signals_in now line)))
  unfolding handle_line process_reading process_signal Queue.push
  handle_line-left now b line = ground (arith, append-nil b.queue.signals)

  -- The lines of a connection end the process exactly if one of them does; if none does, the queue
  -- has gained the signals of the lines, in their order, and nothing else of the bridge has changed.
  pub handle_lines_lem :
      (now : ℕ) (lines : List String) (b : Bridge F)
      → handle_lines cv now b lines ≡ (
          if any (crashes now) lines
          then none
          else some
              (record b { queue = record { signals = b.queue.signals ++ all_signals now lines } }))
  unfolding handle_lines any
  handle_lines_lem now [] b = ground (arith, append-nil b.queue.signals)
  handle_lines_lem now (line ∷ lines) b = ground (
    arith,
    handle_line-left now b line,
    handle_lines_lem now lines (with_signals b (signals_in now line)),
    append_assoc b.queue.signals (signals_in now line) (all_signals now lines),
  )

  abbrev pub FromJson : ℕ → String → Effect F → Type 0
  FromJson now line (distributes sig) =
      (parse_signal cv now line ≡ some sig) × (sig.account_id ≢ "")
  FromJson now line _ = Unit

  abbrev pub Effects : (Effect F → Type 0) → Handled F → Type 0
  Effects P crashed = Unit
  Effects P (handled b effects) = All P effects

  process_signal-FromJson :
      (now : ℕ) (b : Bridge F) (sig : Signal F) (line : String)
      → (sig.account_id ≢ "" → parse_signal cv now line ≡ some sig)
      → Effects (FromJson now line) (process_signal b sig line)
  unfolding process_signal
  process_signal-FromJson now b sig line h =
      ground (arith, eq_iff sig.account_id "", eq_iff b.relay_host "")

  reading-FromJson :
      (now : ℕ) (b : Bridge F) (line : String) (parts : List String)
      → Effects (FromJson now line) (process_reading cv b line (read_parts cv now parts))
  unfolding process_reading read_parts
  reading-FromJson now b line [] = (tt, tt)
  reading-FromJson now b line (a ∷ []) = (tt, tt)
  reading-FromJson now b line (a ∷ s ∷ []) = tt
  reading-FromJson now b line (a ∷ s ∷ y ∷ rest) =
      process_signal-FromJson now b _ line (λ named. absurd (named refl))

  -- A signal goes to the followers only if the line was a JSON signal that names an account: a line
  -- of the text form is never distributed.
  pub handle_line-FromJson :
      (now : ℕ) (b : Bridge F) (line : String)
      → Effects (FromJson now line) (handle_line cv now b line)
  unfolding handle_line parse_pipe
  handle_line-FromJson now b line = elim (Bool-cases (line == "")) [
    | inl empty ↦ rw empty tt
    | inr full ↦ elim (Option-cases (parse_signal cv now line)) [
      | inl e ↦ rw (full, e, handle_line) (reading-FromJson now b line (pipe_parts line))
      | inr (sig, e) ↦ rw (full, e, handle_line) (process_signal-FromJson now b sig line (λ _. e))
    ]
  ]
