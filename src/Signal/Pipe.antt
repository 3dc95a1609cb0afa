-- ===== src/Signal/Pipe.antt =====
-- The text form `action|side|symbol|lot|price|sl|tp|magic|pnl|comment`, as cmd/tcp/main.go and
-- cmd/http/main.go read it.
pub mod Fields
pub mod Panics
use mt5_bridge.Prelude.{ℕ, String, Option, none, some, List, [], ◌∷◌, get_elem?}
use mt5_bridge.Go.Int.{ℤ, pos}
use mt5_bridge.Go.Text.{split, trim_space}
use mt5_bridge.Go.Float.{Float64}
use mt5_bridge.Signal.{Signal, Conversions}

-- What reading a line does: Go panics on an index out of range.
pub data Reading (F : Type 0) : Type 0 where
  panics : Reading F
  rejected : Reading F
  parsed : Signal F → Reading F

-- The parts of a line.
unfoldable pub pipe_parts : String → List String
pipe_parts raw = split b'|' (trim_space raw)

unfoldable pub text_at : List String → ℕ → String
text_at parts i = elim (get_elem? parts i) [ none ↦ "" | some p ↦ p ]

module _ {F : Type 0} ⦃fl : Float64 F⦄ (cv : Conversions F) where
  -- `if len(parts) > i { fmt.Sscanf(parts[i], "%f", &x) }` for a field that is still zero.
  unfoldable pub float_at : List String → ℕ → F
  float_at parts i = elim (get_elem? parts i) [
    | none ↦ fl.hundredths 0
    | some p ↦ elim (cv.scan_float p) [ none ↦ fl.hundredths 0 | some x ↦ x ]
  ]

  unfoldable pub int_at : List String → ℕ → ℤ
  int_at parts i = elim (get_elem? parts i) [
    | none ↦ pos 0
    | some p ↦ elim (cv.scan_int p) [ none ↦ pos 0 | some x ↦ x ]
  ]

  unfoldable pub read_parts : ℕ → List String → Reading F
  unfolding float_at int_at text_at
  read_parts now [] = rejected
  read_parts now (action ∷ []) = rejected
  read_parts now (action ∷ side ∷ []) = panics
  read_parts now (action ∷ side ∷ symbol ∷ rest) =
      let parts = action ∷ side ∷ symbol ∷ rest in
      parsed (record {
        account_id = "";
        action = action;
        side = side;
        symbol = symbol;
        lot = float_at parts 3;
        price = float_at parts 4;
        sl = float_at parts 5;
        tp = float_at parts 6;
        magic = int_at parts 7;
        pnl = float_at parts 8;
        comment = text_at parts 9;
        time = now;
      })

  -- `parsePipe` of the TCP bridge.
  unfoldable pub parse_pipe : ℕ → String → Reading F
  unfolding read_parts
  parse_pipe now raw = read_parts now (pipe_parts raw)
