-- ===== src/Signal.antt =====
-- The package `signal`: a trading signal, its wire form and the conversions of its fields.
pub mod Queue
pub mod Parse
pub mod Pipe
pub mod Logger
use mt5_bridge.Prelude.{ℕ, String, Option}
use mt5_bridge.Go.Int.{ℤ}

-- Times are nanoseconds.
pub record Signal (F : Type 0) : Type 0 where
  pub account_id : String
  pub action : String
  pub side : String
  pub symbol : String
  pub lot : F
  pub sl : F
  pub tp : F
  pub price : F
  pub magic : ℤ
  pub pnl : F
  pub comment : String
  pub time : ℕ

-- A value of Go's type `any`, by the cases that the program tells apart.
pub data Value (F : Type 0) : Type 0 where
  nil : Value F
  float64 : F → Value F
  float32 : F → Value F
  int : ℤ → Value F
  int64 : ℤ → Value F
  text : String → Value F
  other : Value F

pub record RawSignal (F : Type 0) : Type 0 where
  pub account_id : String
  pub action : String
  pub side : String
  pub symbol : String
  pub lot : Value F
  pub sl : Value F
  pub tp : Value F
  pub price : Value F
  pub magic : Value F
  pub pnl : Value F
  pub comment : String

-- Conversions of Go's standard library: `strconv.ParseFloat` and `ParseInt` (their value, whatever
-- the error), `fmt.Sscanf` of "%f" and "%d" (`none`: the variable is left alone), Go's conversions
-- between numbers, `strings.ToUpper`, and `json.Unmarshal` into a `RawSignal`.
pub record Conversions (F : Type 0) : Type 0 where
  pub parse_float : String → F
  pub parse_int : String → ℤ
  pub scan_float : String → Option F
  pub scan_int : String → Option ℤ
  pub float_of_int : ℤ → F
  pub int64_of_float : F → ℤ
  pub to_upper : String → String
  pub unmarshal_signal : String → Option (RawSignal F)
