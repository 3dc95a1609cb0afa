-- ===== src/Signal/Parse.antt =====
-- signal/parse.go.
use mt5_bridge.Prelude.{ℕ, String, Option, none, some}
use mt5_bridge.Go.Int.{ℤ, pos}
use mt5_bridge.Go.Text.{trim_space}
use mt5_bridge.Go.Float.{Float64}
use mt5_bridge.Signal.{
  Signal, Value, nil, float64, float32, int, int64, text, other, RawSignal, Conversions,
}

module _ {F : Type 0} ⦃fl : Float64 F⦄ (cv : Conversions F) where
  unfoldable pub parse_float : Value F → F
  parse_float nil = fl.hundredths 0
  parse_float (float64 x) = x
  parse_float (float32 x) = x
  parse_float (int i) = cv.float_of_int i
  parse_float (int64 i) = cv.float_of_int i
  parse_float (text s) = cv.parse_float (trim_space s)
  parse_float other = fl.hundredths 0

  unfoldable pub parse_int : Value F → ℤ
  parse_int nil = pos 0
  parse_int (int i) = i
  parse_int (int64 i) = i
  parse_int (float64 x) = cv.int64_of_float x
  parse_int (float32 x) = cv.int64_of_float x
  parse_int (text s) = cv.parse_int (trim_space s)
  parse_int other = pos 0

  unfoldable pub signal_of : ℕ → RawSignal F → Signal F
  unfolding parse_float parse_int
  signal_of now raw = record {
    account_id = trim_space raw.account_id;
    action = cv.to_upper (trim_space raw.action);
    side = cv.to_upper (trim_space raw.side);
    symbol = cv.to_upper (trim_space raw.symbol);
    lot = parse_float raw.lot;
    sl = parse_float raw.sl;
    tp = parse_float raw.tp;
    price = parse_float raw.price;
    magic = parse_int raw.magic;
    pnl = parse_float raw.pnl;
    comment = trim_space raw.comment;
    time = now;
  }

  -- `none` is a JSON error.
  unfoldable pub parse_signal : ℕ → String → Option (Signal F)
  unfolding signal_of
  parse_signal now line = elim (cv.unmarshal_signal line) [
    | none ↦ none
    | some raw ↦ some (signal_of now raw)
  ]
