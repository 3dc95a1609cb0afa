-- ===== src/Signal/Pipe/Fields.antt =====
-- Reading back a line that was put together from its fields.
use mt5_bridge.Prelude.{ℕ, String, ◌≡◌, none, some, List, [], ◌∷◌, All}
use mt5_bridge.Go.Int.{ℤ, pos}
use mt5_bridge.Go.Text.{trim_space}
use mt5_bridge.Go.Text.SplitJoin.{IsFree, join, split-join}
use mt5_bridge.Go.Float.{Float64}
use mt5_bridge.Signal.{Conversions}
use mt5_bridge.Signal.Pipe.{parsed, pipe_parts, parse_pipe}

abbrev pub fields :
    String → String → String → String → String → String → String → String → String → List String
fields side symbol lot price sl tp magic pnl comment =
    side ∷ symbol ∷ lot ∷ price ∷ sl ∷ tp ∷ magic ∷ pnl ∷ comment ∷ []

module _ {F : Type 0} ⦃fl : Float64 F⦄ (cv : Conversions F) where
  abbrev pub scanned_float : String → F
  scanned_float s = elim (cv.scan_float s) [ none ↦ fl.hundredths 0 | some x ↦ x ]

  abbrev pub scanned_int : String → ℤ
  scanned_int s = elim (cv.scan_int s) [ none ↦ pos 0 | some i ↦ i ]

  -- A line of ten fields joined by `|`, none of which holds a `|`, is read as the signal of these
  -- fields, if there is no white space at its ends. A number that does not scan is 0.
  pub parse_pipe-fields :
      (now : ℕ) (action side symbol lot price sl tp magic pnl comment : String)
      → trim_space (join "|" action (fields side symbol lot price sl tp magic pnl comment))
        ≡ join "|" action (fields side symbol lot price sl tp magic pnl comment)
      → IsFree b'|' action
      → All (IsFree b'|') (fields side symbol lot price sl tp magic pnl comment)
      → parse_pipe cv now (join "|" action (fields side symbol lot price sl tp magic pnl comment))
        ≡ parsed (record {
          account_id = "";
          action = action;
          side = side;
          symbol = symbol;
          lot = scanned_float lot;
          sl = scanned_float sl;
          tp = scanned_float tp;
          price = scanned_float price;
          magic = scanned_int magic;
          pnl = scanned_float pnl;
          comment = comment;
          time = now;
        })
  unfolding parse_pipe pipe_parts
  parse_pipe-fields now action side symbol lot price sl tp magic pnl comment trimmed h hs =
      rw
        (trimmed, split-join "|" action (fields side symbol lot price sl tp magic pnl comment) h hs)
