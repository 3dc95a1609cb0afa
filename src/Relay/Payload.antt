-- ===== src/Relay/Payload.antt =====
-- What the relay makes of a signal, and of the text form.
use mt5_bridge.Prelude.{ℕ, String, ◌≡◌, refl, List, [], ◌∷◌}
use mt5_bridge.Go.Float.{Float64}
use mt5_bridge.Signal.{Conversions}
use mt5_bridge.Signal
use mt5_bridge.Signal.Pipe.{Reading, panics, rejected, parsed, pipe_parts}
use mt5_bridge.Signal.Pipe
use mt5_bridge.Relay.{Signal, zero_signal, read_parts, parse_pipe}

-- The signal of the TCP bridge, as the relay knows it.
abbrev pub forget : {F : Type 0} → Signal.Signal F → Signal F
forget s = record {
  action = s.action;
  side = s.side;
  symbol = s.symbol;
  lot = s.lot;
  price = s.price;
  sl = s.sl;
  tp = s.tp;
  magic = s.magic;
  pnl = s.pnl;
  comment = s.comment;
}

module _ {F : Type 0} ⦃fl : Float64 F⦄ where
  -- How the relay's reading of a line goes with that of the TCP bridge: it never panics, and has
  -- the same fields where the bridge has a signal.
  abbrev pub Agrees : Signal F → Reading F → List String → Type 0
  Agrees sig panics parts =
      (action : String) × (side : String) × (parts ≡ action ∷ side ∷ [])
      × (sig ≡ record zero_signal { action = action; side = side })
  Agrees sig rejected parts = sig ≡ zero_signal
  Agrees sig (parsed s) parts = sig ≡ forget s

module _ {F : Type 0} ⦃fl : Float64 F⦄ (cv : Conversions F) where
  read_parts-Agrees :
      (now : ℕ) (parts : List String)
      → Agrees (read_parts cv parts) (Pipe.read_parts cv now parts) parts
  unfolding read_parts Pipe.read_parts
  read_parts-Agrees now [] = refl
  read_parts-Agrees now (action ∷ []) = refl
  read_parts-Agrees now (action ∷ side ∷ []) = (action, side, refl, refl)
  read_parts-Agrees now (action ∷ side ∷ symbol ∷ rest) = refl

  -- The relay and the TCP bridge read the same fields from every text line that the bridge reads;
  -- a line of two parts makes the bridge panic, and is a signal of an action and a side for the
  -- relay; a line of one part is no signal for either.
  pub parse_pipe-Agrees :
      (now : ℕ) (raw : String)
      → Agrees (parse_pipe cv raw) (Pipe.parse_pipe cv now raw) (pipe_parts raw)
  unfolding parse_pipe Pipe.parse_pipe
  parse_pipe-Agrees now raw = read_parts-Agrees now (pipe_parts raw)
