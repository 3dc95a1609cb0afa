-- ===== src/Models/Signals.antt =====
-- internal/models/signal.go, which no other file uses.
use mt5_bridge.Prelude.{ℕ, String}
use mt5_bridge.Go.Int.{ℤ}

abbrev pub signal_action_open : String
signal_action_open = "OPEN"

abbrev pub signal_action_close : String
signal_action_close = "CLOSE"

abbrev pub signal_action_edit : String
signal_action_edit = "EDIT"

abbrev pub signal_side_buy : String
signal_side_buy = "BUY"

abbrev pub signal_side_sell : String
signal_side_sell = "SELL"

abbrev pub signal_side_buy_stop : String
signal_side_buy_stop = "BUY_STOP"

abbrev pub signal_side_sell_stop : String
signal_side_sell_stop = "SELL_STOP"

abbrev pub signal_side_buy_limit : String
signal_side_buy_limit = "BUY_LIMIT"

abbrev pub signal_side_sell_limit : String
signal_side_sell_limit = "SELL_LIMIT"

pub record MasterSignal (F : Type 0) : Type 0 where
  pub account_id : String
  pub action : String
  pub side : String
  pub symbol : String
  pub lot : F
  pub price : F
  pub sl : F
  pub tp : F
  pub magic : ℤ
  pub pnl : F
  pub comment : String
  pub time : ℕ

pub record DistributedSignal (F : Type 0) : Type 0 where
  pub signal : MasterSignal F
  pub master_id : String
  pub follower_count : ℕ
  pub latency_ms : ℕ
  pub distributed_at : ℕ

unfoldable pub to_signal : {F : Type 0} → DistributedSignal F → MasterSignal F
to_signal ds = ds.signal
