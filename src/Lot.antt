-- ===== src/Lot.antt =====
-- internal/distributor/follower_order.go.
pub mod Bounds
pub mod Orders
use mt5_bridge.Prelude.{String, ◌≡◌, Bool, ◌&&◌, ◌==◌, eq_iff, if◌then◌else◌, arith}
use mt5_bridge.Go.Float.{Float64}
use mt5_bridge.Signal.{Signal}
use mt5_bridge.Models.{Follower, FollowerOrder}

module _ {F : Type 0} ⦃fl : Float64 F⦄ where
  open fl use {hundredths, le, lt, mul, div, round}

  abbrev pub min_lot : F
  min_lot = hundredths 1

  abbrev pub max_lot : F
  max_lot = hundredths 10_000

  -- The lot before it is clamped.
  unfoldable pub rounded_lot : F → F → F
  rounded_lot master_lot multiplier =
      div (round (mul (mul master_lot multiplier) (hundredths 10_000))) (hundredths 10_000)

  unfoldable pub clamp_lot : F → F
  clamp_lot lot =
      let raised = if lt lot min_lot then min_lot else lot in
      if lt max_lot raised then max_lot else raised

  unfoldable pub calculate_lot : F → F → F
  unfolding rounded_lot clamp_lot
  calculate_lot master_lot multiplier = clamp_lot (rounded_lot master_lot multiplier)

  unfoldable pub validate_lot_multiplier : F → Bool
  validate_lot_multiplier multiplier =
      le (hundredths 1) multiplier && le multiplier (hundredths 10_000)

  unfoldable pub calculate_reverse_lot : F → F → F
  unfolding calculate_lot
  calculate_reverse_lot master_lot multiplier = calculate_lot master_lot multiplier

  unfoldable pub create_follower_order : Follower F → Signal F → FollowerOrder F
  create_follower_order follower master_signal = record {
    follower_account_id = follower.account_id;
    password = follower.password_hash;
    server = follower.server;
    lot_multiplier = follower.lot_multiplier;
    signal = record master_signal {
      account_id = "";
      lot = calculate_lot master_signal.lot follower.lot_multiplier;
    };
  }

  unfoldable pub copy_signal_fields : Signal F → Signal F → Signal F
  copy_signal_fields master_signal follower_signal = record master_signal {
    account_id = follower_signal.account_id;
    lot = follower_signal.lot;
  }

unfoldable pub reverse_signal_side : String → String
reverse_signal_side side =
    if side == "BUY"
    then "SELL"
    else if side == "SELL"
    then "BUY"
    else if side == "BUY_STOP"
    then "SELL_STOP"
    else if side == "SELL_STOP"
    then "BUY_STOP"
    else if side == "BUY_LIMIT"
    then "SELL_LIMIT"
    else if side == "SELL_LIMIT"
    then "BUY_LIMIT"
    else side
