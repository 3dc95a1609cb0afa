-- ===== src/Distribution/Distributor.antt =====
-- `SignalDistributor` of internal/distributor/signal_distributor.go: its making, its channel, and its end.
use mt5_bridge.Prelude.{zero, suc, ◌≡◌, refl, true, Option, none, some}
use mt5_bridge.Go.Int.{ℤ, pos, negsuc}
use mt5_bridge.Go.Channel.{Chan, new_channel, Send, panics, send, close_channel}
use mt5_bridge.Models.{FollowerOrder}
use mt5_bridge.Distribution.Enqueue.{capacity}

pub record SignalDistributor (F : Type 0) : Type 0 where
  pub follower_orders : Chan (FollowerOrder F)
  pub worker_count : ℤ

-- At least one worker, else ten. The channel has room for `capacity` orders.
unfoldable pub workers : ℤ → ℤ
workers (pos zero) = pos 10
workers (pos (suc n)) = pos (suc n)
workers (negsuc n) = pos 10

module _ {F : Type 0} where
  unfoldable pub new_signal_distributor : ℤ → SignalDistributor F
  unfolding workers
  new_signal_distributor worker_count = record {
    follower_orders = new_channel;
    worker_count = workers worker_count;
  }

  unfoldable pub get_queue_channel : SignalDistributor F → Chan (FollowerOrder F)
  get_queue_channel sd = sd.follower_orders

  -- The send of `enqueueOrder`, where it does not time out.
  unfoldable pub enqueue_now : FollowerOrder F → SignalDistributor F → Send (FollowerOrder F)
  unfolding send
  enqueue_now order sd = send capacity order sd.follower_orders

  -- `none`: the channel has been closed before, and closing it panics.
  unfoldable pub close : SignalDistributor F → Option (SignalDistributor F)
  unfolding close_channel
  close sd = elim (close_channel sd.follower_orders) [
    | none ↦ none
    | some ch ↦ some (record sd { follower_orders = ch })
  ]

  -- A distributor that is closed panics on the next order, and when it is closed again.
  closed_panics :
      (order : FollowerOrder F) (sd : SignalDistributor F)
      → sd.follower_orders.closed ≡ true
      → (enqueue_now order sd ≡ panics) × (close sd ≡ none)
  unfolding enqueue_now send close close_channel
  closed_panics order sd e = rw (e) (refl, refl)
