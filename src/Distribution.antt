-- ===== src/Distribution.antt =====
-- internal/distributor/signal_distributor.go and service.go, and `distributeToFollowers` of
-- cmd/tcp/main.go: from a master's signal to the orders of its followers.
pub mod Audience
pub mod Enqueue
pub mod Distributor
use mt5_bridge.Prelude.{
  ℕ, zero, suc, String, Bool, true, false, Option, none, some, List, [], ◌∷◌, map, if◌then◌else◌,
}
use mt5_bridge.Go.Float.{Float64}
use mt5_bridge.Signal.{Signal}
use mt5_bridge.Models.{Follower, FollowerOrder}
use mt5_bridge.Lot.{create_follower_order}
use mt5_bridge.Db.{Db, Reply, Result, ok, err}
use mt5_bridge.Db.Followers.{get_by_account_ids, get_active_followers_by_master}
use mt5_bridge.Redis.{Redis, Cmd, pure, ◌>>=◌, ◌>>◌}
use mt5_bridge.Redis.Subscriptions.{get_followers, clear_master_followers, add_follower}

-- How a call comes out. `distributed` holds the orders, one for each follower, that go to the queue.
pub data Outcome (F : Type 0) : Type 0 where
  disabled redis_error database_error nobody : Outcome F
  distributed : List (FollowerOrder F) → Outcome F

module _ {F : Type 0} ⦃fl : Float64 F⦄ where
  -- The loop of `Distribute`, before the orders are enqueued.
  unfoldable pub orders_of : Signal F → List (Follower F) → List (FollowerOrder F)
  orders_of sig followers = map (λ f. create_follower_order f sig) followers

  unfoldable pub for_followers : Signal F → Result (List (Follower F)) → Outcome F
  for_followers sig (err _) = database_error
  for_followers sig (ok []) = nobody
  for_followers sig (ok (f ∷ fs)) = distributed (orders_of sig (f ∷ fs))

  unfoldable pub for_accounts : Reply → Db F → Signal F → Option (List String) → Outcome F
  for_accounts reply db sig none = redis_error
  for_accounts reply db sig (some []) = nobody
  for_accounts reply db sig (some (a ∷ as')) =
      for_followers sig (get_by_account_ids reply (a ∷ as') db)

module _ {F : Type 0} (R : Redis) ⦃fl : Float64 F⦄ where
  -- `ready`: none of `subStore`, `followerRepo` and `signalDistributor` is nil.
  unfoldable pub distribute_to_followers :
      Bool → Reply → Db F → R.State → String → Signal F → Outcome F
  distribute_to_followers ready reply db redis master_id sig =
      if ready then for_accounts reply db sig (get_followers R master_id redis).0 else disabled

  -- `Service.DistributeSignal`. With no follower at all both give an empty result and no error.
  unfoldable pub distribute_signal : Reply → Db F → R.State → String → Signal F → Outcome F
  distribute_signal reply db redis master_id sig =
      for_accounts reply db sig (get_followers R master_id redis).0

  -- The loop of `SyncFollowers`. An error ends it.
  unfoldable pub add_all : String → List (Follower F) → Cmd R.State (Unit {0})
  add_all master_id [] = pure tt
  add_all master_id (f ∷ fs) = do add_follower R master_id f.account_id; add_all master_id fs

  unfoldable pub sync_with : String → Result (List (Follower F)) → Cmd R.State (Unit {0})
  sync_with master_id (err _) redis = (none, redis)
  sync_with master_id (ok followers) redis =
      (clear_master_followers R master_id >> add_all master_id followers) redis

  unfoldable pub sync_followers : Reply → Db F → String → Cmd R.State (Unit {0})
  sync_followers reply db master_id =
      sync_with master_id (get_active_followers_by_master reply master_id db)
