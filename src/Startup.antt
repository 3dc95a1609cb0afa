-- ===== src/Startup.antt =====
-- The start of the API server, cmd/api/main.go and `StartServer` of internal/api/routes.go, and
-- `initMasterFollower` of cmd/tcp/main.go.
pub mod Serves
pub mod Stale
use mt5_bridge.Prelude.{
  ℕ, String, Bool, true, false, ◌&&◌, not, Option, none, some, List, [], if◌then◌else◌,
}
use mt5_bridge.Go.Int.{ℤ, pos}
use mt5_bridge.Go.Retry.{retry}
use mt5_bridge.Models.{Master}
use mt5_bridge.Db.{Db, Reply, Result, ok, err}
use mt5_bridge.Db.Followers.{get_all}
use mt5_bridge.Models.{Follower}
use mt5_bridge.Redis.{Redis, Cmd, pure, attempt}
use mt5_bridge.Redis.Subscriptions.{group_from, sync_from_follower_list}
use mt5_bridge.Redis.Client.{Numbers, Environment, parsed_or, connect_with_retry}
use mt5_bridge.Cache.{MasterCache, Loading, load_from_db}

abbrev pub default_port : ℤ
default_port = pos 8082

unfoldable pub get_env_or_int : Numbers → Environment → String → ℤ → ℤ
unfolding parsed_or
get_env_or_int numbers env key default_value = parsed_or env numbers.atoi key default_value

-- An attempt to reach the database: `sql.Open`, then `Ping`.
pub record Attempt : Type 0 where
  pub opens : Bool
  pub pings : Bool

unfoldable pub is_up : Attempt → Bool
is_up a = a.opens && a.pings

-- The number of the attempt that reaches the database, of ten.
unfoldable pub connect_database : (ℕ → Attempt) → Option ℕ
unfolding retry is_up
connect_database attempts = retry 10 0 (λ i. is_up (attempts i))

-- How far the start comes: it gives up, it still waits for Redis, or it serves.
pub data ApiStart (S : Type 0) : Type 0 where
  no_database waits_for_redis : ApiStart S
  serves : MasterCache → S → ApiStart S

module _ (R : Redis) {F : Type 0} where
  -- An error of the database skips the synchronisation, one of Redis is only logged.
  unfoldable pub sync_rows : Result (List (Follower F)) → Cmd R.State (Unit {0})
  unfolding group_from sync_from_follower_list
  sync_rows (err e) s = (some tt, s)
  sync_rows (ok followers) s = attempt (sync_from_follower_list R (group_from [] followers)) s

  -- `StartServer`, internal/api/routes.go, up to `ListenAndServe`: a connection to Redis of its own,
  -- by the try given, and the cache loaded again, whose error is only logged.
  unfoldable pub start_server : Option ℕ → Loading → Db F → MasterCache → R.State → ApiStart R.State
  unfolding load_from_db
  start_server none reloading db cache s = waits_for_redis
  start_server (some k) reloading db cache s = serves (load_from_db reloading db.masters cache).1 s

  -- The rest of `main`, once the database has been reached or not, by the tries that reach Redis for
  -- `main` and for `StartServer`.
  unfoldable pub start_with :
      Option ℕ
      → Option ℕ
      → Option ℕ
      → Loading
      → Loading
      → Reply
      → Db F
      → MasterCache
      → R.State
      → ApiStart R.State
  unfolding load_from_db get_all sync_rows start_server
  start_with none redis again loading reloading reply db cache s = no_database
  start_with (some i) none again loading reloading reply db cache s = waits_for_redis
  start_with (some i) (some j) again loading reloading reply db cache s =
      start_server again reloading db (load_from_db loading db.masters cache).1
        (sync_rows (get_all reply db) s).1

  -- `main`. `watched` is how many tries of each connection to Redis are waited for; `redis_up` says
  -- which tries of the first one succeed, `up_again` which of the second one.
  unfoldable pub start_api :
      (ℕ → Attempt)
      → ℕ
      → (ℕ → Bool)
      → (ℕ → Bool)
      → Loading
      → Loading
      → Reply
      → Db F
      → MasterCache
      → R.State
      → ApiStart R.State
  unfolding connect_database connect_with_retry start_with
  start_api attempts watched redis_up up_again =
      start_with (connect_database attempts) (connect_with_retry watched redis_up)
        (connect_with_retry watched up_again)

-- `initMasterFollower`, Redis being connected: the cache, and whether the repository and the
-- distributor are there.
unfoldable pub init_master_follower :
    Attempt → Loading → List Master → MasterCache → MasterCache × Bool
unfolding load_from_db
init_master_follower attempt_ loading masters cache =
    if not attempt_.opens
    then (cache, false)
    else if not attempt_.pings
    then (cache, false)
    else ((load_from_db loading masters cache).1, true)
