-- ===== src/Startup/Serves.antt =====
-- What the API server has when it begins to serve.
use mt5_bridge.Prelude.{
  ℕ, String, ◌≡◌, Bool, ◌<◌, ◌+◌, true, not, ◌&&◌, Option, some, refl, List, any, filter,
  if◌then◌else◌, ◌==◌, arith,
}
use mt5_bridge.Go.Retry.{retry-finds}
use mt5_bridge.Models.{Follower}
use mt5_bridge.Models.Followers.{is_deleted}
use mt5_bridge.Db.{Db, Reply, answered}
use mt5_bridge.Db.Followers.{get_all, rows_of}
use mt5_bridge.Db.Masters.Rows.{HasUniqueKeys}
use mt5_bridge.Redis.{Redis, IsPipelined}
use mt5_bridge.Redis.Subscriptions.{
  build_subscribe_key, sync_from_follower_list, sync_from_followers,
}
use mt5_bridge.Redis.Subscriptions.Synced.{sync_from_followers-members}
use mt5_bridge.Redis.Client.Connecting.{connect_with_retry-returns}
use mt5_bridge.Cache.{MasterCache, Loading, complete, load_from_db}
use mt5_bridge.Cache.Coherence.{Coherent, load_from_db-Coherent}
use mt5_bridge.Startup.{
  Attempt, is_up, connect_database, serves, sync_rows, start_with, start_server, start_api,
}

reaches_database :
    (attempts : ℕ → Attempt) (d : ℕ)
    → d < 10
    → is_up (attempts d) ≡ true
    → (i : ℕ) × (connect_database attempts ≡ some i)
unfolding connect_database
reaches_database attempts d l up =
    let (i, (_, (_, found))) = retry-finds d 0 (λ i. is_up (attempts i)) (rw (plus d) up) in
    (i, found 10 l)
  where
    plus : (n : ℕ) → 0 + n ≡ n
    plus n = omega arith

module _ {F : Type 0} where
  abbrev pub live_followers : Db F → List (Follower F)
  live_followers db = filter (λ f. not (is_deleted f)) db.followers

  reached_all :
      (R : Redis) (loading reloading : Loading) (reply : Reply) (db : Db F) (cache : MasterCache)
      (s : R.State) (database redis again : Option ℕ) (i j k : ℕ)
      → database ≡ some i
      → redis ≡ some j
      → again ≡ some k
      → start_with R database redis again loading reloading reply db cache s
        ≡ serves
            (load_from_db reloading db.masters (load_from_db loading db.masters cache).1).1
            (sync_rows R (get_all reply db) s).1
  unfolding start_with start_server
  reached_all R loading reloading reply db cache s database redis again i j k p q r =
      rw (p, q, r) refl

  -- If one of the first ten attempts reaches the database, Redis is reached, by `main` and again by
  -- `StartServer`, at tries that are waited for, the rows of followers are read, `StartServer`'s load of
  -- the cache reads all rows of masters, however `main`'s own load ended, the masters have unique
  -- keys and the pipeline succeeds, the API server comes to serve. It then has in its cache the ID of
  -- the live row of every account, and no other; the Redis set of every master that has a live
  -- follower holds exactly the accounts of its live followers, active or not; and the set of a master
  -- that has none is left as an earlier run made it.
  pub start_api-serves :
      (R : Redis) (attempts : ℕ → Attempt) (d : ℕ) (watched : ℕ) (redis_up up_again : ℕ → Bool)
      (n n' : ℕ) (loading : Loading) (db : Db F) (cache : MasterCache) (s : R.State)
      → IsPipelined R
      → d < 10
      → is_up (attempts d) ≡ true
      → n < watched
      → redis_up n ≡ true
      → n' < watched
      → up_again n' ≡ true
      → HasUniqueKeys db.masters
      → (sync_from_followers R (live_followers db) s).0 ≡ some tt
      → (cache' : MasterCache) × ((s' : R.State) × ((start_api R attempts watched redis_up up_again
                loading complete answered db cache s
              ≡ serves cache' s')
            × (Coherent db.masters cache'
                × ((m a : String)
                    → R.set_has s' (build_subscribe_key m) a ≡ (
                        if any (λ f. f.master_id == m) (live_followers db)
                        then any (λ f. f.master_id == m && f.account_id == a) (live_followers db)
                        else R.set_has s (build_subscribe_key m) a)))))
  unfolding start_api sync_rows get_all rows_of sync_from_followers sync_from_follower_list
  start_api-serves R attempts d watched redis_up up_again n n' loading db cache s pipelined l up w
        redis w' again unique done =
      let (i, reached) = reaches_database attempts d l up in
      let (j, (_, (_, (_, connected)))) = connect_with_retry-returns redis_up n redis in
      let (k, (_, (_, (_, connected')))) = connect_with_retry-returns up_again n' again in
      let first = (load_from_db loading db.masters cache).1 in
      (
        (load_from_db complete db.masters first).1,
        (
          (sync_from_followers R (live_followers db) s).1,
          (
            reached_all R loading complete answered db cache s _ _ _ i j k reached
                (connected watched w) (connected' watched w'),
            (
              load_from_db-Coherent db.masters first unique,
              sync_from_followers-members R (live_followers db) s pipelined done,
            ),
          ),
        ),
      )
