-- ===== src/Tests/Startup.antt =====
-- Examples for connecting and for the start of the programs.
use mt5_bridge.Prelude.{
  ◌%◌, ℕ, String, ◌≡◌, refl, ◌∙◌, Bool, true, false, not, ◌&&◌, none, some, List, [], ◌∷◌, ◌++◌,
  map, any, filter, leb, if◌then◌else◌, ◌==◌, eq_iff, arith, ◌<◌, ◌↔◌,
}
use mt5_bridge.Go.Int.{pos, negsuc}
use mt5_bridge.Signal.{Signal}
use mt5_bridge.Signal.Queue.{empty}
use mt5_bridge.Models.{Master, Follower}
use mt5_bridge.Db.{Db, answered}
use mt5_bridge.Redis.{Redis, Queued, applied, all_applied, IsPipelined}
use mt5_bridge.Db.Masters
use mt5_bridge.Db.Masters.Rows.{HasUniqueKeys}
use mt5_bridge.Redis.FastLookup.Buckets.{
  IsRemainder, from_zero, unbounded_hash, get_bucket-IsRemainder,
}
use mt5_bridge.Redis.FastLookup.{
  get_bucket, hash_from, signed_rem_16, InfoJson, active_masters_key, sync_from_database,
}
use mt5_bridge.Redis.FastLookup.Synced.{sync_from_database-active_masters}
use mt5_bridge.Models.Masters.{is_deleted}
use mt5_bridge.Redis.Subscriptions.{build_subscribe_key, sync_from_followers}
use mt5_bridge.Cache.{MasterCache, complete, stops_after}
use mt5_bridge.Cache.Coherence.{Coherent}
use mt5_bridge.Distribution.{distribute_to_followers}
use mt5_bridge.Tcp.{Bridge, run_distribution, handle_lines}
use mt5_bridge.Startup.{Attempt, is_up, serves, start_api, init_master_follower}
use mt5_bridge.Startup.Serves.{live_followers, start_api-serves}
use mt5_bridge.Startup.Stale.{no_masters, known_master, run_distribution-started}
use mt5_bridge.Redis.Client.{Try, connected, connect, max_retries}
use mt5_bridge.Redis.Client.Connecting.{IsReached, connect-connected_iff}
use mt5_bridge.Tests.Fixtures.{cents, conversions, sets, holds, Pairs}

-- Redis is reached at the third try.
abbrev third : ℕ → Bool
third n = leb 2 n

abbrev tries : ℕ → Try
tries n = record { done_before = false; connects = third n; done_waiting = false }

connect-connected_iff_example :
    (connect tries none ≡ (connected 2, some 2)) ↔ ((2 < max_retries) × IsReached 0 tries 2)
connect-connected_iff_example = connect-connected_iff tries none 2

run_queued : Queued → Pairs → Pairs
run_queued (Queued.del k) s = filter (λ (j, n). not (j == k)) s
run_queued (Queued.set k v) s = filter (λ (j, n). not (j == k)) s
run_queued (Queued.sadd k ms) s = map (λ m. (k, m)) ms ++ s

run_all : List Queued → Pairs → Pairs
run_all [] s = s
run_all (c ∷ cs) s = run_all cs (run_queued c s)

-- The server of the examples, with pipelines.
abbrev pipelined : Redis
pipelined = record sets { exec = λ cs s. (some tt, run_all cs s) }

all_applied-cong :
    (cs : List Queued) (f g : String → String → Bool)
    → ((j n : String) → f j n ≡ g j n)
    → (j n : String) → all_applied cs f j n ≡ all_applied cs g j n
unfolding all_applied applied
all_applied-cong [] f g h j n = h j n
all_applied-cong (c ∷ cs) f g h j n = all_applied-cong cs (applied c f) (applied c g) (same c) j n
  where
    same : (c : Queued) (j n : String) → applied c f j n ≡ applied c g j n
    same (Queued.del k) j n = ground (arith, h j n)
    same (Queued.set k v) j n = ground (arith, h j n)
    same (Queued.sadd k ms) j n = ground (arith, h j n)

removed :
    (k j n : String) (s : Pairs)
    → holds (filter (λ (i, l). not (i == k)) s) j n ≡ (if k == j then false else holds s j n)
unfolding any filter
removed k j n [] = ground arith
removed k j n ((i, l) ∷ s) = ground (arith, removed k j n s, eq_iff i k, eq_iff i j, eq_iff k j)

added :
    (k j n : String) (ms : List String) (s : Pairs)
    → holds (map (λ m. (k, m)) ms ++ s) j n
      ≡ (if k == j && any (λ m. m == n) ms then true else holds s j n)
unfolding any
added k j n [] s = ground arith
added k j n (m ∷ ms) s = ground (arith, added k j n ms s)

queued :
    (c : Queued) (s : Pairs) (j n : String) → holds (run_queued c s) j n ≡ applied c (holds s) j n
unfolding applied run_queued
queued (Queued.del k) s j n = removed k j n s
queued (Queued.set k v) s j n = removed k j n s
queued (Queued.sadd k ms) s j n = added k j n ms s

ran :
    (cs : List Queued) (s : Pairs) (j n : String)
    → holds (run_all cs s) j n ≡ all_applied cs (holds s) j n
unfolding all_applied run_all
ran [] s j n = refl
ran (c ∷ cs) s j n =
    ran cs (run_queued c s) j n
    ∙ all_applied-cong cs (holds (run_queued c s)) (applied c (holds s)) (queued c s) j n

pipelined-IsPipelined : IsPipelined pipelined
pipelined-IsPipelined = record { exec_applies = λ cs s _ j n. ran cs s j n }

abbrev master : String → String → Master
master id account_id = record {
  id = id;
  account_id = account_id;
  password_hash = "hash";
  server = "demo";
  deleted_at = none;
  created_at = 1;
  updated_at = 1;
}

abbrev masters : List Master
masters = master "m1" "1001" ∷ master "m2" "1002" ∷ []

unique : HasUniqueKeys masters
unfolding any Masters.collides
unique = (refl, (refl, tt))

abbrev follower : Follower ℕ
follower = record {
  id = "f1";
  master_id = "m1";
  account_id = "2001";
  password_hash = "hash";
  server = "demo";
  status = "inactive";
  lot_multiplier = 150;
  deleted_at = none;
  created_at = 1;
  updated_at = 1;
}

abbrev db : Db ℕ
db = record { masters = masters; followers = follower ∷ [] }

abbrev no_json : InfoJson ℕ
no_json = record { marshal = λ info. none; unmarshal = λ text. none }

abbrev attempts : ℕ → Attempt
attempts n = record { opens = true; pings = third n }

abbrev old_sets : Pairs
old_sets = ("master:followers:m1", "2009") ∷ ("master:followers:m2", "2009") ∷ []

start_api-serves_example :
    (cache : MasterCache) × ((s : Pairs) × ((start_api pipelined attempts 4 third third
            (stops_after 1)
            complete
            answered
            db
            (record { cache = [] })
            old_sets
          ≡ serves cache s)
        × (Coherent masters cache
            × ((m a : String)
                → holds s (build_subscribe_key m) a ≡ (
                    if any (λ f. f.master_id == m) (live_followers db)
                    then any (λ f. f.master_id == m && f.account_id == a) (live_followers db)
                    else holds old_sets (build_subscribe_key m) a)))))
unfolding is_up sync_from_followers
start_api-serves_example =
    start_api-serves pipelined attempts 2 4 third third 3 2 (stops_after 1) db
      (record { cache = [] }) old_sets pipelined-IsPipelined (omega arith) refl (omega arith) refl
      (omega arith) refl unique refl

abbrev up : Attempt
up = record { opens = true; pings = true }

abbrev started : MasterCache × Bool
started = init_master_follower up complete masters no_masters

abbrev bridge : Bridge ℕ
bridge = record { queue = empty; master_cache = some started.0; relay_host = "" }

abbrev sig : Signal ℕ
sig = record {
  account_id = "1001";
  action = "OPEN";
  side = "BUY";
  symbol = "EURUSD";
  lot = 200;
  sl = 0;
  tp = 0;
  price = 0;
  magic = pos 7;
  pnl = 0;
  comment = "";
  time = 3;
}

-- By now the master of the account has been removed from the table.
run_distribution-started_example :
    run_distribution pipelined bridge.master_cache started.1 answered
      (record db { masters = [] })
      old_sets
      sig
    ≡ elim (known_master up masters "1001") [
      | none ↦ none
      | some master_id ↦ some (
          distribute_to_followers pipelined started.1 answered
            (record db { masters = [] })
            old_sets
            master_id
            sig)
    ]
unfolding handle_lines
run_distribution-started_example =
    run_distribution-started conversions pipelined up masters 3 bridge bridge [] answered
      (record db { masters = [] }) old_sets sig unique refl refl

-- A master's ID may look like the key of a set.
sync_from_database-active_masters_example :
    holds
      (sync_from_database pipelined no_json
        (master "m1:followers" "1001" ∷ [])
        (follower ∷ [])
        (("masters:active", "m9") ∷ [])).1
      active_masters_key
      "m9"
    ≡ any (λ m. m.id == "m9" && not (is_deleted m)) (master "m1:followers" "1001" ∷ [])
unfolding sync_from_database
sync_from_database-active_masters_example =
    sync_from_database-active_masters pipelined no_json (master "m1:followers" "1001" ∷ [])
      (follower ∷ []) (("masters:active", "m9") ∷ []) pipelined-IsPipelined refl "m9"

-- The hash of this key has wrapped around to a negative number.
negative_bucket : get_bucket "master_0123456789abcdef" ≡ negsuc 10
unfolding get_bucket hash_from signed_rem_16
negative_bucket = refl

get_bucket-IsRemainder_example :
    IsRemainder (get_bucket "master_0123456789abcdef")
    × (from_zero (get_bucket "master_0123456789abcdef")
        ≡ unbounded_hash 0 "master_0123456789abcdef" % 16)
get_bucket-IsRemainder_example = get_bucket-IsRemainder "master_0123456789abcdef"
