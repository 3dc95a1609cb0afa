-- ===== src/Api/Followers.antt =====
-- The handlers of followers in internal/api/handlers.go.
pub mod Lookups
use Prim.Native.String.{len}
use mt5_bridge.Prelude.{
  ℕ, String, Bool, true, false, not, ◌&&◌, ◌||◌, Option, none, some, ltb, if◌then◌else◌, ◌==◌,
}
use mt5_bridge.Go.Float.{Float64}
use mt5_bridge.Models.{
  Follower, CreateFollowerRequest, follower_status_active, follower_status_inactive,
}
use mt5_bridge.Models.Followers.{is_active}
use mt5_bridge.Db.{Db, Reply, not_found, duplicate_follower, Result, ok, err}
use mt5_bridge.Db.Masters
use mt5_bridge.Db.Followers
use mt5_bridge.Redis.{Redis}
use mt5_bridge.Redis.Subscriptions.{add_follower, remove_follower}
use mt5_bridge.Redis.FastLookup
use mt5_bridge.Redis.FastLookup.{update_follower_status, unregister_follower}
use mt5_bridge.Api.{
  Server, Request, Env, Response, Step, stop, next, ◌>>=◌, ◌>>◌, write_error, guard, or_stop,
  method_not_allowed, invalid_request, invalid_path, internal_error, finish, follower_created,
  start_stop, follower_deleted,
}
use mt5_bridge.Api.Paths.{master_id_of, follower_id_of}
use mt5_bridge.Api.Masters.{generate_id, master_exists}

module _ {F : Type 0} ⦃fl : Float64 F⦄ where
  unfoldable pub check_follower_request : CreateFollowerRequest F → Step F (Unit {0})
  check_follower_request r = do
    guard (not (ltb (len r.account_id) 4 || ltb 50 (len r.account_id)))
        (write_error 400 "Account ID must be between 4 and 50 characters" "INVALID_ACCOUNT_ID")
    guard (not (ltb (len r.password) 8))
        (write_error 400 "Password must be at least 8 characters" "INVALID_PASSWORD")
    guard
        (not (
          fl.lt r.lot_multiplier (fl.hundredths 1)
          || fl.lt (fl.hundredths 10_000) r.lot_multiplier))
        (write_error 400 "Lot multiplier must be between 0.01 and 100.0" "INVALID_LOT_MULTIPLIER")

  unfoldable pub new_follower : Env F → String → CreateFollowerRequest F → String → Follower F
  new_follower env master_id r password_hash = record {
    id = generate_id "f" env.random_hex;
    master_id = master_id;
    account_id = r.account_id;
    password_hash = password_hash;
    server = r.server;
    status = follower_status_inactive;
    lot_multiplier = r.lot_multiplier;
    deleted_at = none;
    created_at = 0;
    updated_at = 0;
  }

module _ {F : Type 0} (R : Redis) ⦃fl : Float64 F⦄ where
  -- `if s.fastLookup != nil { … }`, with the error only logged.
  abbrev with_lookup : Server F R → (R.State → R.State) → Server F R
  with_lookup s f = if s.fast_lookup then record s { redis = f s.redis } else s

  unfoldable pub follower_stored :
      Env F → String → Server F R → Result (Follower F) × Db F → Response F × Server F R
  follower_stored env master_id s (err duplicate_follower, db) = (
    write_error 409 "Account already registered as follower for this master" "DUPLICATE_FOLLOWER",
    record s { db = db },
  )
  follower_stored env master_id s (err _, db) =
      (internal_error "Failed to create follower", record s { db = db })
  follower_stored env master_id s (ok f, db) = (
    record {
      status = 201;
      body =
          follower_created f.id f.master_id f.account_id f.server f.status f.lot_multiplier
            f.created_at;
    },
    with_lookup (record s { db = db })
        (λ redis. (FastLookup.register_follower R env.info_json master_id f redis).1),
  )

  -- POST /api/masters/{masterId}/followers.
  unfoldable pub register_follower : Env F → Request → Server F R → Response F × Server F R
  register_follower env req s = finish s (do
    guard (req.method == "POST") method_not_allowed
    master_id ← or_stop (master_id_of req.path) invalid_path
    master_exists R (Masters.exists (env.reply 0) master_id s.db)
    r ← or_stop (env.decode_follower req.body) invalid_request
    check_follower_request r
    password_hash ←
        or_stop (env.hash_password r.password) (internal_error "Failed to process password")
    next (
        follower_stored env master_id s (
          Followers.create (env.reply 1) env.now (new_follower env master_id r password_hash)
            s.db)))

  abbrev pub follower_not_found : Response F
  follower_not_found = write_error 404 "Follower not found" "FOLLOWER_NOT_FOUND"

  abbrev pub found : Result (Follower F) → Step F (Follower F)
  found (ok f) = next f
  found (err not_found) = stop follower_not_found
  found (err _) = stop (internal_error "Failed to get follower")

  unfoldable pub follower_started :
      Env F → Server F R → Follower F → String → Result (Unit {0}) × Db F → Response F × Server F R
  follower_started env s f follower_id (err not_found, db) =
      (follower_not_found, record s { db = db })
  follower_started env s f follower_id (err _, db) =
      (internal_error "Failed to start following", record s { db = db })
  follower_started env s f follower_id (ok _, db) =
      let redis = (add_follower R f.master_id f.account_id s.redis).1 in
      (
        record { status = 200; body = start_stop follower_id f.master_id follower_status_active },
        with_lookup (record s { db = db; redis = redis })
            (λ redis.
              (update_follower_status R env.info_json follower_id follower_status_active redis).1),
      )

  -- POST /api/followers/{followerId}/start.
  unfoldable pub start_following : Env F → Request → Server F R → Response F × Server F R
  start_following env req s = finish s (do
    guard (req.method == "POST") method_not_allowed
    follower_id ← or_stop (follower_id_of req.path) invalid_path
    f ← found (Followers.get_by_id (env.reply 0) follower_id s.db)
    next (
        follower_started env s f follower_id
          (Followers.update_status (env.reply 1) env.now follower_id follower_status_active s.db)))

  unfoldable pub follower_stopped :
      Env F → Server F R → Follower F → String → Result (Unit {0}) × Db F → Response F × Server F R
  follower_stopped env s f follower_id (err not_found, db) =
      (follower_not_found, record s { db = db })
  follower_stopped env s f follower_id (err _, db) =
      (internal_error "Failed to stop following", record s { db = db })
  follower_stopped env s f follower_id (ok _, db) =
      let redis = (remove_follower R f.master_id f.account_id s.redis).1 in
      (
        record { status = 200; body = start_stop follower_id f.master_id follower_status_inactive },
        with_lookup (record s { db = db; redis = redis })
            (λ redis.
              (update_follower_status R env.info_json follower_id follower_status_inactive
                redis).1),
      )

  -- POST /api/followers/{followerId}/stop.
  unfoldable pub stop_following : Env F → Request → Server F R → Response F × Server F R
  stop_following env req s = finish s (do
    guard (req.method == "POST") method_not_allowed
    follower_id ← or_stop (follower_id_of req.path) invalid_path
    f ← found (Followers.get_by_id (env.reply 0) follower_id s.db)
    next (
        follower_stopped env s f follower_id (
          Followers.update_status (env.reply 1) env.now follower_id follower_status_inactive s.db)))

  unfoldable pub follower_removed :
      Server F R → Follower F → String → Result (Unit {0}) × Db F → Response F × Server F R
  follower_removed s f follower_id (err _, db) =
      (internal_error "Failed to delete follower", record s { db = db })
  follower_removed s f follower_id (ok _, db) =
      let redis =
        if is_active f then (remove_follower R f.master_id f.account_id s.redis).1 else s.redis in
      (
        record { status = 200; body = follower_deleted follower_id },
        with_lookup (record s { db = db; redis = redis })
            (λ redis. (unregister_follower R follower_id redis).1),
      )

  -- DELETE /api/followers/{followerId}.
  unfoldable pub delete_follower : Env F → Request → Server F R → Response F × Server F R
  delete_follower env req s = finish s (do
    guard (req.method == "DELETE") method_not_allowed
    follower_id ← or_stop (follower_id_of req.path) invalid_path
    f ← found (Followers.get_by_id (env.reply 0) follower_id s.db)
    next (
        follower_removed s f follower_id
          (Followers.soft_delete (env.reply 1) env.now follower_id s.db)))
