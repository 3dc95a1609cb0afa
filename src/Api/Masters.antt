-- ===== src/Api/Masters.antt =====
-- The handlers of masters in internal/api/handlers.go.
pub mod Coherent
use Prim.Native.String
use Prim.Native.String.{len}
use mt5_bridge.Prelude.{
  ℕ, String, Bool, true, false, not, ◌&&◌, ◌||◌, Option, none, some, nat_eq, ltb, if◌then◌else◌,
  ◌==◌,
}
use mt5_bridge.Go.Float.{Float64}
use mt5_bridge.Models.{Master, CreateMasterRequest}
use mt5_bridge.Db.{Db, Reply, not_found, duplicate_account_id, Result, ok, err}
use mt5_bridge.Db.Masters
use mt5_bridge.Db.Followers
use mt5_bridge.Cache.{MasterCache, set, delete_account}
use mt5_bridge.Redis.{Redis}
use mt5_bridge.Redis.Subscriptions.{clear_master_followers}
use mt5_bridge.Redis.FastLookup.{register_master}
use mt5_bridge.Api.{
  Server, Request, Env, Response, Step, stop, next, ◌>>=◌, ◌>>◌, write_error, guard, or_stop,
  method_not_allowed, invalid_request, invalid_path, internal_error, finish, master_created,
  master_deleted, master_stats,
}
use mt5_bridge.Api.Paths.{master_id_of}

unfoldable pub generate_id : String → String → String
generate_id prefix random_hex = String.◌++◌ prefix (String.◌++◌ "_" random_hex)

module _ {F : Type 0} where
  -- The checks on the fields of the request, in order.
  unfoldable pub check_master_request : CreateMasterRequest → Step F (Unit {0})
  check_master_request r = do
    guard (not (ltb (len r.account_id) 4 || ltb 50 (len r.account_id)))
        (write_error 400 "Account ID must be between 4 and 50 characters" "INVALID_ACCOUNT_ID")
    guard (not (ltb (len r.password) 8))
        (write_error 400 "Password must be at least 8 characters" "INVALID_PASSWORD")
    guard (not (nat_eq (len r.server) 0 || ltb 100 (len r.server)))
        (write_error 400 "Server is required and must be less than 100 characters" "INVALID_SERVER")

  unfoldable pub new_master : Env F → CreateMasterRequest → String → Master
  new_master env r password_hash = record {
    id = generate_id "m" env.random_hex;
    account_id = r.account_id;
    password_hash = password_hash;
    server = r.server;
    deleted_at = none;
    created_at = 0;
    updated_at = 0;
  }

module _ {F : Type 0} (R : Redis) ⦃fl : Float64 F⦄ where
  -- The warning of a failed registration is only logged.
  unfoldable pub register : Env F → Master → Server F R → Server F R
  register env m s =
      if s.fast_lookup
      then record s { redis = (register_master R env.info_json m s.redis).1 }
      else s

  unfoldable pub master_stored : Env F → Server F R → Result Master × Db F → Response F × Server F R
  master_stored env s (err duplicate_account_id, db) = (
    write_error 409 "Account ID already registered as master" "DUPLICATE_ACCOUNT",
    record s { db = db },
  )
  master_stored env s (err _, db) = (internal_error "Failed to create master", record s { db = db })
  master_stored env s (ok m, db) = (
    record { status = 201; body = master_created m.id m.account_id m.server m.created_at },
    register env m (record s { db = db; cache = set m.account_id m.id s.cache }),
  )

  -- POST /api/masters.
  unfoldable pub create_master : Env F → Request → Server F R → Response F × Server F R
  create_master env req s = finish s (do
    guard (req.method == "POST") method_not_allowed
    r ← or_stop (env.decode_master req.body) invalid_request
    check_master_request r
    password_hash ←
        or_stop (env.hash_password r.password) (internal_error "Failed to process password")
    next (
        master_stored env s
          (Masters.create (env.reply 0) env.now (new_master env r password_hash) s.db)))

  unfoldable pub master_removed :
      Server F R → Master → String → Result ℕ × Db F → Response F × Server F R
  master_removed s master master_id (err _, db) =
      (internal_error "Failed to delete master", record s { db = db })
  master_removed s master master_id (ok affected, db) = (
    record { status = 200; body = master_deleted master_id affected },
    record s {
      db = db;
      cache = delete_account master.account_id s.cache;
      redis = (clear_master_followers R master_id s.redis).1;
    },
  )

  -- The lookup of an account, with the two errors that the handlers tell apart.
  abbrev pub found : {A : Type 0} → Result A → Response F → Response F → Step F A
  found (ok a) missing broken = next a
  found (err not_found) missing broken = stop missing
  found (err _) missing broken = stop broken

  -- DELETE /api/masters/{masterId}.
  unfoldable pub delete_master : Env F → Request → Server F R → Response F × Server F R
  delete_master env req s = finish s (do
    guard (req.method == "DELETE") method_not_allowed
    master_id ← or_stop (master_id_of req.path) invalid_path
    master ←
        found (Masters.get_by_id (env.reply 0) master_id s.db)
          (write_error 404 "Master not found" "MASTER_NOT_FOUND")
          (internal_error "Failed to get master")
    next (
        master_removed s master master_id
          (Masters.soft_delete (env.reply 1) env.now master_id s.db)))

  -- `Exists`, and the answers of the handlers that begin with it.
  abbrev pub master_exists : Result Bool → Step F (Unit {0})
  master_exists (err _) = stop (internal_error "Failed to verify master")
  master_exists (ok false) = stop (write_error 404 "Master not found" "MASTER_NOT_FOUND")
  master_exists (ok true) = next tt

  abbrev counted : Result ℕ → Step F ℕ
  counted (err _) = stop (internal_error "Failed to get follower count")
  counted (ok n) = next n

  -- GET /api/masters/{masterId}/followers.
  unfoldable pub get_master_followers : Env F → Request → Server F R → Response F × Server F R
  get_master_followers env req s = finish s (do
    guard (req.method == "GET") method_not_allowed
    master_id ← or_stop (master_id_of req.path) invalid_path
    master_exists (Masters.exists (env.reply 0) master_id s.db)
    active ← counted (Followers.count_active_by_master (env.reply 1) master_id s.db)
    total ← counted (Followers.count_total_by_master (env.reply 2) master_id s.db)
    next (record { status = 200; body = master_stats master_id active total }, s))
