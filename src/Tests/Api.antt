-- ===== src/Tests/Api.antt =====
-- Examples for the API server.
use mt5_bridge.Prelude.{
  ℕ, String, ◌≡◌, refl, true, false, Option, none, some, List, [], ◌∷◌, arith, any, find, ◌==◌,
  filter, lookup, insert,
}
use mt5_bridge.Models.{Master, Follower}
use mt5_bridge.Db.{answered, lost}
use mt5_bridge.Db.Masters
use mt5_bridge.Db.Followers
use mt5_bridge.Db.Followers.{is_live_active}
use mt5_bridge.Db.Masters.Rows.{HasUniqueKeys}
use mt5_bridge.Cache.{MasterCache, complete, load_from_db, fill, live_rows, get}
use mt5_bridge.Cache.Coherence.{load_from_db-Coherent}
use mt5_bridge.Api.{Server, Request, Env, finish, write_error, ◌>>=◌}
use mt5_bridge.Api.Accounts.{check_login_request, user_of, signed_in, login}
use mt5_bridge.Api.Accounts.Credentials.{HasCredentials, login-HasCredentials}
use mt5_bridge.Models.{LoginRequest}
use mt5_bridge.Api.Masters.{
  generate_id, new_master, create_master, master_stored, check_master_request,
}
use mt5_bridge.Api.Masters.Coherent.{IsConsistent}
use mt5_bridge.Api.Followers.{start_following, stop_following, delete_follower, follower_not_found}
use mt5_bridge.Api.Followers.Lookups.{follower_path, with_method, follower_handlers_other_id}
use mt5_bridge.Api.Routes.{serve}
use mt5_bridge.Api.Routes.Consistent.{serve-IsConsistent}
use mt5_bridge.Db.Followers.Lifecycle.{
  Call, sets_status, deletes, deletes_master, run, is_left_active, run-left_active,
}
use mt5_bridge.Models.Followers.{is_active, is_deleted}
use mt5_bridge.Tests.Fixtures.{cents, sets}

abbrev pub env : Env ℕ
env = record {
  now = 5;
  random_hex = "00ab";
  reply = λ n. answered;
  db_ping = true;
  hash_password = λ p. some p;
  compare_password = λ h p. h == p;
  sign_token = λ u. some "token";
  decode_login = λ s. some (record { username = "admin"; password = "admin123" });
  decode_master =
      λ s. some (record { account_id = "1002"; password = "password"; server = "demo" });
  decode_follower = λ s. none;
  info_json = record { marshal = λ i. none; unmarshal = λ s. none };
}

abbrev master : String → String → Option ℕ → Master
master id account_id deleted_at = record {
  id = id;
  account_id = account_id;
  password_hash = "hash";
  server = "demo";
  deleted_at = deleted_at;
  created_at = 1;
  updated_at = 1;
}

abbrev masters : List Master
masters = master "m1" "1001" none ∷ master "m2" "1003" (some 2) ∷ []

abbrev follower : Follower ℕ
follower = record {
  id = "f1";
  master_id = "m1";
  account_id = "2001";
  password_hash = "hash";
  server = "demo";
  status = "inactive";
  lot_multiplier = 150;
  deleted_at = none;
  created_at = 1;
  updated_at = 1;
}

abbrev loaded : MasterCache
loaded = (load_from_db complete masters (record { cache = [] })).1

unique : HasUniqueKeys masters
unfolding any Masters.collides
unique = (refl, (refl, tt))

abbrev pub server : Server ℕ sets
server = record {
  db = record { masters = masters; followers = follower ∷ [] };
  cache = loaded;
  redis = [];
  fast_lookup = false;
}

consistent : IsConsistent server
consistent = (unique, load_from_db-Coherent masters (record { cache = [] }) unique)

abbrev pub request : String → String → Request
request method path = record {
  method = method;
  path = path;
  content_type = "application/json";
  body = "";
}

serve-IsConsistent_example :
    IsConsistent (serve sets env (request "DELETE" "/api/masters/m1") server).1
serve-IsConsistent_example =
    serve-IsConsistent sets env (request "DELETE" "/api/masters/m1") server (λ n. refl) consistent

-- If the answer to the INSERT is lost, the master is in the table and not in the cache.
insert_without_answer :
    let (r, s) =
      create_master sets
        (record env { reply = λ n. lost })
        (request "POST" "/api/masters")
        server in
    (r.status ≡ 500)
    × (any (λ m. m.account_id == "1002") s.db.masters ≡ true)
    × (get "1002" s.cache ≡ none)
unfolding create_master check_master_request finish ◌>>=◌ master_stored any Masters.create
    Masters.insert_row Masters.fits Masters.collides get load_from_db fill live_rows write_error
    new_master generate_id lookup filter insert
insert_without_answer = (refl, refl, refl)

follower_handlers_other_id_example :
    (start_following sets env
        (with_method "POST" (request "" "") (follower_path "f1" ("start" ∷ [])))
        server
      ≡ (follower_not_found sets, server))
    × ((stop_following sets env
            (with_method "POST" (request "" "") (follower_path "f1" ("start" ∷ [])))
            server
          ≡ (follower_not_found sets, server))
        × (delete_follower sets env
              (with_method "DELETE" (request "" "") (follower_path "f1" ("start" ∷ [])))
              server
            ≡ (follower_not_found sets, server)))
unfolding find Followers.is_live_id
follower_handlers_other_id_example =
    follower_handlers_other_id sets env (request "" "") server "f1" ("start" ∷ []) (ground arith)
      (ground arith) (ground arith) refl

login-HasCredentials_example :
    (r : LoginRequest) × ((env.decode_login "" ≡ some r) × HasCredentials env server.db r)
unfolding login finish ◌>>=◌ check_login_request user_of signed_in
login-HasCredentials_example =
    login-HasCredentials sets env (request "POST" "/api/auth/login") server refl

abbrev calls : List (Call ℕ)
calls =
    sets_status answered 6 "f1" "active"
    ∷ deletes answered 7 "f1"
    ∷ sets_status answered 8 "f1" "active"
    ∷ deletes_master answered 9 "m1"
    ∷ []

run-left_active_example : any is_left_active (run calls server.db).followers ≡ false
unfolding any is_deleted is_active
run-left_active_example = run-left_active calls server.db refl
