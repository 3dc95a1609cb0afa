-- ===== src/Api.antt =====
-- internal/api: the state of the API server, what a request meets, and what a handler gives back.
pub mod Paths
pub mod Masters
pub mod Followers
pub mod Accounts
pub mod Auth
pub mod Responses
pub mod Routes
pub mod Middleware
pub mod Steps
use mt5_bridge.Prelude.{ℕ, String, Bool, true, false, Option, none, some}
use mt5_bridge.Models.{LoginRequest, CreateMasterRequest, CreateFollowerRequest, UserInfo}
use mt5_bridge.Db.{Db, Reply}
use mt5_bridge.Cache.{MasterCache}
use mt5_bridge.Redis.{Redis}
use mt5_bridge.Redis.FastLookup.{InfoJson}

-- `fast_lookup` tells whether `s.fastLookup` is there (is not nil).
pub record Server (F : Type 0) (R : Redis) : Type 0 where
  pub db : Db F
  pub cache : MasterCache
  pub redis : R.State
  pub fast_lookup : Bool

pub record Request : Type 0 where
  pub method : String
  pub path : String
  pub content_type : String
  pub body : String

-- What a request meets: the clock, which stands still while it is served, the random digits of
-- `generateID`, the reply of the database to its first, second, … statement, bcrypt, the signing of
-- tokens, and the decoding of JSON.
pub record Env (F : Type 0) : Type 0 where
  pub now : ℕ
  pub random_hex : String
  pub reply : ℕ → Reply
  pub db_ping : Bool
  pub hash_password : String → Option String
  pub compare_password : String → String → Bool
  pub sign_token : UserInfo → Option String
  pub decode_login : String → Option LoginRequest
  pub decode_master : String → Option CreateMasterRequest
  pub decode_follower : String → Option (CreateFollowerRequest F)
  pub info_json : InfoJson F

-- The bodies of the responses. The time stamp of an error and the constant texts are left out.
pub data Body (F : Type 0) : Type 0 where
  error_body : String → String → Body F
  login_body : String → UserInfo → Body F
  master_created : String → String → String → ℕ → Body F
  follower_created : String → String → String → String → String → F → ℕ → Body F
  start_stop : String → String → String → Body F
  master_deleted : String → ℕ → Body F
  follower_deleted : String → Body F
  master_stats : String → ℕ → ℕ → Body F
  health : String → Bool → Bool → Bool → ℕ → ℕ → Body F
  plain : String → Body F
  empty_body : Body F

pub record Response (F : Type 0) : Type 0 where
  pub status : ℕ
  pub body : Body F

-- A handler's checks: it stops with a response, or goes on.
pub data Step (F : Type 0) (A : Type 0) : Type 0 where
  stop : Response F → Step F A
  next : A → Step F A

module _ {F : Type 0} where
  infixl 5 ◌>>=◌ ◌>>◌
  unfoldable pub ◌>>=◌ : {A B : Type 0} → Step F A → (A → Step F B) → Step F B
  stop r >>= f = stop r
  next a >>= f = f a

  abbrev pub ◌>>◌ : {B : Type 0} → Step F (Unit {0}) → Step F B → Step F B
  m >> k = m >>= λ _. k

  -- `writeError`.
  unfoldable pub write_error : ℕ → String → String → Response F
  write_error status message code = record { status = status; body = error_body message code }

  abbrev pub guard : Bool → Response F → Step F (Unit {0})
  guard true r = next tt
  guard false r = stop r

  abbrev pub or_stop : {A : Type 0} → Option A → Response F → Step F A
  or_stop none r = stop r
  or_stop (some a) r = next a

  abbrev pub method_not_allowed : Response F
  method_not_allowed = write_error 405 "Method not allowed" "METHOD_NOT_ALLOWED"

  abbrev pub invalid_request : Response F
  invalid_request = write_error 400 "Invalid request format" "INVALID_REQUEST"

  abbrev pub invalid_path : Response F
  invalid_path = write_error 400 "Invalid path" "INVALID_PATH"

  abbrev pub internal_error : String → Response F
  internal_error message = write_error 500 message "INTERNAL_ERROR"

-- A handler that stops in its checks leaves the server as it was.
unfoldable pub finish : {F S : Type 0} → S → Step F (Response F × S) → Response F × S
finish s (stop r) = (r, s)
finish s (next out) = out
