-- ===== src/Api/Accounts.antt =====
-- Login and the health check of internal/api/handlers.go.
pub mod Credentials
use Prim.Native.String.{len}
use mt5_bridge.Prelude.{ℕ, not, ◌&&◌, ◌||◌, Option, none, some, ltb, if◌then◌else◌, ◌==◌, is_some}
use mt5_bridge.Models.{Master, Follower, LoginRequest, UserInfo}
use mt5_bridge.Db.{Db, Result, ok, err}
use mt5_bridge.Db.Masters
use mt5_bridge.Db.Followers
use mt5_bridge.Cache.{size}
use mt5_bridge.Redis.{Redis}
use mt5_bridge.Redis.Subscriptions.{health_check}
use mt5_bridge.Api.{
  Server, Request, Env, Response, Step, next, ◌>>=◌, ◌>>◌, write_error, guard, or_stop,
  method_not_allowed, invalid_request, internal_error, finish, login_body, health,
}

abbrev pub or_else : Option UserInfo → Option UserInfo → Option UserInfo
or_else none o = o
or_else (some u) o = some u

-- `stats.X, _ = …`: an error leaves 0.
abbrev pub or_zero : Result ℕ → ℕ
or_zero (ok n) = n
or_zero (err _) = 0

module _ {F : Type 0} where
  unfoldable pub check_login_request : LoginRequest → Step F (Unit {0})
  check_login_request r = do
    guard (not (ltb (len r.username) 3 || ltb 50 (len r.username)))
        (write_error 400 "Username must be between 3 and 50 characters" "INVALID_USERNAME")
    guard (not (ltb (len r.password) 6))
        (write_error 400 "Password must be at least 6 characters" "INVALID_PASSWORD")

  -- `generateJWT` and the response that carries its token.
  unfoldable pub signed_in : Env F → UserInfo → Response F
  signed_in env user = elim (env.sign_token user) [
    | none ↦ internal_error "Failed to generate token"
    | some token ↦ record { status = 200; body = login_body token user }
  ]

  unfoldable pub master_user : Env F → LoginRequest → Result Master → Option UserInfo
  master_user env r (err _) = none
  master_user env r (ok m) =
      if env.compare_password m.password_hash r.password
      then some (record { user_id = m.id; username = r.username; role = "master" })
      else none

  unfoldable pub follower_user : Env F → LoginRequest → Result (Follower F) → Option UserInfo
  follower_user env r (err _) = none
  follower_user env r (ok f) =
      if env.compare_password f.password_hash r.password
      then some (record { user_id = f.id; username = r.username; role = "follower" })
      else none

  -- Who the credentials belong to, in the order in which the handler asks.
  unfoldable pub user_of : Env F → Db F → LoginRequest → Option UserInfo
  user_of env db r =
      if r.username == "admin" && r.password == "admin123"
      then some (record { user_id = "user_admin"; username = r.username; role = "admin" })
      else or_else (master_user env r (Masters.get_by_account_id (env.reply 0) r.username db))
          (follower_user env r (Followers.get_by_account_id (env.reply 1) r.username db))

module _ {F : Type 0} (R : Redis) where
  -- POST /api/auth/login.
  unfoldable pub login : Env F → Request → Server F R → Response F × Server F R
  login env req s = finish s (do
    guard (req.method == "POST") method_not_allowed
    r ← or_stop (env.decode_login req.body) invalid_request
    check_login_request r
    user ←
        or_stop (user_of env s.db r)
          (write_error 401 "Invalid username or password" "INVALID_CREDENTIALS")
    next (signed_in env user, s))

  -- GET /health.
  unfoldable pub health_of : Env F → Request → Server F R → Response F × Server F R
  health_of env req s = finish s (do
    guard (req.method == "GET") method_not_allowed
    let pinged = health_check R s.redis
    let redis_up = is_some pinged.0
    let status = if env.db_ping && redis_up then "running" else "degraded"
    next (
      record {
        status = 200;
        body =
            health status env.db_ping redis_up (ltb 0 (size s.cache))
              (if env.db_ping then or_zero (Masters.count_active (env.reply 0) s.db) else 0)
              (if env.db_ping then or_zero (Followers.count_active (env.reply 1) s.db) else 0);
      },
      record s { redis = pinged.1 },
    ))
