-- ===== src/Api/Routes.antt =====
-- internal/api/routes.go: the routes and the chain of middleware. Paths are clean: `http.ServeMux`
-- redirects any other path before it comes to a handler.
pub mod Substring
pub mod Consistent
use Prim.Native.String.{◌∷◌, []}
use mt5_bridge.Prelude.{ℕ, String, Bool, Option, some, ◌||◌, ◌&&◌, if◌then◌else◌, ◌==◌}
use mt5_bridge.Go.Float.{Float64}
use mt5_bridge.Go.Text.{has_prefix}
use mt5_bridge.Redis.{Redis}
use mt5_bridge.Api.{Server, Request, Env, Response, plain}
use mt5_bridge.Api.Masters.{create_master, delete_master, get_master_followers}
use mt5_bridge.Api.Followers.{register_follower, start_following, stop_following, delete_follower}
use mt5_bridge.Api.Accounts.{login, health_of}
use mt5_bridge.Api.Middleware.{
  Handler, auth_middleware, cors_middleware, logging_middleware, recovery_middleware,
  validate_content_type,
}

-- The loop compares `path[i:i+len(substr)]` for each `i` at which it fits.
unfoldable pub contains_substring : String → String → Bool
contains_substring [] substr = has_prefix [] substr
contains_substring (c ∷ path) substr =
    has_prefix (c ∷ path) substr || contains_substring path substr

module _ {F : Type 0} (R : Redis) ⦃fl : Float64 F⦄ where
  -- `http.NotFound`.
  abbrev not_found : Server F R → Response F × Server F R
  not_found s = (record { status = 404; body = plain "404 page not found" }, s)

  unfoldable pub route_masters : Env F → Request → Server F R → Response F × Server F R
  route_masters env req s =
      if req.method == "POST" && contains_substring req.path "/followers"
      then register_follower R env req s
      else if req.method == "GET" && contains_substring req.path "/followers"
      then get_master_followers R env req s
      else if req.method == "DELETE"
      then delete_master R env req s
      else not_found s

  unfoldable pub route_followers : Env F → Request → Server F R → Response F × Server F R
  route_followers env req s =
      if req.method == "POST" && contains_substring req.path "/start"
      then start_following R env req s
      else if req.method == "POST" && contains_substring req.path "/stop"
      then stop_following R env req s
      else if req.method == "DELETE"
      then delete_follower R env req s
      else not_found s

  -- The mux takes the whole path, or the longest prefix that is registered, and redirects a path that
  -- is registered with a slash at its end only. The page of the metrics and the link in the body of the
  -- redirection are left out.
  unfoldable pub mux : Env F → Request → Server F R → Response F × Server F R
  mux env req s =
      if req.path == "/api/auth/login"
      then login R env req s
      else if req.path == "/api/masters"
      then create_master R env req s
      else if has_prefix req.path "/api/masters/"
      then route_masters env req s
      else if has_prefix req.path "/api/followers/"
      then route_followers env req s
      else if req.path == "/api/followers"
      then (record { status = 301; body = plain "Moved Permanently" }, s)
      else if req.path == "/health"
      then health_of R env req s
      else if req.path == "/metrics"
      then (record { status = 200; body = plain "metrics" }, s)
      else not_found s

  abbrev mux_handler : Env F → Handler F (Server F R)
  mux_handler env req s = let (r, s') = mux env req s in (some r, s')

  -- The handler that `StartServer` builds.
  unfoldable pub serve : Env F → Handler F (Server F R)
  serve env = validate_content_type (
      auth_middleware
        (cors_middleware (logging_middleware (recovery_middleware (mux_handler env)))))
