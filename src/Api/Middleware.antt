-- ===== src/Api/Middleware.antt =====
-- internal/api/middleware.go. The headers of a response are left out.
use mt5_bridge.Prelude.{ℕ, Option, none, some, ◌||◌, ◌&&◌, not, if◌then◌else◌, ◌==◌}
use mt5_bridge.Go.Text.{contains}
use mt5_bridge.Api.{Request, Response, plain, empty_body}

-- A handler gives a response, or panics (`none`).
abbrev pub Handler : Type 0 → Type 0 → Type 0
Handler F S = Request → S → Option (Response F) × S

abbrev pub recovered : {F : Type 0} → Option (Response F) → Response F
recovered none = record { status = 500; body = plain "Internal Server Error" }
recovered (some r) = r

module _ {F S : Type 0} where
  -- Both branches call the next handler: authentication is a placeholder.
  unfoldable pub auth_middleware : Handler F S → Handler F S
  auth_middleware serve_next req s =
      if req.path == "/health" || req.path == "/metrics" then serve_next req s else serve_next req s

  unfoldable pub rate_limit_middleware : ℕ → Handler F S → Handler F S
  rate_limit_middleware requests_per_minute serve_next req s = serve_next req s

  unfoldable pub cors_middleware : Handler F S → Handler F S
  cors_middleware serve_next req s =
      if req.method == "OPTIONS"
      then (some (record { status = 200; body = empty_body }), s)
      else serve_next req s

  unfoldable pub logging_middleware : Handler F S → Handler F S
  logging_middleware serve_next req s = serve_next req s

  unfoldable pub recovery_middleware : Handler F S → Handler F S
  recovery_middleware serve_next req s = let (r, s') = serve_next req s in (some (recovered r), s')

  unfoldable pub validate_content_type : Handler F S → Handler F S
  validate_content_type serve_next req s =
      if (req.method == "POST" || req.method == "PUT")
        && not (contains req.content_type "application/json")
      then (some (record { status = 415; body = plain "Content-Type must be application/json" }), s)
      else serve_next req s
