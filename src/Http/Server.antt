-- ===== src/Http/Server.antt =====
-- cmd/http/main.go: how much of a body is read, the routes that `main` sets up, and the requests that
-- the server handles one after the other.
pub mod Pending
use Prim.Native.String.{String, ◌∷◌, []}
use mt5_bridge.Prelude
use mt5_bridge.Prelude.{
  ℕ, zero, suc, ◌*◌, Bool, true, false, ◌&&◌, not, Option, none, some, List, if◌then◌else◌, ◌==◌,
}
use mt5_bridge.Go.Float.{Float64}
use mt5_bridge.Signal.{Signal, Conversions}
use mt5_bridge.Signal.Queue.{Queue}
use mt5_bridge.Http.{
  Body, Response, Handled, no_body, handle_signal, handle_queue, handle_health, handle_raw,
}

-- A body: what arrives, and whether reading it ends with an error. Characters stand for bytes.
pub record Incoming : Type 0 where
  pub method : String
  pub path : String
  pub arrives : String
  pub breaks_off : Bool

-- `io.ReadAll(io.LimitReader(r.Body, n))`: what is read, and whether the limit came first.
unfoldable pub read_limited : ℕ → String → String × Bool
read_limited zero text = ([], true)
read_limited (suc n) [] = ([], false)
read_limited (suc n) (c ∷ text) = let (read, full) = read_limited n text in (c ∷ read, full)

abbrev pub signal_limit : ℕ
signal_limit = 32 * 1024

abbrev pub raw_limit : ℕ
raw_limit = 4 * 1024

-- The body as `/signal` reads it, with its check of the error, and as `/raw` does, without it.
unfoldable pub signal_body : Incoming → Option String
unfolding read_limited
signal_body r =
    let (read, full) = read_limited signal_limit r.arrives in
    if r.breaks_off && not full then none else some read

unfoldable pub raw_body : Incoming → String
unfolding read_limited
raw_body r = (read_limited raw_limit r.arrives).0

module _ {F : Type 0} ⦃fl : Float64 F⦄ (cv : Conversions F) where
  -- The routes; any other path is not found.
  unfoldable pub serve : ℕ → Incoming → Queue (Signal F) → Handled F
  unfolding handle_signal handle_queue handle_health handle_raw signal_body raw_body
  serve now r q =
      if r.path == "/signal"
      then handle_signal cv now r.method (signal_body r) q
      else if r.path == "/queue"
      then handle_queue r.method q
      else if r.path == "/health"
      then handle_health q
      else if r.path == "/raw"
      then handle_raw cv now r.method (raw_body r) q
      else (some (record { status = 404; body = no_body }), q)

  -- Requests with their times. Every handler touches the queue in one step, so that requests at the
  -- same time come in some order.
  unfoldable pub serve_all : List (ℕ × Incoming) → Queue (Signal F) → Queue (Signal F)
  unfolding serve
  serve_all Prelude.[] q = q
  serve_all (Prelude.◌∷◌ (now, r) rs) q = serve_all rs (serve now r q).1
