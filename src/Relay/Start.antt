-- ===== src/Relay/Start.antt =====
-- `main` of cmd/relay/main.go up to its accept loop.
use Prim.Native.String.{◌++◌}
use mt5_bridge.Prelude.{String, Bool, ◌||◌, if◌then◌else◌, ◌==◌}

-- `getEnv`; a variable that is not set is empty.
unfoldable pub get_env : (String → String) → String → String → String
get_env env key fallback = if env key == "" then fallback else env key

-- The process exits with status 1 where the target is not set or the address cannot be bound, and
-- else listens at an address and forwards to one.
pub data Start : Type 0 where
  unset unbound : Start
  listens : String → String → Start

-- Whether an address can be bound is told by the network.
unfoldable pub start : (String → String) → (String → Bool) → Start
unfolding get_env
start env can_bind =
    let host = env "FORWARD_TO_HOST" in
    let port = env "FORWARD_TO_PORT" in
    let addr = ":" ++ get_env env "RELAY_PORT" "8082" in
    if host == "" || port == ""
    then unset
    else if can_bind addr
    then listens addr (host ++ ":" ++ port)
    else unbound
