-- ===== src/Redis/Client.antt =====
-- internal/redis/client.go: the configuration from the environment, and connecting.
pub mod Connecting
use Prim.Native.String
use mt5_bridge.Prelude.{
  ℕ, zero, suc, String, Bool, true, false, Option, none, some, ◌*◌, if◌then◌else◌, ◌==◌, nat_eq,
}
use mt5_bridge.Go.Int.{ℤ, pos}
use mt5_bridge.Go.Retry.{retry}

-- `strconv.Atoi`, `time.ParseDuration` (in nanoseconds) and "%d".
pub record Numbers : Type 0 where
  pub atoi : String → Option ℤ
  pub parse_duration : String → Option ℤ
  pub show_int : ℤ → String

abbrev pub Environment : Type 0
Environment = String → String

-- In nanoseconds.
abbrev seconds : ℕ → ℤ
seconds n = pos (n * 1_000_000_000)

abbrev default_pool_size : ℤ
default_pool_size = pos 50

abbrev default_min_idle_conns : ℤ
default_min_idle_conns = pos 20

abbrev default_dial_timeout : ℤ
default_dial_timeout = seconds 2

abbrev default_read_timeout : ℤ
default_read_timeout = seconds 1

abbrev default_write_timeout : ℤ
default_write_timeout = seconds 1

abbrev default_pool_timeout : ℤ
default_pool_timeout = pos 500_000_000

abbrev default_read_buffer_size : ℤ
default_read_buffer_size = pos 4096

abbrev default_write_buffer_size : ℤ
default_write_buffer_size = pos 4096

pub record Config : Type 0 where
  pub host : String
  pub port : ℤ
  pub password : String
  pub db : ℤ
  pub pool_size : ℤ
  pub min_idle_conns : ℤ
  pub pool_timeout : ℤ
  pub read_buffer_size : ℤ
  pub write_buffer_size : ℤ
  pub use_tls : Bool

-- What `redis.NewClient` is given. `tls` holds the server's name.
pub record Options : Type 0 where
  pub addr : String
  pub password : String
  pub db : ℤ
  pub pool_size : ℤ
  pub min_idle_conns : ℤ
  pub dial_timeout : ℤ
  pub read_timeout : ℤ
  pub write_timeout : ℤ
  pub pool_timeout : ℤ
  pub tls : Option String

unfoldable pub get_env_or_default : Environment → String → String → String
get_env_or_default env key default_value =
    let value = env key in if value == "" then default_value else value

-- A value that is set and can be read, or the default.
unfoldable pub parsed_or : {A : Type 0} → Environment → (String → Option A) → String → A → A
parsed_or env parse key default_value =
    let value = env key in
    if value == ""
    then default_value
    else elim (parse value) [ none ↦ default_value | some parsed ↦ parsed ]

unfoldable pub new_config : Numbers → Environment → Config
unfolding parsed_or get_env_or_default
new_config numbers env = record {
  host = get_env_or_default env "REDIS_HOST" "localhost";
  port = parsed_or env numbers.atoi "REDIS_PORT" (pos 6379);
  password = env "REDIS_PASSWORD";
  db = parsed_or env numbers.atoi "REDIS_DB" (pos 0);
  pool_size = parsed_or env numbers.atoi "REDIS_POOL_SIZE" default_pool_size;
  min_idle_conns = default_min_idle_conns;
  pool_timeout = parsed_or env numbers.parse_duration "REDIS_POOL_TIMEOUT" default_pool_timeout;
  read_buffer_size = parsed_or env numbers.atoi "REDIS_READ_BUFFER" default_read_buffer_size;
  write_buffer_size = parsed_or env numbers.atoi "REDIS_WRITE_BUFFER" default_write_buffer_size;
  use_tls = env "REDIS_USE_TLS" == "true";
}

infixr 65 ◌<>◌
abbrev ◌<>◌ : String → String → String
a <> b = String.◌++◌ a b

unfoldable pub options_of : Numbers → Config → Options
options_of numbers cfg = record {
  addr = cfg.host <> ":" <> numbers.show_int cfg.port;
  password = cfg.password;
  db = cfg.db;
  pool_size = cfg.pool_size;
  min_idle_conns = cfg.min_idle_conns;
  dial_timeout = default_dial_timeout;
  read_timeout = default_read_timeout;
  write_timeout = default_write_timeout;
  pool_timeout = default_pool_timeout;
  tls = if cfg.use_tls then some cfg.host else none;
}

-- The test is whether a client with these options answers a PING within five seconds.
unfoldable pub new_client : Numbers → (Options → Bool) → Config → Option Options
unfolding options_of
new_client numbers answers cfg =
    let options = options_of numbers cfg in if answers options then some options else none

-- `NewClientFromEnv` at a try: whether it gives a client. The server may answer at one try and not at
-- another.
unfoldable pub new_client_from_env : Numbers → Environment → (Options → Bool) → Option Options
unfolding new_client new_config
new_client_from_env numbers env answers = new_client numbers answers (new_config numbers env)

abbrev pub max_retries : ℕ
max_retries = 10

-- What happens at a try of `Connect`: the context is done before it, it gives a client, the context is
-- done while it waits for the next one.
pub record Try : Type 0 where
  pub done_before : Bool
  pub connects : Bool
  pub done_waiting : Bool

pub data Connection : Type 0 where
  cancelled gave_up : Connection
  connected : ℕ → Connection

-- The tries from `i` on, so many left.
unfoldable pub connect_from : ℕ → ℕ → (ℕ → Try) → Connection
connect_from zero i tries = gave_up
connect_from (suc left) i tries =
    let later = connect_from left (suc i) tries in
    if (tries i).done_before
    then cancelled
    else if (tries i).connects
    then connected i
    else if nat_eq left 0
    then later
    else if (tries i).done_waiting
    then cancelled
    else later

-- On success the client, known by the number of its try, becomes the global `clientInstance`.
unfoldable pub keep_client : Connection → Option ℕ → Connection × Option ℕ
keep_client cancelled instance_ = (cancelled, instance_)
keep_client gave_up instance_ = (gave_up, instance_)
keep_client (connected i) instance_ = (connected i, some i)

unfoldable pub connect : (ℕ → Try) → Option ℕ → Connection × Option ℕ
unfolding connect_from keep_client
connect tries instance_ = keep_client (connect_from max_retries 0 tries) instance_

-- The endless loop of `ConnectWithRetry`, for so many tries: the client, if one of them gives it,
-- which is the global one too.
unfoldable pub connect_with_retry : ℕ → (ℕ → Bool) → Option ℕ
unfolding retry
connect_with_retry tries connects = retry tries 0 connects
