-- ===== src/Tcp/Clients.antt =====
-- cmd/tcp/main.go: the accept loop, the goroutine of each connection with its entry in the table of
-- clients, and the shutdown. The goroutines share the bridge; their steps come in any order.
pub mod Entries
pub mod Steps
pub mod Table
pub mod Pushed
pub mod Flows
pub mod Interleaved
use mt5_bridge.Prelude.{
  ℕ, suc, ◌-◌, String, Bool, true, false, ◌&&◌, not, Option, none, some, List, [], ◌∷◌, ◌++◌,
  if◌then◌else◌, ◌==◌, nat_eq, get_elem?, set_at, is_some, and_then,
}
use mt5_bridge.Go.Float.{Float64}
use mt5_bridge.Signal.{Conversions}
use mt5_bridge.Tcp.{Bridge, Handled, crashed, handled, handle_line}

-- Where `handleConn` stands: before its entry in the table; in the loop of the scanner, where it waits
-- for `Scan`, has a line and has yet to note the time, or has noted it and has yet to handle the line;
-- between the deletion of the entry and the close; and after its return.
pub data Place : Type 0 where
  accepted serving : Place
  noting handling : String → Place
  leaving gone : Place

pub record Conn : Type 0 where
  pub addr : String
  pub place : Place
  pub closed : Bool

pub record Client : Type 0 where
  pub addr : String
  pub seen : ℕ
  pub account_id : String

abbrev pub Clients : Type 0
Clients = List (ℕ × Client)

-- `clients[conn]`, `clients[conn] = client` and `delete(clients, conn)`, a connection being its
-- number.
unfoldable pub client_at : ℕ → Clients → Option Client
client_at conn [] = none
client_at conn ((key, client) ∷ clients) =
    let later = client_at conn clients in if nat_eq key conn then some client else later

unfoldable pub put : ℕ → Client → Clients → Clients
put conn client [] = (conn, client) ∷ []
put conn client ((key, old) ∷ clients) =
    let later = put conn client clients in
    if nat_eq key conn then (conn, client) ∷ clients else (key, old) ∷ later

unfoldable pub remove : ℕ → Clients → Clients
remove conn [] = []
remove conn ((key, client) ∷ clients) =
    let later = remove conn clients in if nat_eq key conn then later else (key, client) ∷ later

-- The entries in the order of a `range` over the map.
unfoldable pub get_conn_by_addr : String → Clients → Option ℕ
get_conn_by_addr addr [] = none
get_conn_by_addr addr ((conn, client) ∷ clients) =
    let later = get_conn_by_addr addr clients in if client.addr == addr then some conn else later

-- `listening`: the listener is open; `done`: the accept loop has ended; `running`: the counter of
-- the wait group.
pub record Server (F : Type 0) : Type 0 where
  pub bridge : Bridge F
  pub conns : List Conn
  pub clients : Clients
  pub running : ℕ
  pub listening : Bool
  pub done : Bool

abbrev pub new_server : {F : Type 0} → Bridge F → Server F
new_server bridge = record {
  bridge = bridge;
  conns = [];
  clients = [];
  running = 0;
  listening = true;
  done = false;
}

-- `c.Close()` for each connection of the table; the number is that of the first connection.
unfoldable pub close_listed : ℕ → Clients → List Conn → List Conn
close_listed i clients [] = []
close_listed i clients (c ∷ cs) =
    (if is_some (client_at i clients) then record c { closed = true } else c)
    ∷ close_listed (suc i) clients cs

module _ {F : Type 0} where
  unfoldable pub accept : String → Server F → Server F
  accept addr s =
      if s.listening && not s.done
      then record s {
        conns = s.conns ++ record { addr = addr; place = accepted; closed = false } ∷ [];
        running = suc s.running;
      }
      else s

  -- `Accept` fails because the listener is closed.
  unfoldable pub stop_accepting : Server F → Server F
  stop_accepting s = if s.listening then s else record s { done = true }

  unfoldable pub place_conn : ℕ → Place → Conn → Server F → Server F
  place_conn i place c s = record s { conns = set_at i (record c { place = place }) s.conns }

  -- The steps of `handleConn`. A step that is not the next one of the connection
  -- does not take place.
  unfoldable pub register : ℕ → ℕ → Conn → Place → Server F → Server F
  unfolding place_conn
  register i now c accepted s = record (place_conn i serving c s) {
    clients = put i (record { addr = c.addr; seen = now; account_id = "" }) s.clients;
  }
  register i now c _ s = s

  -- `Scan` gives a line. An empty one is skipped.
  unfoldable pub scan_line : ℕ → String → Conn → Place → Server F → Server F
  unfolding place_conn
  scan_line i line c serving s = if line == "" then s else place_conn i (noting line) c s
  scan_line i line c _ s = s

  unfoldable pub unregister : ℕ → Conn → Place → Server F → Server F
  unfolding place_conn
  unregister i c serving s = record (place_conn i leaving c s) { clients = remove i s.clients }
  unregister i c _ s = s

  unfoldable pub hang_up : ℕ → Conn → Place → Server F → Server F
  unfolding place_conn
  hang_up i c leaving s = record (place_conn i gone (record c { closed = true }) s) {
    running = s.running - 1;
  }
  hang_up i c _ s = s

  -- `c.seen = time.Now()`, if there is an entry.
  unfoldable pub touch : ℕ → ℕ → Option Client → Server F → Server F
  touch i now none s = s
  touch i now (some client) s = record s {
    clients = put i (record client { seen = now }) s.clients;
  }

  unfoldable pub note_seen : ℕ → ℕ → Conn → Place → Server F → Server F
  unfolding place_conn touch
  note_seen i now c (noting line) s =
      touch i now (client_at i s.clients) (place_conn i (handling line) c s)
  note_seen i now c _ s = s

  unfoldable pub with_bridge : Server F → Handled F → Option (Server F)
  with_bridge s crashed = none
  with_bridge s (handled b effects) = some (record s { bridge = b })

-- What can happen: a connection arrives, the listener is found closed, a step of the goroutine of a
-- connection, with the time, and the steps of the shutdown.
pub data Event : Type 0 where
  accepts : String → Event
  stops_accepting : Event
  registers : ℕ → ℕ → Event
  reads : ℕ → String → Event
  notes handles : ℕ → ℕ → Event
  read_ends hangs_up : ℕ → Event
  closes_listener closes_clients exits : Event

module _ {F : Type 0} ⦃fl : Float64 F⦄ (cv : Conversions F) where
  -- The line is read and its signal pushed. Only the push touches what the goroutines share.
  unfoldable pub handle_scanned : ℕ → ℕ → Conn → Place → Server F → Option (Server F)
  unfolding handle_line place_conn with_bridge
  handle_scanned i now c (handling line) s =
      with_bridge (place_conn i serving c s) (handle_line cv now s.bridge line)
  handle_scanned i now c _ s = some s

  unfoldable pub conn_event : Event → Option Conn → Server F → Option (Server F)
  unfolding register unregister hang_up scan_line note_seen handle_scanned
  conn_event (registers i now) (some c) s = some (register i now c c.place s)
  conn_event (reads i line) (some c) s = some (scan_line i line c c.place s)
  conn_event (notes i now) (some c) s = some (note_seen i now c c.place s)
  conn_event (handles i now) (some c) s = handle_scanned i now c c.place s
  conn_event (read_ends i) (some c) s = some (unregister i c c.place s)
  conn_event (hangs_up i) (some c) s = some (hang_up i c c.place s)
  conn_event _ _ s = some s

  -- `none`: the process has ended.
  unfoldable pub run_event : Event → Server F → Option (Server F)
  unfolding accept stop_accepting conn_event close_listed
  run_event (accepts addr) s = some (accept addr s)
  run_event stops_accepting s = some (stop_accepting s)
  run_event (registers i now) s = conn_event (registers i now) (get_elem? s.conns i) s
  run_event (reads i line) s = conn_event (reads i line) (get_elem? s.conns i) s
  run_event (notes i now) s = conn_event (notes i now) (get_elem? s.conns i) s
  run_event (handles i now) s = conn_event (handles i now) (get_elem? s.conns i) s
  run_event (read_ends i) s = conn_event (read_ends i) (get_elem? s.conns i) s
  run_event (hangs_up i) s = conn_event (hangs_up i) (get_elem? s.conns i) s
  run_event closes_listener s = some (record s { listening = false })
  run_event closes_clients s = some (record s { conns = close_listed 0 s.clients s.conns })
  run_event exits s = none

  unfoldable pub run : List Event → Server F → Option (Server F)
  unfolding run_event
  run [] s = some s
  run (e ∷ es) s = and_then (run_event e s) (run es)

-- `wg.Wait()` returns, and then `main`.
unfoldable pub has_returned : {F : Type 0} → Server F → Bool
has_returned s = s.done && nat_eq s.running 0
