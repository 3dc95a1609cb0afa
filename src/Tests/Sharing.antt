-- ===== src/Tests/Sharing.antt =====
-- Examples for goroutines that share the connection of the relay, or the bridge.
use mt5_bridge.Prelude.{
  zero, suc, ℕ, String, ◌≡◌, refl, Bool, true, false, none, some, List, [], ◌∷◌, ◌++◌, arith,
  one_if, get_elem?, set_at, any,
}
use mt5_bridge.Relay.{Round, send_to_server}
use mt5_bridge.Relay.Shared
use mt5_bridge.Relay.Shared.Alone.{Ends, state, state-Ends}
use mt5_bridge.Relay.Shared.{new_relay, called, steps, ends, Place, returned}
use mt5_bridge.Relay.Shared.Once.{times, has_sent, run-new_relay}
use mt5_bridge.Relay.Shared.Ends.{run-returned}
use mt5_bridge.Signal.Queue
use mt5_bridge.Signal.Parse.{parse_signal}
use mt5_bridge.Tcp.{Bridge, process_signal}
use mt5_bridge.Tcp.Forwarding
use mt5_bridge.Tcp.Forwarding.{new_link}
use mt5_bridge.Tcp.Forwarding.Lost.{run-dropped}
use mt5_bridge.Tcp.Clients
use mt5_bridge.Tcp.Clients.{
  Server, Conn, new_server, client_at, accepts, stops_accepting, registers, reads, notes, handles,
  read_ends, hangs_up, closes_listener, closes_clients, has_returned,
}
use mt5_bridge.Tcp.Clients.Entries.{addr_of, entry_of, IsShut}
use mt5_bridge.Tcp.Clients.Table.{run-entry_of, run-has_returned}
use mt5_bridge.Tcp.Clients.Pushed.{signals_of, lines_handled}
use mt5_bridge.Tcp.Clients.Flows.{held, lines_of}
use mt5_bridge.Tcp.Clients.Interleaved.{lines_scanned, run-bridge}
use mt5_bridge.Tests.Fixtures.{cents, conversions, json_line}

-- Both calls dial; the second one overwrites the connection of the first, whose write then fails and
-- closes the other's.
abbrev both : List Shared.Event
both =
    called
    ∷ called
    ∷ steps 0 true
    ∷ steps 1 true
    ∷ steps 0 true
    ∷ steps 0 true
    ∷ steps 1 true
    ∷ steps 1 true
    ∷ steps 0 false
    ∷ steps 0 true
    ∷ steps 1 true
    ∷ []

-- The second call's write fails, although the network would take it.
second_fails : get_elem? (Shared.run both new_relay).calls 1 ≡ some (Place.dropping_new 0)
unfolding Shared.run set_at any
second_fails = refl

run-new_relay_example :
    let r = Shared.run both new_relay in times 1 r.written ≡ one_if (has_sent (get_elem? r.calls 1))
run-new_relay_example = run-new_relay 1 both

abbrev many : List Shared.Event
many = twice (twice (twice (steps 0 false ∷ steps 1 true ∷ steps 0 false ∷ steps 0 true ∷ [])))
  where
    twice : List Shared.Event → List Shared.Event
    twice es = es ++ es

run-returned_example :
    (sent : Bool) × (get_elem? (Shared.run many (Shared.run both new_relay)).calls 0
      ≡ some (returned sent))
unfolding Shared.run set_at any
run-returned_example =
    run-returned 0 (Place.reading 1) many (Shared.run both new_relay) refl (omega arith)

abbrev bridge : Bridge ℕ
bridge = record { queue = record { signals = [] }; master_cache = none; relay_host = "" }

-- Two terminals connect; the second one sends a line and goes first.
abbrev terminals : List Clients.Event
terminals =
    accepts "10.0.0.1:5000"
    ∷ accepts "10.0.0.2:5000"
    ∷ registers 1 2
    ∷ registers 0 2
    ∷ reads 1 json_line
    ∷ reads 0 json_line
    ∷ notes 0 3
    ∷ notes 1 3
    ∷ handles 1 3
    ∷ read_ends 1
    ∷ hangs_up 1
    ∷ []

abbrev conn : String → Clients.Place → Bool → Conn
conn addr place closed = record { addr = addr; place = place; closed = closed }

abbrev midway : Server ℕ
midway = record {
  bridge = record bridge {
    queue = record { signals = signals_of conversions ((1, 3, json_line) ∷ []) };
  };
  conns =
      conn "10.0.0.1:5000" (Clients.handling json_line) false
      ∷ conn "10.0.0.2:5000" Clients.gone true
      ∷ [];
  clients = (0, record { addr = "10.0.0.1:5000"; seen = 3; account_id = "" }) ∷ [];
  running = 1;
  listening = true;
  done = false;
}

midway_is : Clients.run conversions terminals (new_server bridge) ≡ some midway
unfolding Clients.run Clients.put Clients.remove Clients.client_at set_at parse_signal
    process_signal Queue.push
midway_is = refl

run-entry_of_example :
    (addr_of (client_at 0 midway.clients) ≡ entry_of (get_elem? midway.conns 0))
    × IsShut (get_elem? midway.conns 0)
run-entry_of_example = run-entry_of conversions bridge terminals 0 midway midway_is

run-bridge_example :
    (midway.bridge ≡ record bridge {
      queue = record {
        signals =
            [] ++ signals_of conversions (lines_handled conversions terminals (new_server bridge));
      };
    })
    × ((k : ℕ)
        → lines_scanned conversions k terminals (new_server bridge)
          ≡ lines_of k (lines_handled conversions terminals (new_server bridge))
            ++ held (get_elem? midway.conns k))
run-bridge_example = run-bridge conversions bridge terminals midway midway_is

abbrev shutdown : List Clients.Event
shutdown =
    terminals
    ++ handles 0 4
      ∷ closes_listener
      ∷ closes_clients
      ∷ read_ends 0
      ∷ hangs_up 0
      ∷ stops_accepting
      ∷ []

abbrev stopped : Server ℕ
stopped = record midway {
  bridge = record bridge {
    queue = record {
      signals = signals_of conversions ((1, 3, json_line) ∷ (0, 4, json_line) ∷ []);
    };
  };
  conns = conn "10.0.0.1:5000" Clients.gone true ∷ conn "10.0.0.2:5000" Clients.gone true ∷ [];
  clients = [];
  running = 0;
  listening = false;
  done = true;
}

run-has_returned_example :
    (addr_of (client_at 0 stopped.clients) ≡ none)
    × ((c : Conn) → get_elem? stopped.conns 0 ≡ some c → c.closed ≡ true)
unfolding Clients.run Clients.put Clients.remove Clients.client_at set_at parse_signal
    process_signal Queue.push has_returned
run-has_returned_example = run-has_returned conversions bridge shutdown 0 stopped refl refl

-- The old connection and the first new one fail, the second new one does not.
abbrev net : ℕ → Round
net zero = record { old_write = false; dial = true; new_write = false }
net (suc i) = record { old_write = false; dial = true; new_write = true }

state-Ends_example :
    Ends net (state (some 0) 1 [] (0 ∷ []) [] (Shared.reading 0)) (send_to_server net true)
unfolding any
state-Ends_example = state-Ends net (some 0) 1 [] (0 ∷ []) [] (λ conn l. refl) (omega arith, refl)

-- Two lines are forwarded; the second one is written first.
abbrev overtaken : List Forwarding.Event
overtaken =
    Forwarding.keeps true
    ∷ Forwarding.forwards
    ∷ Forwarding.forwards
    ∷ Forwarding.steps 0 true
    ∷ Forwarding.steps 1 true
    ∷ Forwarding.steps 1 true
    ∷ Forwarding.steps 0 true
    ∷ []

overtaken_is : (Forwarding.run overtaken new_link).written ≡ 1 ∷ 0 ∷ []
unfolding Forwarding.run set_at
overtaken_is = refl

-- The write of the third line fails.
abbrev failing : List Forwarding.Event
failing = overtaken ++ Forwarding.forwards ∷ Forwarding.steps 2 true ∷ Forwarding.steps 2 false ∷ []

run-dropped_example :
    (Forwarding.run
      (Forwarding.steps 2 true
        ∷ Forwarding.keeps true
        ∷ Forwarding.forwards
        ∷ Forwarding.steps 3 true
        ∷ Forwarding.steps 3 true
        ∷ [])
      (Forwarding.run failing new_link)).written
    ≡ (Forwarding.run failing new_link).written
unfolding Forwarding.run set_at
run-dropped_example =
    run-dropped failing
      (Forwarding.keeps true
        ∷ Forwarding.forwards
        ∷ Forwarding.steps 3 true
        ∷ Forwarding.steps 3 true
        ∷ [])
      2 true refl refl
