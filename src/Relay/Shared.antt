-- ===== src/Relay/Shared.antt =====
-- cmd/relay/main.go: `sendToServer` as the goroutines of all clients run it at the same time, over
-- the one connection `serverConn`. The lock is held for a read or a write of that variable alone, so
-- that each place below is a step of its own.
pub mod Moves
pub mod Once
pub mod Ends
pub mod Alone
use mt5_bridge.Prelude.{
  ℕ, suc, Bool, true, false, ◌&&◌, not, Option, none, some, List, [], ◌∷◌, ◌++◌, if◌then◌else◌, ltb,
  nat_eq, any, get_elem?, set_at,
}
use mt5_bridge.Relay.{max_attempts}

-- Where a call of `sendToServer` stands. The number counts the attempts before this one, and a
-- second number is the connection that the call holds.
pub data Place : Type 0 where
  reading : ℕ → Place
  writing_old : ℕ → ℕ → Place
  dropping_old : ℕ → Place
  dialling : ℕ → Place
  publishing : ℕ → ℕ → Place
  writing_new : ℕ → ℕ → Place
  dropping_new : ℕ → Place
  returned : Bool → Place

-- `next_conn`: how many connections have been dialled; `readers`: those that a goroutine of
-- `readServerResponses` reads; `written`: the calls that wrote their line, with the connection.
pub record Relay : Type 0 where
  pub server_conn : Option ℕ
  pub next_conn : ℕ
  pub closed : List ℕ
  pub readers : List ℕ
  pub written : List (ℕ × ℕ)
  pub calls : List Place

abbrev pub new_relay : Relay
new_relay = record {
  server_conn = none;
  next_conn = 0;
  closed = [];
  readers = [];
  written = [];
  calls = [];
}

-- The head of the loop.
unfoldable pub attempt : ℕ → Place
attempt n = if ltb n max_attempts then reading n else returned false

unfoldable pub picked : ℕ → Option ℕ → Place
picked n none = dialling n
picked n (some conn) = writing_old n conn

-- `serverConn.Close(); serverConn = nil`, unless it is nil.
unfoldable pub drop : Option ℕ → Relay → Relay
drop none r = r
drop (some conn) r = record r { server_conn = none; closed = conn ∷ r.closed }

unfoldable pub drop_conn : Relay → Relay
unfolding drop
drop_conn r = drop r.server_conn r

-- A write succeeds if the network takes it and the connection has not been closed.
unfoldable pub is_taken : Relay → Bool → ℕ → Bool
is_taken r network conn = network && not (any (nat_eq conn) r.closed)

unfoldable pub go_to : ℕ → Place → Relay → Relay
go_to call place r = record r { calls = set_at call place r.calls }

unfoldable pub finish : ℕ → ℕ → Relay → Relay
unfolding go_to
finish call conn r = go_to call (returned true) (record r { written = (call, conn) ∷ r.written })

-- The next step of a call that stands at a place; the Boolean is what the network does, if it is
-- asked.
unfoldable pub step_from : Bool → ℕ → Place → Relay → Relay
unfolding attempt picked drop_conn is_taken go_to finish
step_from network call (reading n) r = go_to call (picked n r.server_conn) r
step_from network call (writing_old n conn) r =
    if is_taken r network conn then finish call conn r else go_to call (dropping_old n) r
step_from network call (dropping_old n) r = go_to call (dialling n) (drop_conn r)
step_from network call (dialling n) r =
    if network
    then go_to call (publishing n r.next_conn) (record r { next_conn = suc r.next_conn })
    else go_to call (attempt (suc n)) r
step_from network call (publishing n conn) r =
    go_to call (writing_new n conn)
      (record r { server_conn = some conn; readers = conn ∷ r.readers })
step_from network call (writing_new n conn) r =
    if is_taken r network conn then finish call conn r else go_to call (dropping_new n) r
step_from network call (dropping_new n) r = go_to call (attempt (suc n)) (drop_conn r)
step_from network call (returned sent) r = r

unfoldable pub step_at : Bool → ℕ → Option Place → Relay → Relay
unfolding step_from
step_at network call none r = r
step_at network call (some place) r = step_from network call place r

unfoldable pub step_call : Bool → ℕ → Relay → Relay
unfolding step_at
step_call network call r = step_at network call (get_elem? r.calls call) r

-- A goroutine calls `sendToServer`, a call makes a step, or the reader of a connection finds its end
-- and closes it.
pub data Event : Type 0 where
  called : Event
  steps : ℕ → Bool → Event
  ends : ℕ → Event

unfoldable pub run_event : Event → Relay → Relay
unfolding step_call attempt
run_event called r = record r { calls = r.calls ++ attempt 0 ∷ [] }
run_event (steps call network) r = step_call network call r
run_event (ends conn) r =
    if any (nat_eq conn) r.readers then record r { closed = conn ∷ r.closed } else r

-- Any order of the steps of the calls.
unfoldable pub run : List Event → Relay → Relay
unfolding run_event
run [] r = r
run (e ∷ es) r = run es (run_event e r)
