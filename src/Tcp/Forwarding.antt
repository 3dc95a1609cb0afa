-- ===== src/Tcp/Forwarding.antt =====
-- cmd/tcp/main.go: the goroutines that forward the lines, each through `sendToRelay`, and
-- `keepRelayConnection`, over the one connection `relayConn`. The lock is held for a read or a write of
-- that variable alone.
pub mod Lost
use mt5_bridge.Prelude.{
  ℕ, Bool, true, false, ◌&&◌, Option, none, some, List, [], ◌∷◌, ◌++◌, if◌then◌else◌, get_elem?,
  set_at,
}

-- Where the goroutine of a line stands; it ends with the line written or not.
pub data Place : Type 0 where
  starting writing dropping : Place
  ended : Bool → Place

-- `waits`: `keepRelayConnection` has dialled, which it does once, and waits for the shutdown;
-- `is_set`: `relayConn` is not nil; `is_open`: the connection that was dialled has not been closed;
-- `written`: the lines by their numbers, in the order in which they were written.
pub record Link : Type 0 where
  pub waits : Bool
  pub is_set : Bool
  pub is_open : Bool
  pub written : List ℕ
  pub senders : List Place

abbrev pub new_link : Link
new_link = record { waits = false; is_set = false; is_open = false; written = []; senders = [] }

unfoldable pub dial : Bool → Link → Link
dial network l =
    if l.waits
    then l
    else if network
    then record l { waits = true; is_set = true; is_open = true }
    else l

-- `relayConn.Close(); relayConn = nil`, unless it is nil.
unfoldable pub drop : Link → Link
drop l = if l.is_set then record l { is_set = false; is_open = false } else l

unfoldable pub go_to : ℕ → Place → Link → Link
go_to i place l = record l { senders = set_at i place l.senders }

unfoldable pub step_from : Bool → ℕ → Place → Link → Link
unfolding drop go_to
step_from network i starting l = go_to i (if l.is_set then writing else ended false) l
step_from network i writing l =
    if network && l.is_open
    then go_to i (ended true) (record l { written = l.written ++ i ∷ [] })
    else go_to i dropping l
step_from network i dropping l = go_to i (ended false) (drop l)
step_from network i (ended sent) l = l

unfoldable pub step_at : Bool → ℕ → Option Place → Link → Link
unfolding step_from
step_at network i none l = l
step_at network i (some place) l = step_from network i place l

-- A line is to be forwarded, the goroutine of a line makes a step, or the keeper tries to dial.
pub data Event : Type 0 where
  forwards : Event
  steps : ℕ → Bool → Event
  keeps : Bool → Event

unfoldable pub run_event : Event → Link → Link
unfolding step_at dial
run_event forwards l = record l { senders = l.senders ++ starting ∷ [] }
run_event (steps i network) l = step_at network i (get_elem? l.senders i) l
run_event (keeps network) l = dial network l

-- Any order of the steps.
unfoldable pub run : List Event → Link → Link
unfolding run_event
run [] l = l
run (e ∷ es) l = run es (run_event e l)
