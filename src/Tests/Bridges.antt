-- ===== src/Tests/Bridges.antt =====
-- Examples for the TCP bridge, the relay and the distribution of a signal.
use mathlib.Core.List.{Perm}
use mt5_bridge.Prelude.{
  ℕ, zero, suc, one_if, String, ◌≡◌, refl, ◌≢◌, ◌↔◌, true, false, not, ◌&&◌, Option, none, List, [],
  ◌∷◌, ◌++◌, arith, any, filter, length, ◌+◌, ◌≤◌, ◌==◌, if◌then◌else◌,
}
use mt5_bridge.Go.Int.{pos}
use mt5_bridge.Signal.{Signal}
use mt5_bridge.Signal.Parse.{parse_signal}
use mt5_bridge.Signal.Pipe.{parsed, pipe_parts}
use mt5_bridge.Signal.Pipe
use mt5_bridge.Models.{Follower, FollowerOrder}
use mt5_bridge.Lot.{create_follower_order}
use mt5_bridge.Db.{Db, answered}
use mt5_bridge.Db.Followers.{is_live_active, get_active_followers_by_master, rows_of}
use mt5_bridge.Models.Followers.{is_active, is_deleted}
use mt5_bridge.Redis.Subscriptions.{
  build_subscribe_key, get_followers, clear_master_followers, add_follower,
}
use mt5_bridge.Distribution.{distribute_to_followers, sync_followers, orders_of, sync_with, add_all}
use mt5_bridge.Distribution.Audience.{
  orders_in, is_reached, distribute_to_followers-orders, sync_followers-members,
}
use mt5_bridge.Distribution.Enqueue.{
  Run, start, Reach, here, later, sends, takes, times_out, sent, timed_out, capacity, Reach-start,
}
use mt5_bridge.Relay
use mt5_bridge.Relay.{Round, Event, send_to_server, max_attempts, sent_ok, signal_to_tcp_payload}
use mt5_bridge.Relay.Sending.{writes, dials, rounds_fail, send_to_server_lem}
use mt5_bridge.Relay.Payload.{Agrees, parse_pipe-Agrees}
use mt5_bridge.Tcp
use mt5_bridge.Tcp.{Bridge, crashed, RelayLink, waiting}
use mt5_bridge.Tcp.Lines.{FromJson, Effects, handle_line-crashed_iff, handle_line-FromJson}
use mt5_bridge.Http.Server
use mt5_bridge.Http.Server.Pending.{pending, serve_all-pending}
use mt5_bridge.Signal.Queue.{empty}
use mt5_bridge.Tests.Fixtures.{cents, conversions, json_line, sets, sets-IsDocumented}

abbrev bridge : Bridge ℕ
bridge = record { queue = record { signals = [] }; master_cache = none; relay_host = "relay" }

abbrev short_line : String
short_line = "OPEN|BUY"

handle_line-crashed_iff_example : (Tcp.handle_line conversions 3 bridge short_line ≡ crashed) ↔ (
    (short_line ≢ "")
    × (parse_signal conversions 3 short_line ≡ none)
    × ((action : String) × (side : String) × (pipe_parts short_line ≡ action ∷ side ∷ [])))
handle_line-crashed_iff_example = handle_line-crashed_iff conversions 3 bridge short_line

abbrev lines : List String
lines = json_line ∷ "" ∷ "OPEN|BUY|XAUUSD|0.5" ∷ "noise" ∷ []

handle_line-FromJson_example :
    Effects conversions
      (FromJson conversions 3 json_line)
      (Tcp.handle_line conversions 3 bridge json_line)
handle_line-FromJson_example = handle_line-FromJson conversions 3 bridge json_line

-- The old connection and the first new one fail, the second new one does not.
abbrev net : ℕ → Round
net zero = record { old_write = false; dial = true; new_write = false }
net (suc i) = record { old_write = false; dial = true; new_write = true }

send_to_server_example :
    let sent = send_to_server net true in
    (sent.delivered ≡ not (rounds_fail max_attempts 0 net true))
    × (writes sent.events ≡ one_if sent.delivered)
    × (dials sent.events ≤ max_attempts)
    × (sent.connected ≡ sent.delivered)
send_to_server_example = send_to_server_lem net true

parse_pipe-Agrees_example :
    Agrees
      (Relay.parse_pipe conversions "OPEN|BUY|XAUUSD|0.5")
      (Pipe.parse_pipe conversions 3 "OPEN|BUY|XAUUSD|0.5")
      (pipe_parts "OPEN|BUY|XAUUSD|0.5")
parse_pipe-Agrees_example = parse_pipe-Agrees conversions 3 "OPEN|BUY|XAUUSD|0.5"

abbrev no_json : String → Option (Relay.Signal ℕ)
no_json s = none

abbrev follower : String → String → String → String → Follower ℕ
follower id master_id account_id status = record {
  id = id;
  master_id = master_id;
  account_id = account_id;
  password_hash = "hash";
  server = "demo";
  status = status;
  lot_multiplier = 150;
  deleted_at = none;
  created_at = 1;
  updated_at = 1;
}

-- One account follows two masters.
abbrev db : Db ℕ
db = record {
  masters = [];
  followers =
      follower "f1" "m1" "2001" "active"
      ∷ follower "f2" "m2" "2001" "active"
      ∷ follower "f3" "m1" "2002" "inactive"
      ∷ [];
}

abbrev redis : sets.State
redis = ("master:followers:m1", "2001") ∷ ("master:followers:m1", "2002") ∷ []

abbrev sig : Signal ℕ
sig = record {
  account_id = "1001";
  action = "OPEN";
  side = "BUY";
  symbol = "EURUSD";
  lot = 200;
  sl = 0;
  tp = 0;
  price = 0;
  magic = pos 7;
  pnl = 0;
  comment = "";
  time = 3;
}

distribute_to_followers-orders_example :
    orders_in (distribute_to_followers sets true answered db redis "m1" sig)
    ≡ orders_of sig (filter (is_reached sets redis "m1") db.followers)
unfolding get_followers filter build_subscribe_key
distribute_to_followers-orders_example =
    distribute_to_followers-orders sets sets-IsDocumented answered db redis "m1" sig
      ("2001" ∷ "2002" ∷ []) (ground arith) refl

sync_followers-members_example :
    sets.set_has (sync_followers sets answered db "m1" redis).1 "master:followers:m1" "2002" ≡ (
      if build_subscribe_key "m1" == "master:followers:m1"
      then any
          (λ f. f.account_id == "2002")
          (filter (λ f. f.master_id == "m1" && is_live_active f) db.followers)
      else sets.set_has redis "master:followers:m1" "2002")
unfolding sync_followers get_active_followers_by_master rows_of sync_with add_all
    clear_master_followers add_follower filter is_live_active is_active is_deleted
sync_followers-members_example =
    sync_followers-members sets sets-IsDocumented answered db "m1" redis (ground arith) refl
      "master:followers:m1" "2002"

abbrev order : String → String → FollowerOrder ℕ
order id account_id = create_follower_order (follower id "m1" account_id "active") sig

-- One order is sent and taken, and the other goroutine gives up.
abbrev first : Run ℕ
first =
    sent
      (start sig (follower "f1" "m1" "2001" "active" ∷ follower "f4" "m1" "2004" "active" ∷ []) [])
      [] (order "f1" "2001") (order "f4" "2004" ∷ [])

abbrev second : Run ℕ
second = timed_out first [] (order "f4" "2004") []

abbrev third : Run ℕ
third = record second { channel = []; taken = order "f1" "2001" ∷ [] }

reached :
    Reach
      (start sig (follower "f1" "m1" "2001" "active" ∷ follower "f4" "m1" "2004" "active" ∷ []) [])
      third
unfolding start sent timed_out
reached =
    later
      (later (later here (sends [] (order "f1" "2001") (order "f4" "2004" ∷ []) refl (omega arith)))
        (times_out [] (order "f4" "2004") [] refl))
      (takes (order "f1" "2001") [] refl)

Reach-start_example :
    Perm ((third.taken ++ third.channel) ++ third.given_up) (
      []
      ++ orders_of sig
          (follower "f1" "m1" "2001" "active" ∷ follower "f4" "m1" "2004" "active" ∷ []))
    × ((third.success_count + third.error_count ≡ 2)
        × ((third.error_count ≡ length third.given_up) × (length third.channel ≤ capacity)))
unfolding start sent timed_out
Reach-start_example =
    Reach-start sig (follower "f1" "m1" "2001" "active" ∷ follower "f4" "m1" "2004" "active" ∷ [])
      [] third (omega arith) reached refl

abbrev incoming : String → String → String → Server.Incoming
incoming method path arrives = record {
  method = method;
  path = path;
  arrives = arrives;
  breaks_off = false;
}

-- The queue is cleared between two posts; the handler of the other text panics.
abbrev requests : List (ℕ × Server.Incoming)
requests =
    (1, incoming "POST" "/signal" json_line)
    ∷ (2, incoming "DELETE" "/queue" "")
    ∷ (3, incoming "POST" "/raw" "OPEN|BUY|XAUUSD|0.5")
    ∷ (4, incoming "POST" "/raw" short_line)
    ∷ []

serve_all-pending_example :
    (Server.serve_all conversions requests empty).signals
    ≡ pending conversions empty.signals requests
serve_all-pending_example = serve_all-pending conversions requests empty
