-- ===== src/Tests/Broadcast.antt =====
-- Examples for the broadcaster of signals.
use mt5_bridge.Prelude.{
  ℕ, String, ◌≡◌, refl, true, not, Option, none, some, List, [], ◌∷◌, any, count, lookup, insert,
  set_at, get_elem?, is_some, if◌then◌else◌, ◌==◌,
}
use mt5_bridge.Go.Int.{pos}
use mt5_bridge.Go.Channel.{send, receive, close_channel}
use mt5_bridge.Signal.{Signal}
use mt5_bridge.Redis.FastLookup.{InfoJson}
use mt5_bridge.Redis.{Redis}
use mt5_bridge.Redis.SignalHub.{
  SignalJson, message, sends, listen, receive_message, offer_signal, build_channel_key,
  new_signal_hub, store_client, unsubscribe_from_master,
}
use mt5_bridge.Broadcast.{
  Broadcaster, Feed, Event, subscribes, registers, stops, moves, listens, next, offers, new_feed,
  new_broadcaster, close_buffer, at_feed, close_feed, stop_feed, stop_follower, subscribe_to_master,
  register_feed, range_next, offer, forward, with_source, feed_step, step, run,
}
use mt5_bridge.Broadcast.InOrder.{IsInOrder, run-IsInOrder}
use mt5_bridge.Broadcast.Stuck.{IsRunning, delivered}
use mt5_bridge.Broadcast.Stopped.{has_next, stop_follower-run}
use mt5_bridge.Broadcast.Publish.{
  answers, is_active_of, publish_all, group_followers, broadcast_to_followers,
  broadcast_to_followers-once,
}
use mt5_bridge.Tests.Fixtures.{sets}

abbrev sig : Signal ℕ
sig = record {
  account_id = "1001";
  action = "OPEN";
  side = "BUY";
  symbol = "EURUSD";
  lot = 200;
  sl = 0;
  tp = 0;
  price = 0;
  magic = pos 7;
  pnl = 0;
  comment = "";
  time = 3;
}

-- One signal has a JSON form.
abbrev json : SignalJson ℕ
json = record {
  marshal = λ s. some "open";
  unmarshal = λ text. if text == "open" then some sig else none;
}

-- A worker starts, and its first signal comes through; then another one is decoded.
abbrev events : List Event
events =
    subscribes true "w" "m1"
    ∷ registers 0
    ∷ moves 0 (listens (message (some "open")))
    ∷ moves 0 (listens (message (some "noise")))
    ∷ moves 0 (listens sends)
    ∷ moves 0 next
    ∷ moves 0 offers
    ∷ moves 0 (listens (message (some "open")))
    ∷ moves 0 (listens sends)
    ∷ []

abbrev or_new : Option (Broadcaster ℕ) → Broadcaster ℕ
or_new none = new_broadcaster
or_new (some b) = b

abbrev first_feed : List (Feed ℕ) → Feed ℕ
first_feed [] = new_feed "" ""
first_feed (f ∷ fs) = f

abbrev begun : Broadcaster ℕ
begun = or_new (run json events new_broadcaster)

run-IsInOrder_example : IsInOrder json (first_feed begun.feeds)
unfolding run step new_broadcaster subscribe_to_master register_feed at_feed feed_step listen
    receive_message offer_signal with_source forward range_next offer send receive set_at
    new_signal_hub insert build_channel_key store_client
run-IsInOrder_example = run-IsInOrder json events begun 0 (first_feed begun.feeds) refl refl

abbrev stopped : Broadcaster ℕ
stopped = or_new (run json (stops "w" ∷ []) begun)

stop_follower-run_example :
    (f : Feed ℕ) × ((get_elem? stopped.feeds 0 ≡ some f)
      × (IsRunning f.forwarder
          × ((delivered f ≡ delivered (first_feed begun.feeds))
              × (is_some (run json (moves 0 next ∷ moves 0 offers ∷ []) stopped)
                  ≡ not (has_next f.forwarder (receive f.source.signal_ch))))))
unfolding run step new_broadcaster subscribe_to_master register_feed at_feed feed_step listen
    receive_message offer_signal with_source forward range_next offer send receive set_at
    new_signal_hub insert build_channel_key store_client stop_follower stop_feed close_feed
    close_buffer close_channel lookup unsubscribe_from_master
stop_follower-run_example =
    stop_follower-run json "w" [] begun stopped 0 (first_feed begun.feeds) refl refl tt refl refl

-- A server that knows two followers of one master.
abbrev infos : InfoJson ℕ
infos = record {
  marshal = λ info. none;
  unmarshal = λ text. some (record {
    master_id = text;
    account_id = "2001";
    server = "demo";
    lot_multiplier = 100;
    status = "active";
  });
}

abbrev texts : Redis
texts = record sets { get = λ k s. (if k == "follower:f3" then none else some "m1", s) }

broadcast_to_followers-once_example :
    (masters : List String) × ((broadcast_to_followers texts infos json
          ("f1" ∷ "f2" ∷ "f3" ∷ [])
          sig
          []
        ≡ (
          some tt,
          publish_all texts json masters sig
              (group_followers texts infos ("f1" ∷ "f2" ∷ "f3" ∷ []) [] []).1,
        ))
      × ((m : String)
          → count (λ k. k == m) masters ≡ (
              if any (is_active_of m) (answers texts infos ("f1" ∷ "f2" ∷ "f3" ∷ []) [])
              then 1
              else 0)))
broadcast_to_followers-once_example =
    broadcast_to_followers-once texts infos json ("f1" ∷ "f2" ∷ "f3" ∷ []) sig []
