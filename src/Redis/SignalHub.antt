-- ===== src/Redis/SignalHub.antt =====
-- internal/redis/signal_hub.go: the publication of a signal, the subscription of a worker to a master
-- and the goroutine that decodes what the subscription receives.
use Prim.Native.String
use mt5_bridge.Prelude.{
  ℕ, String, Bool, Option, none, some, List, [], ◌∷◌, ◌++◌, Assoc, lookup, insert, delete, length,
  and_then, if◌then◌else◌,
}
use mt5_bridge.Go.Channel.{Chan, new_channel, waits, panics, stored, send, close_channel}
use mt5_bridge.Signal.{Signal}
use mt5_bridge.Redis.{Redis, Cmd, continue}
use mt5_bridge.Redis.FastLookup.{or_error}

-- `json.Marshal` and `json.Unmarshal` of a `signal.Signal`.
pub record SignalJson (F : Type 0) : Type 0 where
  pub marshal : Signal F → Option String
  pub unmarshal : String → Option (Signal F)

abbrev pub signal_channel_prefix : String
signal_channel_prefix = "signal:channel:"

abbrev pub pub_sub_buf_size : ℕ
pub_sub_buf_size = 4096

unfoldable pub build_channel_key : String → String
build_channel_key master_id = String.◌++◌ signal_channel_prefix master_id

unfoldable pub publish_signal :
    {F : Type 0} (R : Redis) → SignalJson F → String → Signal F → Cmd R.State (Unit {0})
unfolding build_channel_key
publish_signal R json master_id sig = λ s.
    continue (or_error (json.marshal sig) s)
      (λ data_. R.publish (build_channel_key master_id) data_)

-- The goroutine of a subscription: it waits for a message, holds a decoded signal that it offers to
-- `signalCh`, or has returned, with the signal that it then still held.
pub data Listener (F : Type 0) : Type 0 where
  listening : Listener F
  holding : Signal F → Listener F
  finished : List (Signal F) → Listener F

-- `payloads` are the messages received so far.
pub record Subscription (F : Type 0) : Type 0 where
  pub channel : String
  pub payloads : List String
  pub listener : Listener F
  pub signal_ch : Chan (Signal F)

-- What the goroutine meets next: the context is done, a message (`none` is Go's nil), or its turn to
-- send.
pub data ListenerEvent : Type 0 where
  context_done : ListenerEvent
  message : Option String → ListenerEvent
  sends : ListenerEvent

module _ {F : Type 0} where
  abbrev pub subscription : String → Subscription F
  subscription master_id = record {
    channel = build_channel_key master_id;
    payloads = [];
    listener = listening;
    signal_ch = new_channel;
  }

  -- `defer close(signalCh)`. `none` is a panic.
  unfoldable pub return_with : List (Signal F) → Subscription F → Option (Subscription F)
  unfolding close_channel
  return_with held s =
      and_then (close_channel s.signal_ch)
        λ ch. some (record s { listener = finished held; signal_ch = ch })

  unfoldable pub receive_message :
      SignalJson F → Option String → Subscription F → Option (Subscription F)
  unfolding return_with
  receive_message json none s = return_with [] s
  receive_message json (some payload) s =
      let s' = record s { payloads = s.payloads ++ payload ∷ [] } in
      elim (json.unmarshal payload) [
        | none ↦ some s'
        | some sig ↦ some (record s' { listener = holding sig })
      ]

  unfoldable pub offer_signal : Signal F → Subscription F → Option (Subscription F)
  unfolding send
  offer_signal sig s = elim (send pub_sub_buf_size sig s.signal_ch) [
    | waits ↦ some s
    | panics ↦ none
    | stored ch ↦ some (record s { listener = listening; signal_ch = ch })
  ]

  -- One step of the goroutine. An event that does not fit its place leaves it where it is.
  unfoldable pub listen :
      SignalJson F → Bool → ListenerEvent → Listener F → Subscription F → Option (Subscription F)
  unfolding return_with receive_message offer_signal
  listen json cancelled context_done listening s = if cancelled then return_with [] s else some s
  listen json cancelled context_done (holding sig) s =
      if cancelled then return_with (sig ∷ []) s else some s
  listen json cancelled (message m) listening s = receive_message json m s
  listen json cancelled sends (holding sig) s = offer_signal sig s
  listen json cancelled event listener s = some s

-- The client of each worker's subscription, by its number, and the clients that are closed.
pub record SignalHub : Type 0 where
  pub subscriptions : Assoc ℕ
  pub closed : List ℕ

unfoldable pub new_signal_hub : SignalHub
new_signal_hub = record { subscriptions = []; closed = [] }

unfoldable pub store_client : String → ℕ → SignalHub → SignalHub
store_client worker_id client hub = record hub {
  subscriptions = insert worker_id client hub.subscriptions;
}

unfoldable pub unsubscribe_from_master : String → SignalHub → SignalHub
unsubscribe_from_master worker_id hub = elim (lookup worker_id hub.subscriptions) [
  | none ↦ hub
  | some client ↦ record {
    subscriptions = delete worker_id hub.subscriptions;
    closed = client ∷ hub.closed;
  }
]

unfoldable pub get_subscription_count : SignalHub → ℕ
get_subscription_count hub = length hub.subscriptions
