-- ===== src/Broadcast.antt =====
-- internal/distributor/signal_broadcaster.go: the channels and goroutines of the workers, as events in
-- any order, and the publication of a signal.
pub mod Workers
pub mod Arrivals
pub mod InOrder
pub mod Stuck
pub mod Stopped
pub mod Publish
use mt5_bridge.Prelude.{
  ℕ, String, Bool, true, false, Option, none, some, List, [], ◌∷◌, ◌++◌, Assoc, lookup, insert,
  delete, length, and_then, get_elem?, set_at, if◌then◌else◌,
}
use mt5_bridge.Go.Channel.{
  Chan, new_channel, Send, waits, panics, stored, send, Receive, nothing, ended, got, receive,
  close_channel,
}
use mt5_bridge.Signal.{Signal}
use mt5_bridge.Redis.SignalHub.{
  SignalJson, Subscription, subscription, ListenerEvent, listen, SignalHub, new_signal_hub,
  store_client, unsubscribe_from_master,
}

abbrev pub buffer_size : ℕ
buffer_size = 100

-- The goroutine of `StartFollower`: not begun, at `range signalCh`, at the `select` with a signal, or
-- returned, with the signal that it then still held.
pub data Forwarder (F : Type 0) : Type 0 where
  not_started ranging : Forwarder F
  offering : Signal F → Forwarder F
  returned : List (Signal F) → Forwarder F

-- What a call of `StartFollower` makes: a subscription, `bufCh`, the goroutine between them, and the
-- signals that the worker has taken so far.
pub record Feed (F : Type 0) : Type 0 where
  pub worker_id : String
  pub source : Subscription F
  pub buf_ch : Chan (Signal F)
  pub forwarder : Forwarder F
  pub taken : List (Signal F)

-- The feeds are in the order of their calls; `subscriptions` gives a worker's feed by its number.
pub record Broadcaster (F : Type 0) : Type 0 where
  pub feeds : List (Feed F)
  pub subscriptions : Assoc ℕ
  pub hub : SignalHub
  pub cancelled : Bool

pub data FeedEvent : Type 0 where
  listens : ListenerEvent → FeedEvent
  next offers gives_up takes : FeedEvent

pub data Event : Type 0 where
  subscribes : Bool → String → String → Event
  registers : ℕ → Event
  stops : String → Event
  ends_context closes : Event
  moves : ℕ → FeedEvent → Event

module _ {F : Type 0} where
  unfoldable pub new_broadcaster : Broadcaster F
  unfolding new_signal_hub
  new_broadcaster = record {
    feeds = [];
    subscriptions = [];
    hub = new_signal_hub;
    cancelled = false;
  }

  -- `close(bufCh)`. `none` is a panic.
  unfoldable pub close_buffer : Feed F → Option (Feed F)
  unfolding close_channel
  close_buffer feed =
      and_then (close_channel feed.buf_ch) (λ ch. some (record feed { buf_ch = ch }))

  -- `for sig := range signalCh`.
  unfoldable pub range_next : Feed F → Receive (Signal F) → Option (Feed F)
  unfolding close_buffer
  range_next feed nothing = some feed
  range_next feed ended =
      and_then (close_buffer feed) (λ closed. some (record closed { forwarder = returned [] }))
  range_next feed (got sig ch) =
      some
        (record feed { source = record feed.source { signal_ch = ch }; forwarder = offering sig })

  -- `case bufCh <- sig`.
  unfoldable pub offer : Feed F → Send (Signal F) → Option (Feed F)
  offer feed waits = some feed
  offer feed panics = none
  offer feed (stored ch) = some (record feed { buf_ch = ch; forwarder = ranging })

  -- One step of the goroutine that forwards. An event that does not fit its place leaves it there.
  unfoldable pub forward : Bool → FeedEvent → Forwarder F → Feed F → Option (Feed F)
  unfolding range_next offer
  forward cancelled next ranging feed = range_next feed (receive feed.source.signal_ch)
  forward cancelled offers (offering sig) feed = offer feed (send buffer_size sig feed.buf_ch)
  forward cancelled gives_up (offering sig) feed =
      if cancelled then some (record feed { forwarder = returned (sig ∷ []) }) else some feed
  forward cancelled event forwarder feed = some feed

  -- The worker reads its channel.
  unfoldable pub take : Feed F → Receive (Signal F) → Feed F
  take feed nothing = feed
  take feed ended = feed
  take feed (got sig ch) = record feed { buf_ch = ch; taken = feed.taken ++ sig ∷ [] }

  unfoldable pub with_source : Feed F → Option (Subscription F) → Option (Feed F)
  with_source feed none = none
  with_source feed (some source) = some (record feed { source = source })

  unfoldable pub at_feed :
      ℕ → Option (Feed F) → (Feed F → Option (Feed F)) → Broadcaster F → Option (Broadcaster F)
  at_feed i none f b = some b
  at_feed i (some feed) f b =
      and_then (f feed) (λ feed'. some (record b { feeds = set_at i feed' b.feeds }))

  abbrev pub new_feed : String → String → Feed F
  new_feed worker_id master_id = record {
    worker_id = worker_id;
    source = subscription master_id;
    buf_ch = new_channel;
    forwarder = not_started;
    taken = [];
  }

  -- The first part of `StartFollower`: `SubscribeToMaster`. The Boolean is whether the new client of
  -- the subscription reaches Redis; without it nothing is begun.
  unfoldable pub subscribe_to_master : Bool → String → String → Broadcaster F → Bool × Broadcaster F
  unfolding store_client
  subscribe_to_master false worker_id master_id b = (false, b)
  subscribe_to_master true worker_id master_id b = (
    true,
    record b {
      hub = store_client worker_id (length b.feeds) b.hub;
      feeds = b.feeds ++ new_feed worker_id master_id ∷ [];
    },
  )

  -- The second part: the channel becomes the worker's, and its goroutine begins.
  unfoldable pub register_feed : ℕ → Broadcaster F → Option (Feed F) → Broadcaster F
  register_feed i b none = b
  register_feed i b (some feed) = elim feed.forwarder [
    | not_started ↦ record b {
      subscriptions = insert feed.worker_id i b.subscriptions;
      feeds = set_at i (record feed { forwarder = ranging }) b.feeds;
    }
    | ranging ↦ b
    | offering sig ↦ b
    | returned held ↦ b
  ]

  -- Both parts at once: whether the worker is subscribed, and the state after.
  unfoldable pub start_follower : Bool → String → String → Broadcaster F → Bool × Broadcaster F
  unfolding subscribe_to_master register_feed
  start_follower dialled worker_id master_id b =
      let (subscribed, b') = subscribe_to_master dialled worker_id master_id b in
      let i = length b.feeds in
      if subscribed then (true, register_feed i b' (get_elem? b'.feeds i)) else (false, b')

  -- `close(ch)` of a worker's channel.
  unfoldable pub close_feed : ℕ → Broadcaster F → Option (Broadcaster F)
  unfolding at_feed close_buffer
  close_feed i b = at_feed i (get_elem? b.feeds i) close_buffer b

  -- The channel of a worker, if it has one, is closed and forgotten.
  unfoldable pub stop_feed : String → Option ℕ → Broadcaster F → Option (Broadcaster F)
  unfolding close_feed
  stop_feed worker_id none b = some b
  stop_feed worker_id (some i) b =
      and_then (close_feed i b)
        λ b'. some (record b' { subscriptions = delete worker_id b'.subscriptions })

  unfoldable pub stop_follower : String → Broadcaster F → Option (Broadcaster F)
  unfolding stop_feed unsubscribe_from_master
  stop_follower worker_id b =
      and_then (stop_feed worker_id (lookup worker_id b.subscriptions) b)
        λ b'. some (record b' { hub = unsubscribe_from_master worker_id b'.hub })

  -- The loop of `Close`.
  unfoldable pub close_all : Assoc ℕ → Broadcaster F → Option (Broadcaster F)
  unfolding close_feed unsubscribe_from_master
  close_all [] b = some b
  close_all ((worker_id, i) ∷ entries) b =
      and_then (close_feed i b)
        λ b'. close_all entries (record b' { hub = unsubscribe_from_master worker_id b'.hub })

  -- `b.cancel()`, with which `Close` begins, without the lock.
  unfoldable pub cancel : Broadcaster F → Broadcaster F
  cancel b = record b { cancelled = true }

  -- What `Close` does then, under the lock.
  unfoldable pub close : Broadcaster F → Option (Broadcaster F)
  unfolding close_all
  close b = and_then (close_all b.subscriptions b) λ b'. some (record b' { subscriptions = [] })

  unfoldable pub get_signal_channel : String → Broadcaster F → Option ℕ
  get_signal_channel worker_id b = lookup worker_id b.subscriptions

  unfoldable pub get_active_worker_count : Broadcaster F → ℕ
  get_active_worker_count b = length b.subscriptions

module _ {F : Type 0} (json : SignalJson F) where
  unfoldable pub feed_step : Bool → FeedEvent → Feed F → Option (Feed F)
  unfolding forward take with_source listen
  feed_step cancelled (listens event) feed =
      with_source feed (listen json cancelled event feed.source.listener feed.source)
  feed_step cancelled takes feed = some (take feed (receive feed.buf_ch))
  feed_step cancelled event feed = forward cancelled event feed.forwarder feed

  -- One step of the process. `none`: it has panicked.
  unfoldable pub step : Event → Broadcaster F → Option (Broadcaster F)
  unfolding subscribe_to_master register_feed stop_follower cancel close at_feed feed_step
  step (subscribes dialled worker_id master_id) b =
      some (subscribe_to_master dialled worker_id master_id b).1
  step (registers i) b = some (register_feed i b (get_elem? b.feeds i))
  step (stops worker_id) b = stop_follower worker_id b
  step ends_context b = some (cancel b)
  step closes b = close b
  step (moves i event) b = at_feed i (get_elem? b.feeds i) (feed_step b.cancelled event) b

  unfoldable pub run : List Event → Broadcaster F → Option (Broadcaster F)
  unfolding step
  run [] b = some b
  run (event ∷ events) b = and_then (step event b) (run events)
