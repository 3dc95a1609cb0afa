-- ===== src/Broadcast/InOrder.antt =====
-- The signals of a worker, on their way through the two channels.
use mathlib.Core.List.{append-nil, append_assoc}
use mt5_bridge.Prelude.{
  ℕ, ◌≡◌, refl, sym, ap, ◌∙◌, Bool, true, false, Option, none, some, List, [], ◌∷◌, ◌++◌, length,
  get_elem?, ◌≤◌, arith, some_injective, and_then-some, absurd-none,
}
use mt5_bridge.Signal.{Signal}
use mt5_bridge.Go.Channel.{
  Chan, send, Send, waits, panics, stored, receive, Receive, nothing, ended, got, close_channel,
}
use mt5_bridge.Go.Channel.Laws.{close-open, send-stored, receive-closed}
use mt5_bridge.Redis.SignalHub.{SignalJson, Subscription, pub_sub_buf_size, listen}
use mt5_bridge.Broadcast.{
  Feed, Forwarder, not_started, ranging, offering, returned, Broadcaster, FeedEvent, listens, next,
  offers, gives_up, takes, Event, buffer_size, new_broadcaster, close_buffer, range_next, offer,
  forward, take, with_source, feed_step, run,
}
use mt5_bridge.Broadcast.Workers.{Kept, run-At}
use mt5_bridge.Broadcast.Arrivals.{decoded, listener_holds, forwarder_holds, listen-IsAfter}

module _ {F : Type 0} (json : SignalJson F) where
  -- What the worker has taken and what is on its way to it, the oldest first.
  abbrev pub on_the_way : Feed F → List (Signal F)
  on_the_way f =
      (((f.taken ++ f.buf_ch.items) ++ forwarder_holds f.forwarder) ++ f.source.signal_ch.items)
      ++ listener_holds f.source.listener

  abbrev pub IsInOrder : Feed F → Type 0
  IsInOrder f =
      (on_the_way f ≡ decoded json f.source.payloads)
      × ((length f.buf_ch.items ≤ buffer_size)
          × (length f.source.signal_ch.items ≤ pub_sub_buf_size))

  -- What follows the forwarder's signals.
  abbrev behind : Feed F → List (Signal F) → List (Signal F)
  behind f x = (x ++ f.source.signal_ch.items) ++ listener_holds f.source.listener

  close_buffer-items :
      (f f' : Feed F)
      → close_buffer f ≡ some f'
      → (ch : Chan (Signal F)) × ((ch.items ≡ f.buf_ch.items) × (f' ≡ record f { buf_ch = ch }))
  unfolding close_buffer
  close_buffer-items f f' e =
      let (ch, (c, r)) = and_then-some (close_channel f.buf_ch) _ f' e in
      (ch, ((close-open f.buf_ch ch c).1, sym (some_injective r)))

  range_next-IsInOrder :
      (r : Receive (Signal F)) (f f' : Feed F)
      → receive f.source.signal_ch ≡ r
      → f.forwarder ≡ ranging
      → range_next f r ≡ some f'
      → IsInOrder f
      → IsInOrder f'
  unfolding range_next
  range_next-IsInOrder nothing f f' r g e p = rw (sym (some_injective e)) p
  range_next-IsInOrder ended f f' r g e p =
      let (f1, (c, k)) = and_then-some (close_buffer f) _ f' e in
      let (ch, (items, k1)) = close_buffer-items f f1 c in
      rw (sym (some_injective k), k1, items) (rw (g) at p)
  range_next-IsInOrder (got sig ch) f f' r g e (p, (b, q)) =
      let items = (receive-closed sig f.source.signal_ch ch r).1 in
      let arrived = f.taken ++ f.buf_ch.items in
      rw (sym (some_injective e)) (
        ap (λ x. x ++ listener_holds f.source.listener)
              (append_assoc arrived (sig ∷ []) ch.items
                ∙ ap (λ x. arrived ++ x) (sym items)
                ∙ ap (λ x. x ++ f.source.signal_ch.items) (sym (append-nil arrived)))
            ∙ rw (g) at p,
        (b, omega (arith, rw (items) at q)),
      )

  offer-IsInOrder :
      (r : Send (Signal F)) (sig : Signal F) (f f' : Feed F)
      → send buffer_size sig f.buf_ch ≡ r
      → f.forwarder ≡ offering sig
      → offer f r ≡ some f'
      → IsInOrder f
      → IsInOrder f'
  unfolding offer
  offer-IsInOrder waits sig f f' r g e p = rw (sym (some_injective e)) p
  offer-IsInOrder panics sig f f' r g e p = absurd-none e
  offer-IsInOrder (stored ch) sig f f' r g e (p, (b, q)) =
      let (items, fits) = send-stored buffer_size sig f.buf_ch ch r in
      rw (sym (some_injective e)) (
        ap (behind f) (
              append-nil (f.taken ++ ch.items)
              ∙ ap (λ x. f.taken ++ x) items
              ∙ sym (append_assoc f.taken f.buf_ch.items (sig ∷ [])))
            ∙ rw (g) at p,
        (fits, q),
      )

  take-IsInOrder :
      (r : Receive (Signal F)) (f : Feed F)
      → receive f.buf_ch ≡ r
      → IsInOrder f
      → IsInOrder (take f r)
  unfolding take
  take-IsInOrder nothing f r p = p
  take-IsInOrder ended f r p = p
  take-IsInOrder (got sig ch) f r (p, (b, q)) =
      let items = (receive-closed sig f.buf_ch ch r).1 in
      (
        ap (λ x. behind f (x ++ forwarder_holds f.forwarder))
              (append_assoc f.taken (sig ∷ []) ch.items ∙ ap (λ x. f.taken ++ x) (sym items))
            ∙ p,
        (omega (arith, rw (items) at b), q),
      )

  forward-IsInOrder :
      (c : Bool) (e : FeedEvent) (g : Forwarder F) (f f' : Feed F)
      → f.forwarder ≡ g
      → forward c e g f ≡ some f'
      → IsInOrder f
      → IsInOrder f'
  unfolding forward
  forward-IsInOrder c next ranging f f' g e p =
      range_next-IsInOrder (receive f.source.signal_ch) f f' refl g e p
  forward-IsInOrder c offers (offering sig) f f' g e p =
      offer-IsInOrder (send buffer_size sig f.buf_ch) sig f f' refl g e p
  forward-IsInOrder true gives_up (offering sig) f f' g e p =
      rw (sym (some_injective e)) (rw (g) at p)
  forward-IsInOrder false gives_up (offering sig) f f' g e p = rw (sym (some_injective e)) p
  forward-IsInOrder c next not_started f f' h e p = rw (sym (some_injective e)) p
  forward-IsInOrder c next (offering sig) f f' h e p = rw (sym (some_injective e)) p
  forward-IsInOrder c next (returned held) f f' h e p = rw (sym (some_injective e)) p
  forward-IsInOrder c offers not_started f f' h e p = rw (sym (some_injective e)) p
  forward-IsInOrder c offers ranging f f' h e p = rw (sym (some_injective e)) p
  forward-IsInOrder c offers (returned held) f f' h e p = rw (sym (some_injective e)) p
  forward-IsInOrder c gives_up not_started f f' h e p = rw (sym (some_injective e)) p
  forward-IsInOrder c gives_up ranging f f' h e p = rw (sym (some_injective e)) p
  forward-IsInOrder c gives_up (returned held) f f' h e p = rw (sym (some_injective e)) p
  forward-IsInOrder c (listens l) g f f' h e p = rw (sym (some_injective e)) p
  forward-IsInOrder c takes g f f' h e p = rw (sym (some_injective e)) p

  feed_step-IsInOrder :
      (c : Bool) (e : FeedEvent) (f f' : Feed F)
      → feed_step json c e f ≡ some f'
      → IsInOrder f
      → IsInOrder f'
  unfolding feed_step with_source
  feed_step-IsInOrder c (listens event) f f' e p =
      listened (listen json c event f.source.listener f.source) refl e p
    where
      listened :
          (r : Option (Subscription F))
          → listen json c event f.source.listener f.source ≡ r
          → with_source f r ≡ some f'
          → IsInOrder f
          → IsInOrder f'
      listened none r e p = absurd-none e
      listened (some s) r e (p, (b, q)) =
          let (p', q') =
            listen-IsAfter json ((f.taken ++ f.buf_ch.items) ++ forwarder_holds f.forwarder) c event
              f.source.listener f.source s r refl (p, q) in
          rw (sym (some_injective e)) (p', (b, q'))
  feed_step-IsInOrder c takes f f' e p =
      rw (sym (some_injective e)) (take-IsInOrder (receive f.buf_ch) f refl p)
  feed_step-IsInOrder c next f f' e p = forward-IsInOrder c next f.forwarder f f' refl e p
  feed_step-IsInOrder c offers f f' e p = forward-IsInOrder c offers f.forwarder f f' refl e p
  feed_step-IsInOrder c gives_up f f' e p = forward-IsInOrder c gives_up f.forwarder f f' refl e p

  InOrderAt : Bool → Option (Feed F) → Type 0
  InOrderAt c none = Unit
  InOrderAt c (some f) = IsInOrder f

  InOrderAt-Kept : Kept json InOrderAt
  unfolding InOrderAt decoded
  InOrderAt-Kept = record {
    grows = λ c w m _. (refl, (omega arith, omega arith));
    begins = λ c f g p. rw (g) at p;
    shuts = λ c f f' e p. shut f f' e p;
    advances = λ c e f f' h p. feed_step-IsInOrder c e f f' h p;
    cancels = λ c o p. cancelled c o p;
  }
    where
      shut : (f f' : Feed F) → close_buffer f ≡ some f' → IsInOrder f → IsInOrder f'
      shut f f' e p = let (ch, (items, k)) = close_buffer-items f f' e in rw (k, items) p

      cancelled : (c : Bool) (o : Option (Feed F)) → InOrderAt c o → InOrderAt true o
      cancelled c none p = tt
      cancelled c (some f) p = p

  -- In every run of the process that has not panicked, whatever its events and their order, what each
  -- worker has taken, followed by what is still on the way to it, is exactly the signals that its
  -- subscription has received, in order and each once, and both channels are within their capacity. (A
  -- goroutine that the end of the program has stopped counts with the signal that it held.)
  pub run-IsInOrder :
      (events : List Event) (b : Broadcaster F) (i : ℕ) (f : Feed F)
      → run json events new_broadcaster ≡ some b
      → get_elem? b.feeds i ≡ some f
      → IsInOrder f
  unfolding InOrderAt new_broadcaster
  run-IsInOrder events b i f e at =
      rw (at) at (run-At json InOrderAt i InOrderAt-Kept events new_broadcaster b e tt)
