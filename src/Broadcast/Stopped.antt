-- ===== src/Broadcast/Stopped.antt =====
-- The runs of the process after StopFollower.
use mt5_bridge.Prelude.{
  ℕ, String, ◌≡◌, refl, sym, ap, ◌∙◌, Bool, true, false, not, Option, none, some, List, [], ◌∷◌,
  ◌++◌, lookup, get_elem?, get_elem?-set_at_same, set_at, and_then, some_injective, and_then-some,
  is_some,
}
use mt5_bridge.Signal.{Signal}
use mt5_bridge.Go.Channel.{receive, Receive, nothing, ended, got, close_channel}
use mt5_bridge.Go.Channel.Laws.{close-open, send-closed}
use mt5_bridge.Redis.SignalHub.{SignalJson}
use mt5_bridge.Broadcast.{
  Feed, Forwarder, not_started, ranging, offering, returned, Broadcaster, FeedEvent, next, offers,
  Event, stops, moves, buffer_size, close_buffer, at_feed, close_feed, stop_feed, stop_follower,
  range_next, offer, forward, feed_step, step, run,
}
use mt5_bridge.Broadcast.Workers.{run-At}
use mt5_bridge.Broadcast.Stuck.{IsRunning, delivered, close_buffer-closed, StuckAt, StuckAt-Kept}

module _ {F : Type 0} where
  -- The goroutine has something to do: it holds a signal, or a signal or the end of the master's
  -- channel waits for it.
  abbrev pub has_next : Forwarder F → Receive (Signal F) → Bool
  has_next not_started r = false
  has_next ranging nothing = false
  has_next ranging ended = true
  has_next ranging (got sig ch) = true
  has_next (offering sig) r = true
  has_next (returned held) r = false

module _ {F : Type 0} (json : SignalJson F) where
  stop_follower-StuckAt :
      (w : String) (b b' : Broadcaster F) (i : ℕ) (f : Feed F)
      → lookup w b.subscriptions ≡ some i
      → get_elem? b.feeds i ≡ some f
      → IsRunning f.forwarder
      → stop_follower w b ≡ some b'
      → StuckAt (delivered f) b'.cancelled (get_elem? b'.feeds i)
  unfolding stop_follower stop_feed close_feed at_feed close_buffer StuckAt
  stop_follower-StuckAt w b b' i f l at g e =
      let (b1, (e1, r1)) = and_then-some (stop_feed w (lookup w b.subscriptions) b) _ b' e in
      let (b2, (e2, r2)) =
        and_then-some (close_feed i b) _ b1 (sym (ap (λ o. stop_feed w o b) l) ∙ e1) in
      let (f', (e3, r3)) =
        and_then-some (close_buffer f) _ b2 (sym (ap (λ o. at_feed i o close_buffer b) at) ∙ e2) in
      let (ch, (e4, r4)) = and_then-some (close_channel f.buf_ch) _ f' e3 in
      let (shut, items) = close-open f.buf_ch ch e4 in
      rw
        (
          sym (some_injective r1),
          sym (some_injective r2),
          sym (some_injective r3),
          get_elem?-set_at_same i f f' b.feeds at,
          sym (some_injective r4),
        )
        (λ _. (shut, (ap (λ x. f.taken ++ x) items, g)))

  moved :
      (i : ℕ) (e : FeedEvent) (b : Broadcaster F) (f : Feed F)
      → get_elem? b.feeds i ≡ some f
      → step json (moves i e) b
        ≡ and_then
            (feed_step json b.cancelled e f)
            (λ f'. some (record b { feeds = set_at i f' b.feeds }))
  unfolding step at_feed
  moved i e b f at = rw (at) refl

  -- To offer to the closed channel panics, and nothing else does.
  offers_once :
      (i : ℕ) (b : Broadcaster F) (f : Feed F) (g : Forwarder F)
      → get_elem? b.feeds i ≡ some f
      → f.forwarder ≡ g
      → f.buf_ch.closed ≡ true
      → is_some (run json (moves i offers ∷ []) b) ≡ elim g as (λ _. Bool) [
        | not_started ↦ true
        | ranging ↦ true
        | offering sig ↦ false
        | returned held ↦ true
      ]
  unfolding run feed_step forward offer
  offers_once i b f not_started at g shut = rw (moved i offers b f at, g) refl
  offers_once i b f ranging at g shut = rw (moved i offers b f at, g) refl
  offers_once i b f (offering sig) at g shut =
      rw (moved i offers b f at, g, send-closed buffer_size sig f.buf_ch shut) refl
  offers_once i b f (returned held) at g shut = rw (moved i offers b f at, g) refl

  first_move :
      (i : ℕ) (b : Broadcaster F) (f : Feed F) (r : Option (Feed F))
      → get_elem? b.feeds i ≡ some f
      → feed_step json b.cancelled next f ≡ r
      → is_some (run json (moves i next ∷ moves i offers ∷ []) b)
        ≡ is_some (
            and_then r
              (λ f'. run json (moves i offers ∷ []) (record b { feeds = set_at i f' b.feeds })))
  unfolding run
  first_move i b f none at e = rw (moved i next b f at, e) refl
  first_move i b f (some f') at e = rw (moved i next b f at, e) refl

  two_moves :
      (i : ℕ) (b : Broadcaster F) (f : Feed F) (g : Forwarder F)
      → get_elem? b.feeds i ≡ some f
      → f.forwarder ≡ g
      → f.buf_ch.closed ≡ true
      → is_some (run json (moves i next ∷ moves i offers ∷ []) b)
        ≡ not (has_next g (receive f.source.signal_ch))
  unfolding feed_step forward range_next
  two_moves i b f g at e shut = moves_from g e
    where
      stays :
          (h : Forwarder F)
          → f.forwarder ≡ h
          → forward b.cancelled next h f ≡ some f
          → is_some (run json (moves i next ∷ moves i offers ∷ []) b)
            ≡ is_some (run json (moves i offers ∷ []) (record b { feeds = set_at i f b.feeds }))
      stays h e s = first_move i b f (some f) at (ap (λ x. forward b.cancelled next x f) e ∙ s)

      second :
          (h : Forwarder F) (f' : Feed F)
          → f'.forwarder ≡ h
          → f'.buf_ch.closed ≡ true
          → is_some (run json (moves i offers ∷ []) (record b { feeds = set_at i f' b.feeds }))
            ≡ elim h as (λ _. Bool) [
              | not_started ↦ true
              | ranging ↦ true
              | offering sig ↦ false
              | returned held ↦ true
            ]
      second h f' e s =
          offers_once i (record b { feeds = set_at i f' b.feeds }) f' h
            (get_elem?-set_at_same i f f' b.feeds at) e s

      ranged :
          (r : Receive (Signal F))
          → f.forwarder ≡ ranging
          → receive f.source.signal_ch ≡ r
          → is_some (run json (moves i next ∷ moves i offers ∷ []) b) ≡ not (has_next ranging r)
      ranged nothing e r = stays ranging e (ap (range_next f) r) ∙ second ranging f e shut
      ranged ended e r = first_move i b f none at (
          ap (λ x. forward b.cancelled next x f) e
          ∙ ap (range_next f) r
          ∙ rw (close_buffer-closed f shut) refl)
      ranged (got sig ch) e r =
          first_move i b f
            (some
              (record f { source = record f.source { signal_ch = ch }; forwarder = offering sig }))
            at (ap (λ x. forward b.cancelled next x f) e ∙ ap (range_next f) r)
          ∙ second (offering sig)
              (record f { source = record f.source { signal_ch = ch }; forwarder = offering sig })
              refl shut

      moves_from :
          (h : Forwarder F)
          → f.forwarder ≡ h
          → is_some (run json (moves i next ∷ moves i offers ∷ []) b)
            ≡ not (has_next h (receive f.source.signal_ch))
      moves_from not_started e = stays not_started e refl ∙ second not_started f e shut
      moves_from ranging e = ranged (receive f.source.signal_ch) e refl
      moves_from (offering sig) e = stays (offering sig) e refl ∙ second (offering sig) f e shut
      moves_from (returned held) e = stays (returned held) e refl ∙ second (returned held) f e shut

  -- After StopFollower of a worker, whose goroutine runs, in every run that has not panicked and in which
  -- Close was not called: the goroutine still runs, nothing more has come through to the worker's
  -- channel, and the goroutine's next two moves panic exactly if it holds a signal or if a signal or the
  -- end of the master's channel waits for it.
  pub stop_follower-run :
      (w : String) (events : List Event) (b b' : Broadcaster F) (i : ℕ) (f : Feed F)
      → lookup w b.subscriptions ≡ some i
      → get_elem? b.feeds i ≡ some f
      → IsRunning f.forwarder
      → run json (stops w ∷ events) b ≡ some b'
      → b'.cancelled ≡ false
      → (f' : Feed F) × ((get_elem? b'.feeds i ≡ some f')
          × (IsRunning f'.forwarder
              × ((delivered f' ≡ delivered f)
                  × (is_some (run json (moves i next ∷ moves i offers ∷ []) b')
                      ≡ not (has_next f'.forwarder (receive f'.source.signal_ch))))))
  unfolding run step StuckAt
  stop_follower-run w events b b' i f l at g e c =
      let (b1, (s, r)) = and_then-some (stop_follower w b) _ b' e in
      stuck (get_elem? b'.feeds i) refl (
        run-At json (StuckAt (delivered f)) i (StuckAt-Kept json (delivered f)) events b1 b' r
          (stop_follower-StuckAt w b b1 i f l at g s))
    where
      stuck :
          (o : Option (Feed F))
          → get_elem? b'.feeds i ≡ o
          → StuckAt (delivered f) b'.cancelled o
          → (f' : Feed F) × ((get_elem? b'.feeds i ≡ some f')
              × (IsRunning f'.forwarder
                  × ((delivered f' ≡ delivered f)
                      × (is_some (run json (moves i next ∷ moves i offers ∷ []) b')
                          ≡ not (has_next f'.forwarder (receive f'.source.signal_ch))))))
      stuck none at p = elim p [ ]
      stuck (some f') at p =
          let (shut, (d, h)) = p c in
          (f', (at, (h, (d, two_moves i b' f' f'.forwarder at refl shut))))
