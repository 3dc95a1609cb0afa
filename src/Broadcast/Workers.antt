-- ===== src/Broadcast/Workers.antt =====
-- What every step of the process keeps of one feed.
use mt5_bridge.Prelude.{
  ℕ, String, ◌≡◌, refl, sym, Bool, true, false, Option, none, some, List, [], ◌∷◌, Assoc, lookup,
  get_elem?, get_elem?-set_at, get_elem?-append, some_injective, and_then-some,
}
use mt5_bridge.Redis.SignalHub.{SignalJson, unsubscribe_from_master}
use mt5_bridge.Broadcast.{
  Feed, Forwarder, not_started, ranging, offering, returned, Broadcaster, FeedEvent, Event,
  subscribes, registers, stops, ends_context, cancel, closes, moves, new_feed, close_buffer,
  at_feed, close_feed, close_all, close, stop_feed, stop_follower, subscribe_to_master,
  register_feed, feed_step, step, run,
}

module _ {F : Type 0} (json : SignalJson F) where
  -- A property of the feed at an index, or of its absence, that nothing breaks.
  pub record Kept {ℓ} (P : Bool → Option (Feed F) → Type ℓ) : Type ℓ where
    pub grows : (c : Bool) (w m : String) → P c none → P c (some (new_feed w m))
    pub begins :
        (c : Bool) (f : Feed F)
        → f.forwarder ≡ not_started
        → P c (some f)
        → P c (some (record f { forwarder = ranging }))
    pub shuts : (c : Bool) (f f' : Feed F) → close_buffer f ≡ some f' → P c (some f) → P c (some f')
    pub advances :
        (c : Bool) (e : FeedEvent) (f f' : Feed F)
        → feed_step json c e f ≡ some f'
        → P c (some f)
        → P c (some f')
    pub cancels : (c : Bool) (o : Option (Feed F)) → P c o → P true o

  module _ {ℓ} (P : Bool → Option (Feed F) → Type ℓ) (i : ℕ) where
    abbrev pub At : Broadcaster F → Type ℓ
    At b = P b.cancelled (get_elem? b.feeds i)

    at_feed-At :
        (j : ℕ) (f : Feed F → Option (Feed F)) (b b' : Broadcaster F)
        → ((x x' : Feed F) → f x ≡ some x' → P b.cancelled (some x) → P b.cancelled (some x'))
        → at_feed j (get_elem? b.feeds j) f b ≡ some b'
        → At b
        → At b'
    unfolding at_feed
    at_feed-At j f b b' k e p = found (get_elem? b.feeds j) refl e
      where
        found : (o : Option (Feed F)) → get_elem? b.feeds j ≡ o → at_feed j o f b ≡ some b' → At b'
        found none at e = rw (sym (some_injective e)) p
        found (some x) at e =
            let (x', (fx, r)) = and_then-some (f x) _ b' e in
            rw (sym (some_injective r))
              (get_elem?-set_at (P b.cancelled) i j x x' b.feeds at (k x x' fx) p)

    module _ (k : Kept P) where
      shut-At : (j : ℕ) (b b' : Broadcaster F) → close_feed j b ≡ some b' → At b → At b'
      unfolding close_feed
      shut-At j b b' e p = at_feed-At j close_buffer b b' (k.shuts b.cancelled) e p

      stop_feed-At :
          (w : String) (o : Option ℕ) (b b' : Broadcaster F)
          → stop_feed w o b ≡ some b'
          → At b
          → At b'
      unfolding stop_feed
      stop_feed-At w none b b' e p = rw (sym (some_injective e)) p
      stop_feed-At w (some j) b b' e p =
          let (b1, (c, r)) = and_then-some (close_feed j b) _ b' e in
          rw (sym (some_injective r)) (shut-At j b b1 c p)

      stop_follower-At :
          (w : String) (b b' : Broadcaster F) → stop_follower w b ≡ some b' → At b → At b'
      unfolding stop_follower
      stop_follower-At w b b' e p =
          let o = lookup w b.subscriptions in
          let (b1, (c, r)) = and_then-some (stop_feed w o b) _ b' e in
          rw (sym (some_injective r)) (stop_feed-At w o b b1 c p)

      close_all-At :
          (entries : Assoc ℕ) (b b' : Broadcaster F) → close_all entries b ≡ some b' → At b → At b'
      unfolding close_all
      close_all-At [] b b' e p = rw (sym (some_injective e)) p
      close_all-At ((w, j) ∷ entries) b b' e p =
          let (b1, (c, r)) = and_then-some (close_feed j b) _ b' e in
          close_all-At entries (record b1 { hub = unsubscribe_from_master w b1.hub }) b' r
            (shut-At j b b1 c p)

      close-At : (b b' : Broadcaster F) → close b ≡ some b' → At b → At b'
      unfolding close
      close-At b b' e p =
          let (b1, (c, r)) = and_then-some (close_all b.subscriptions b) _ b' e in
          rw (sym (some_injective r)) (close_all-At b.subscriptions b b1 c p)

      register_feed-At :
          (j : ℕ) (b : Broadcaster F) → At b → At (register_feed j b (get_elem? b.feeds j))
      unfolding register_feed
      register_feed-At j b p = found (get_elem? b.feeds j) refl
        where
          found : (o : Option (Feed F)) → get_elem? b.feeds j ≡ o → At (register_feed j b o)
          found none at = p
          found (some x) at = placed x.forwarder refl
            where
              placed :
                  (g : Forwarder F)
                  → x.forwarder ≡ g
                  → At (register_feed j b (some (record x { forwarder = g })))
              placed not_started g =
                  get_elem?-set_at (P b.cancelled) i j x (record x { forwarder = ranging }) b.feeds
                    at (k.begins b.cancelled x g) p
              placed ranging g = p
              placed (offering sig) g = p
              placed (returned held) g = p

      pub step-At :
          (event : Event) (b b' : Broadcaster F) → step json event b ≡ some b' → At b → At b'
      unfolding step subscribe_to_master cancel
      step-At (subscribes false w m) b b' e p = rw (sym (some_injective e)) p
      step-At (subscribes true w m) b b' e p =
          rw (sym (some_injective e))
            (get_elem?-append (P b.cancelled) i (new_feed w m) b.feeds (k.grows b.cancelled w m) p)
      step-At (registers j) b b' e p = rw (sym (some_injective e)) (register_feed-At j b p)
      step-At (stops w) b b' e p = stop_follower-At w b b' e p
      step-At ends_context b b' e p =
          rw (sym (some_injective e)) (k.cancels b.cancelled (get_elem? b.feeds i) p)
      step-At closes b b' e p = close-At b b' e p
      step-At (moves j event) b b' e p =
          at_feed-At j (feed_step json b.cancelled event) b b' (k.advances b.cancelled event) e p

      pub run-At :
          (events : List Event) (b b' : Broadcaster F) → run json events b ≡ some b' → At b → At b'
      unfolding run
      run-At [] b b' e p = rw (sym (some_injective e)) p
      run-At (event ∷ events) b b' e p =
          let (b1, (s, r)) = and_then-some (step json event b) _ b' e in
          run-At events b1 b' r (step-At event b b1 s p)
