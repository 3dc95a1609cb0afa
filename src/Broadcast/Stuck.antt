-- ===== src/Broadcast/Stuck.antt =====
-- What StopFollower leaves behind: a closed channel and a goroutine that still sends to it.
use mathlib.Core.List.{append_assoc}
use mt5_bridge.Prelude.{
  ◌≡◌, refl, sym, ap, ◌∙◌, Bool, true, false, Option, none, some, List, [], ◌∷◌, ◌++◌, arith,
  some_injective, absurd-none,
}
use mt5_bridge.Signal.{Signal}
use mt5_bridge.Go.Channel.{receive, Receive, nothing, ended, got}
use mt5_bridge.Go.Channel.Laws.{close-closed, send-closed, receive-closed}
use mt5_bridge.Redis.SignalHub.{SignalJson, Subscription, listen}
use mt5_bridge.Broadcast.{
  Feed, Forwarder, not_started, ranging, offering, returned, FeedEvent, listens, next, offers,
  gives_up, takes, buffer_size, close_buffer, range_next, offer, forward, take, with_source,
  feed_step,
}
use mt5_bridge.Broadcast.Workers.{Kept}

module _ {F : Type 0} where
  abbrev pub IsRunning : Forwarder F → Type 0
  IsRunning not_started = ⊥
  IsRunning ranging = Unit
  IsRunning (offering sig) = Unit
  IsRunning (returned held) = ⊥

  -- What has come through to the worker's channel.
  abbrev pub delivered : Feed F → List (Signal F)
  delivered f = f.taken ++ f.buf_ch.items

  -- The channel is closed, its goroutine goes on, and nothing more has come through.
  abbrev pub IsStuck : List (Signal F) → Feed F → Type 0
  IsStuck got_so_far f =
      (f.buf_ch.closed ≡ true) × ((delivered f ≡ got_so_far) × IsRunning f.forwarder)

  pub close_buffer-closed : (f : Feed F) → f.buf_ch.closed ≡ true → close_buffer f ≡ none
  unfolding close_buffer
  close_buffer-closed f e = rw (close-closed f.buf_ch e) refl

  range_next-IsStuck :
      (l : List (Signal F)) (r : Receive (Signal F)) (f f' : Feed F)
      → range_next f r ≡ some f'
      → IsStuck l f
      → IsStuck l f'
  unfolding range_next
  range_next-IsStuck l nothing f f' e p = rw (sym (some_injective e)) p
  range_next-IsStuck l ended f f' e (c, p) = absurd-none (rw (close_buffer-closed f c) at e)
  range_next-IsStuck l (got sig ch) f f' e (c, (d, g)) = rw (sym (some_injective e)) (c, (d, tt))

  take-IsStuck :
      (l : List (Signal F)) (r : Receive (Signal F)) (f : Feed F)
      → receive f.buf_ch ≡ r
      → IsStuck l f
      → IsStuck l (take f r)
  unfolding take
  take-IsStuck l nothing f r p = p
  take-IsStuck l ended f r p = p
  take-IsStuck l (got sig ch) f r (c, (d, g)) =
      let (shut, items) = receive-closed sig f.buf_ch ch r in
      (
        shut ∙ c,
        (append_assoc f.taken (sig ∷ []) ch.items ∙ ap (λ x. f.taken ++ x) (sym items) ∙ d, g),
      )

  forward-IsStuck :
      (l : List (Signal F)) (e : FeedEvent) (g : Forwarder F) (f f' : Feed F)
      → forward false e g f ≡ some f'
      → f.forwarder ≡ g
      → IsStuck l f
      → IsStuck l f'
  unfolding forward offer
  forward-IsStuck l next ranging f f' e g p =
      range_next-IsStuck l (receive f.source.signal_ch) f f' e p
  forward-IsStuck l offers (offering sig) f f' e g (c, p) =
      absurd-none (rw (send-closed buffer_size sig f.buf_ch c) at e)
  forward-IsStuck l gives_up (offering sig) f f' e g p = rw (sym (some_injective e)) p
  forward-IsStuck l next not_started f f' e g p = rw (sym (some_injective e)) p
  forward-IsStuck l next (offering sig) f f' e g p = rw (sym (some_injective e)) p
  forward-IsStuck l next (returned held) f f' e g p = rw (sym (some_injective e)) p
  forward-IsStuck l offers not_started f f' e g p = rw (sym (some_injective e)) p
  forward-IsStuck l offers ranging f f' e g p = rw (sym (some_injective e)) p
  forward-IsStuck l offers (returned held) f f' e g p = rw (sym (some_injective e)) p
  forward-IsStuck l gives_up not_started f f' e g p = rw (sym (some_injective e)) p
  forward-IsStuck l gives_up ranging f f' e g p = rw (sym (some_injective e)) p
  forward-IsStuck l gives_up (returned held) f f' e g p = rw (sym (some_injective e)) p
  forward-IsStuck l (listens event) g f f' e h p = rw (sym (some_injective e)) p
  forward-IsStuck l takes g f f' e h p = rw (sym (some_injective e)) p

  unfoldable pub StuckAt : List (Signal F) → Bool → Option (Feed F) → Type 0
  StuckAt l c none = ⊥
  StuckAt l c (some f) = c ≡ false → IsStuck l f

module _ {F : Type 0} (json : SignalJson F) where
  feed_step-IsStuck :
      (l : List (Signal F)) (e : FeedEvent) (f f' : Feed F)
      → feed_step json false e f ≡ some f'
      → IsStuck l f
      → IsStuck l f'
  unfolding feed_step with_source
  feed_step-IsStuck l (listens event) f f' e p =
      listened (listen json false event f.source.listener f.source) e
    where
      listened : (r : Option (Subscription F)) → with_source f r ≡ some f' → IsStuck l f'
      listened none e = absurd-none e
      listened (some s) e = rw (sym (some_injective e)) p
  feed_step-IsStuck l takes f f' e p =
      rw (sym (some_injective e)) (take-IsStuck l (receive f.buf_ch) f refl p)
  feed_step-IsStuck l next f f' e p = forward-IsStuck l next f.forwarder f f' e refl p
  feed_step-IsStuck l offers f f' e p = forward-IsStuck l offers f.forwarder f f' e refl p
  feed_step-IsStuck l gives_up f f' e p = forward-IsStuck l gives_up f.forwarder f f' e refl p

  pub StuckAt-Kept : (l : List (Signal F)) → Kept json (StuckAt l)
  unfolding StuckAt
  StuckAt-Kept l = record {
    grows = λ c w m p. elim p [ ];
    begins = λ c f g p h. let (a, (b, _)) = p h in (a, (b, tt));
    shuts = λ c f f' e p h. absurd-none (sym (close_buffer-closed f (p h).0) ∙ e);
    advances = λ c e f f' s p h. feed_step-IsStuck l e f f' (rw (h) at s) (p h);
    cancels = λ c o p. cancelled c o p;
  }
    where
      cancelled : (c : Bool) (o : Option (Feed F)) → StuckAt l c o → StuckAt l true o
      cancelled c none p = p
      cancelled c (some f) p = λ h. ground arith
