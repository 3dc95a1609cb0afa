-- ===== src/Broadcast/Arrivals.antt =====
-- The goroutine of a subscription: from the messages to its channel.
use mathlib.Core.List.{append-nil, append_assoc}
use mt5_bridge.Prelude.{
  String, ◌≡◌, refl, sym, ap, ◌∙◌, Bool, true, false, Option, none, some, List, [], ◌∷◌, ◌++◌,
  length, ◌≤◌, arith, some_injective, and_then-some, absurd-none,
}
use mt5_bridge.Signal.{Signal}
use mt5_bridge.Go.Channel.{send, Send, waits, panics, stored, close_channel}
use mt5_bridge.Go.Channel.Laws.{close-open, send-stored}
use mt5_bridge.Redis.SignalHub.{
  SignalJson, Listener, listening, holding, finished, Subscription, pub_sub_buf_size, ListenerEvent,
  context_done, message, sends, return_with, receive_message, offer_signal, listen,
}
use mt5_bridge.Broadcast.{Forwarder, not_started, ranging, offering, returned}

module _ {F : Type 0} where
  abbrev pub listener_holds : Listener F → List (Signal F)
  listener_holds listening = []
  listener_holds (holding sig) = sig ∷ []
  listener_holds (finished held) = held

  abbrev pub forwarder_holds : Forwarder F → List (Signal F)
  forwarder_holds not_started = []
  forwarder_holds ranging = []
  forwarder_holds (offering sig) = sig ∷ []
  forwarder_holds (returned held) = held

module _ {F : Type 0} (json : SignalJson F) where
  -- The signals of the messages that are JSON.
  unfoldable pub decoded : List String → List (Signal F)
  decoded [] = []
  decoded (p ∷ ps) = elim (json.unmarshal p) [ none ↦ decoded ps | some sig ↦ sig ∷ decoded ps ]

  decoded-append :
      (ps : List String) (p : String)
      → decoded (ps ++ p ∷ [])
        ≡ decoded ps ++ elim (json.unmarshal p) [ none ↦ [] | some sig ↦ sig ∷ [] ]
  unfolding decoded
  decoded-append [] p = ground arith
  decoded-append (q ∷ ps) p = ground (arith, decoded-append ps p)

  -- Before a subscription's messages come the signals of `before`.
  abbrev pub IsAfter : List (Signal F) → Subscription F → Type 0
  IsAfter before s =
      ((before ++ s.signal_ch.items) ++ listener_holds s.listener ≡ decoded s.payloads)
      × (length s.signal_ch.items ≤ pub_sub_buf_size)

  return_with-IsAfter :
      (before held : List (Signal F)) (s s' : Subscription F)
      → return_with held s ≡ some s'
      → held ≡ listener_holds s.listener
      → IsAfter before s
      → IsAfter before s'
  unfolding return_with
  return_with-IsAfter before held s s' e h (p, q) =
      let (ch, (c, r)) = and_then-some (close_channel s.signal_ch) _ s' e in
      rw (sym (some_injective r), (close-open s.signal_ch ch c).1, h) (p, q)

  receive_message-IsAfter :
      (before : List (Signal F)) (m : Option String) (s s' : Subscription F)
      → receive_message json m s ≡ some s'
      → [] ≡ listener_holds s.listener
      → IsAfter before s
      → IsAfter before s'
  unfolding receive_message
  receive_message-IsAfter before none s s' e h p = return_with-IsAfter before [] s s' e h p
  receive_message-IsAfter before (some payload) s s' e h (p, q) =
      read (json.unmarshal payload) refl e
    where
      whole : before ++ s.signal_ch.items ≡ decoded s.payloads
      whole = sym (append-nil (before ++ s.signal_ch.items)) ∙ rw (sym h) at p

      read :
          (r : Option (Signal F))
          → json.unmarshal payload ≡ r
          → elim r [
            | none ↦ some (record s { payloads = s.payloads ++ payload ∷ [] })
            | some sig ↦
                some (record s { payloads = s.payloads ++ payload ∷ []; listener = holding sig })
          ]
            ≡ some s'
          → IsAfter before s'
      read none u e =
          rw
            (
              sym (some_injective e),
              decoded-append s.payloads payload,
              u,
              append-nil (decoded s.payloads),
            )
            (p, q)
      read (some sig) u e =
          rw (sym (some_injective e), decoded-append s.payloads payload, u, whole) (refl, q)

  offer_signal-IsAfter :
      (before : List (Signal F)) (sig : Signal F) (s s' : Subscription F)
      → offer_signal sig s ≡ some s'
      → s.listener ≡ holding sig
      → IsAfter before s
      → IsAfter before s'
  unfolding offer_signal
  offer_signal-IsAfter before sig s s' e h (p, q) =
      sent (send pub_sub_buf_size sig s.signal_ch) refl e
    where
      sent :
          (r : Send (Signal F))
          → send pub_sub_buf_size sig s.signal_ch ≡ r
          → elim r [
            | waits ↦ some s
            | panics ↦ none
            | stored ch ↦ some (record s { listener = listening; signal_ch = ch })
          ]
            ≡ some s'
          → IsAfter before s'
      sent waits r e = rw (sym (some_injective e)) (p, q)
      sent panics r e = absurd-none e
      sent (stored ch) r e =
          let (items, fits) = send-stored pub_sub_buf_size sig s.signal_ch ch r in
          rw (sym (some_injective e)) (
            append-nil (before ++ ch.items)
                ∙ ap (λ x. before ++ x) items
                ∙ sym (append_assoc before s.signal_ch.items (sig ∷ []))
                ∙ rw (h) at p,
            fits,
          )

  pub listen-IsAfter :
      (before : List (Signal F)) (c : Bool) (e : ListenerEvent) (l : Listener F)
      (s s' : Subscription F)
      → listen json c e l s ≡ some s'
      → s.listener ≡ l
      → IsAfter before s
      → IsAfter before s'
  unfolding listen
  listen-IsAfter before true context_done listening s s' e h p =
      return_with-IsAfter before [] s s' e (sym (ap listener_holds h)) p
  listen-IsAfter before true context_done (holding sig) s s' e h p =
      return_with-IsAfter before (sig ∷ []) s s' e (sym (ap listener_holds h)) p
  listen-IsAfter before c (message m) listening s s' e h p =
      receive_message-IsAfter before m s s' e (sym (ap listener_holds h)) p
  listen-IsAfter before c sends (holding sig) s s' e h p =
      offer_signal-IsAfter before sig s s' e h p
  listen-IsAfter before false context_done listening s s' e h p = rw (sym (some_injective e)) p
  listen-IsAfter before false context_done (holding sig) s s' e h p = rw (sym (some_injective e)) p
  listen-IsAfter before c context_done (finished held) s s' e h p = rw (sym (some_injective e)) p
  listen-IsAfter before c (message m) (holding sig) s s' e h p = rw (sym (some_injective e)) p
  listen-IsAfter before c (message m) (finished held) s s' e h p = rw (sym (some_injective e)) p
  listen-IsAfter before c sends listening s s' e h p = rw (sym (some_injective e)) p
  listen-IsAfter before c sends (finished held) s s' e h p = rw (sym (some_injective e)) p
