-- ===== src/Sender/Answered.antt =====
-- The sender and the HTTP bridge of cmd/http/main.go at the other end.
use mt5_bridge.Prelude.{
  ℕ, String, ◌≡◌, refl, false, Option, none, some, [], ◌∷◌, ◌++◌, Bool-cases, inl, inr,
  some_injective, arith,
}
use mt5_bridge.Go.Float.{Float64}
use mt5_bridge.Signal.{Signal, Conversions}
use mt5_bridge.Signal.Queue.{Queue}
use mt5_bridge.Signal.Parse.{parse_signal}
use mt5_bridge.Http.{Response, Body, handle_signal}
use mt5_bridge.Http.Server.{Incoming, read_limited, signal_limit, signal_body}
use mt5_bridge.Http.Answers.{status_of, handle_signal-post}
use mt5_bridge.Sender.{
  SignalPayload, Texts, Flags, Network, is_error, http_report, body_of, send_http,
}

module _ {F : Type 0} ⦃fl : Float64 F⦄ (cv : Conversions F) (render : Body F → String) where
  -- The answer as the client reads it. A dropped connection is an error.
  abbrev pub answer_of : Option (Response F) → Option (ℕ × String)
  answer_of none = none
  answer_of (some r) = some (r.status, render r.body)

  -- A request of the sender, as the bridge reads it: at most 32 KB of the body.
  abbrev pub arrived : String → Incoming
  arrived body = record { method = "POST"; path = "/signal"; arrives = body; breaks_off = false }

  -- A network on which the bridge answers every request, its queue the state.
  abbrev pub bridge_network : ℕ → Network
  bridge_network now = record {
    State = Queue (Signal F);
    post = λ url body q.
        let (response, q') = handle_signal cv now "POST" (signal_body (arrived body)) q in
        (answer_of response, q');
    dial = λ host q. (false, q);
    write = λ text q. (false, q);
    read = λ q. (none, q);
  }

  -- A response of status 200 is never an error to the sender.
  accepted :
      (texts : Texts F) (flags : Flags F) (p : SignalPayload F) (r : Option (Response F))
      → status_of r ≡ some 200
      → is_error (http_report texts flags p (answer_of r)) ≡ false
  unfolding is_error http_report
  accepted texts flags p none e = ground arith
  accepted texts flags p (some r) e =
      rw (some_injective e)
        (elim (Bool-cases flags.json) [ inl j ↦ rw (j) refl | inr j ↦ rw (j) refl ])

  -- To the sender every send to the HTTP bridge is a success, also where the payload has no JSON form or
  -- the bridge finds no signal in it; the bridge's queue gains exactly the signal that the first 32 KB of
  -- the payload's body are read as, at its end, and nothing if they are read as none.
  pub send_http-bridge :
      (texts : Texts F) (flags : Flags F) (now : ℕ) (host : String) (p : SignalPayload F)
      (q : Queue (Signal F))
      → let (report, q') = send_http (bridge_network now) texts flags host p q in
        (is_error report ≡ false)
        × (q'.signals
            ≡ q.signals
              ++ elim (parse_signal cv now (read_limited signal_limit (body_of texts p)).0) [
                | none ↦ []
                | some sig ↦ sig ∷ []
              ])
  unfolding send_http signal_body
  send_http-bridge texts flags now host p q =
      let (status, queue) = handle_signal-post cv now (signal_body (arrived (body_of texts p))) q in
      (accepted texts flags p _ status, queue)
