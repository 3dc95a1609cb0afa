-- ===== src/Http/Server/Pending.antt =====
-- What waits in the queue of the HTTP bridge.
use mathlib.Core.List.{append-nil}
use mt5_bridge.Prelude.{
  ℕ, String, ◌≡◌, refl, ◌∙◌, ap, Bool, true, false, ◌&&◌, Option, none, some, List, [], ◌∷◌, ◌++◌,
  arith, if◌then◌else◌, ◌==◌, eq_iff, if-cases, Bool-cases, inl, inr,
}
use mt5_bridge.Go.Float.{Float64}
use mt5_bridge.Signal.{Signal, Conversions}
use mt5_bridge.Signal.Queue
use mt5_bridge.Signal.Queue.{Queue}
use mt5_bridge.Signal.Parse.{parse_signal}
use mt5_bridge.Signal.Pipe.{panics, rejected, parsed, parse_pipe}
use mt5_bridge.Http.{Handled, handle_signal, handle_queue, handle_health, handle_raw, raw_reading}
use mt5_bridge.Http.Server.{Incoming, signal_body, raw_body, serve, serve_all}

abbrev pub clears : Incoming → Bool
clears r = r.path == "/queue" && r.method == "DELETE"

-- A path is one of the routes at most.
apart :
    (path one other : String)
    → (path == one) ≡ true
    → (one == other) ≡ false
    → (path == other) ≡ false
apart path one other e ne = ground (arith, eq_iff path one, eq_iff path other, eq_iff one other)

module _ {F : Type 0} ⦃fl : Float64 F⦄ (cv : Conversions F) where
  abbrev pub json_signals : ℕ → Option String → List (Signal F)
  json_signals now none = []
  json_signals now (some text) = elim (parse_signal cv now text) [ none ↦ [] | some sig ↦ sig ∷ [] ]

  abbrev pub text_signals : ℕ → String → List (Signal F)
  text_signals now text = elim (parse_pipe cv now text) [
    | panics ↦ []
    | rejected ↦ []
    | parsed sig ↦ sig ∷ []
  ]

  -- The signal that a request brings, if it brings one.
  abbrev pub posted : ℕ → Incoming → List (Signal F)
  posted now r =
      if r.method == "POST"
      then (if r.path == "/signal"
          then json_signals now (signal_body r)
          else if r.path == "/raw"
          then text_signals now (raw_body r)
          else [])
      else []

  -- The signals that the requests since the last one that clears have brought.
  abbrev pub pending : List (Signal F) → List (ℕ × Incoming) → List (Signal F)
  pending waiting [] = waiting
  pending waiting ((now, r) ∷ rs) = pending (if clears r then [] else waiting ++ posted now r) rs

  after_signal :
      (now : ℕ) (method : String) (body : Option String) (q : Queue (Signal F))
      → (handle_signal cv now method body q).1.signals
        ≡ q.signals ++ (if method == "POST" then json_signals now body else [])
  unfolding handle_signal Queue.push
  after_signal now method none q = ground (arith, append-nil q.signals)
  after_signal now method (some text) q = ground (arith, append-nil q.signals)

  after_raw :
      (now : ℕ) (method body : String) (q : Queue (Signal F))
      → (handle_raw cv now method body q).1.signals
        ≡ q.signals ++ (if method == "POST" then text_signals now body else [])
  unfolding handle_raw raw_reading Queue.push
  after_raw now method body q = ground (arith, append-nil q.signals)

  abbrev Leaves : ℕ → Incoming → Queue (Signal F) → Handled F → Type 0
  Leaves now r q out = out.1.signals ≡ (if clears r then [] else q.signals ++ posted now r)

  queue_left :
      (method : String) (q : Queue (Signal F))
      → (handle_queue method q).1.signals ≡ (if method == "DELETE" then [] else q.signals)
  unfolding handle_queue Queue.clear
  queue_left method q =
      if-cases (λ (out : Handled F). out.1.signals ≡ (if method == "DELETE" then [] else q.signals))
        (method == "GET") (λ g. rw (apart method "GET" "DELETE" g refl) refl)
        (λ g. elim (Bool-cases (method == "DELETE")) [ inl d ↦ rw (d) refl | inr d ↦ rw (d) refl ])

  after_queue :
      (now : ℕ) (r : Incoming) (q : Queue (Signal F))
      → (r.path == "/signal") ≡ false
      → (r.path == "/queue") ≡ true
      → (r.path == "/raw") ≡ false
      → Leaves now r q (handle_queue r.method q)
  after_queue now r q s h w =
      queue_left r.method q ∙ rw (s, h, w) ground (arith, append-nil q.signals)

  after_other :
      (now : ℕ) (r : Incoming) (q q' : Queue (Signal F))
      → (r.path == "/signal") ≡ false
      → (r.path == "/queue") ≡ false
      → (r.path == "/raw") ≡ false
      → q'.signals ≡ q.signals
      → q'.signals ≡ (if clears r then [] else q.signals ++ posted now r)
  after_other now r q q' s h w same = ground (arith, s, h, w, same, append-nil q.signals)

  after_serve : (now : ℕ) (r : Incoming) (q : Queue (Signal F)) → Leaves now r q (serve cv now r q)
  unfolding serve handle_health
  after_serve now r q =
      if-cases (Leaves now r q) (r.path == "/signal")
        (λ is_signal.
          after_signal now r.method (signal_body r) q
          ∙ rw (is_signal, apart r.path "/signal" "/queue" is_signal refl) refl)
        (λ s.
          if-cases (Leaves now r q) (r.path == "/queue")
            (λ h. after_queue now r q s h (apart r.path "/queue" "/raw" h refl))
            (λ h.
              if-cases (Leaves now r q) (r.path == "/health")
                (λ is_health.
                  after_other now r q q s h (apart r.path "/health" "/raw" is_health refl) refl)
                (λ l.
                  if-cases (Leaves now r q) (r.path == "/raw")
                    (λ w. after_raw now r.method (raw_body r) q ∙ ground (arith, s, h, w))
                    (λ w. after_other now r q q s h w refl))))

  -- Whatever requests the server gets, in whatever order, what waits in the queue is what waited
  -- before, if no request has cleared it, and then the signals of all posts since the last request that
  -- cleared it, in order, however the handlers answered; nothing else takes a signal out.
  pub serve_all-pending :
      (rs : List (ℕ × Incoming)) (q : Queue (Signal F))
      → (serve_all cv rs q).signals ≡ pending q.signals rs
  unfolding serve_all
  serve_all-pending [] q = refl
  serve_all-pending ((now, r) ∷ rs) q =
      serve_all-pending rs (serve cv now r q).1
      ∙ ap (λ waiting. pending waiting rs) (after_serve now r q)
