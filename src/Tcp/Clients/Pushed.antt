-- ===== src/Tcp/Clients/Pushed.antt =====
-- What the connections together do to the bridge, by the lines in the order in which they are handled.
use mathlib.Core.List.{append_assoc, append-nil}
use mt5_bridge.Prelude.{
  ℕ, String, ◌≡◌, refl, sym, ◌∙◌, ap, Bool, true, false, ◌&&◌, not, Option, none, some, List, [],
  ◌∷◌, ◌++◌, if◌then◌else◌, get_elem?, if-both, and_then, absurd-none, some_injective, ◌==◌,
}
use mt5_bridge.Go.Float.{Float64}
use mt5_bridge.Signal.{Signal, Conversions}
use mt5_bridge.Tcp.{Bridge, Handled, crashed, handled, handle_line}
use mt5_bridge.Tcp.Lines.{signals_in, with_signals, left_by, crashes, handle_line-left}
use mt5_bridge.Tcp.Clients.{
  Place, accepted, serving, noting, handling, leaving, gone, Conn, Client, Server, client_at,
  accept, stop_accepting, register, unregister, hang_up, place_conn, touch, with_bridge, Event,
  accepts, stops_accepting, registers, reads, notes, handles, read_ends, hangs_up, closes_listener,
  closes_clients, exits, scan_line, note_seen, handle_scanned, conn_event, run_event, run,
}
use mt5_bridge.Tcp.Clients.Steps.{Lives}

-- The line that a connection handles, with its number and the time.
abbrev pub handled_at : ℕ → ℕ → Place → List (ℕ × ℕ × String)
handled_at i now (handling line) = (i, now, line) ∷ []
handled_at i now _ = []

abbrev pub handled_by_conn : ℕ → ℕ → Option Conn → List (ℕ × ℕ × String)
handled_by_conn i now none = []
handled_by_conn i now (some c) = handled_at i now c.place

module _ {F : Type 0} where
  abbrev pub handled_in : Event → Server F → List (ℕ × ℕ × String)
  handled_in (handles i now) s = handled_by_conn i now (get_elem? s.conns i)
  handled_in _ s = []

module _ {F : Type 0} ⦃fl : Float64 F⦄ (cv : Conversions F) where
  -- The lines of all connections in the order in which they are handled.
  abbrev pub lines_handled : List Event → Server F → List (ℕ × ℕ × String)
  lines_handled [] s = []
  lines_handled (e ∷ es) s =
      handled_in e s ++ elim (run_event cv e s) [ none ↦ [] | some s' ↦ lines_handled es s' ]

  abbrev pub signals_of : List (ℕ × ℕ × String) → List (Signal F)
  signals_of [] = []
  signals_of ((i, now, line) ∷ lines) = signals_in cv now line ++ signals_of lines

  signals_of-append :
      (xs ys : List (ℕ × ℕ × String)) → signals_of (xs ++ ys) ≡ signals_of xs ++ signals_of ys
  signals_of-append [] ys = refl
  signals_of-append ((i, now, line) ∷ xs) ys =
      ap (λ zs. signals_in cv now line ++ zs) (signals_of-append xs ys)
      ∙ sym (append_assoc (signals_in cv now line) (signals_of xs) (signals_of ys))

  abbrev pub Adds : Bridge F → List (ℕ × ℕ × String) → Server F → Type 0
  Adds b lines s = s.bridge ≡ with_signals cv b (signals_of lines)

  unchanged : (b : Bridge F) → b ≡ with_signals cv b []
  unchanged b =
      ap (λ sigs. record b { queue = record { signals = sigs } }) (sym (append-nil b.queue.signals))

  Adds-nothing : (b : Bridge F) (s : Server F) → s.bridge ≡ b → Adds b [] s
  Adds-nothing b s e = e ∙ unchanged b

  register-bridge :
      (i now : ℕ) (c : Conn) (place : Place) (s : Server F)
      → (register i now c place s).bridge ≡ s.bridge
  unfolding register place_conn
  register-bridge i now c accepted s = refl
  register-bridge i now c serving s = refl
  register-bridge i now c leaving s = refl
  register-bridge i now c (noting line) s = refl
  register-bridge i now c (handling line) s = refl
  register-bridge i now c gone s = refl

  unregister-bridge :
      (i : ℕ) (c : Conn) (place : Place) (s : Server F) → (unregister i c place s).bridge ≡ s.bridge
  unfolding unregister place_conn
  unregister-bridge i c accepted s = refl
  unregister-bridge i c serving s = refl
  unregister-bridge i c leaving s = refl
  unregister-bridge i c (noting line) s = refl
  unregister-bridge i c (handling line) s = refl
  unregister-bridge i c gone s = refl

  hang_up-bridge :
      (i : ℕ) (c : Conn) (place : Place) (s : Server F) → (hang_up i c place s).bridge ≡ s.bridge
  unfolding hang_up place_conn
  hang_up-bridge i c accepted s = refl
  hang_up-bridge i c serving s = refl
  hang_up-bridge i c leaving s = refl
  hang_up-bridge i c (noting line) s = refl
  hang_up-bridge i c (handling line) s = refl
  hang_up-bridge i c gone s = refl

  with_bridge-left :
      (h : Handled F) (k : Bool) (b : Bridge F) (s : Server F)
      → left_by cv h ≡ (if k then none else some b)
      → Lives (λ s'. s'.bridge ≡ b) (with_bridge s h)
  unfolding with_bridge
  with_bridge-left crashed k b s e = tt
  with_bridge-left (handled b' effects) true b s e = absurd-none (sym e)
  with_bridge-left (handled b' effects) false b s e = some_injective e

  scan_line-bridge :
      (i : ℕ) (line : String) (c : Conn) (place : Place) (s : Server F)
      → (scan_line i line c place s).bridge ≡ s.bridge
  unfolding scan_line place_conn
  scan_line-bridge i line c serving s =
      if-both (λ (s' : Server F). s'.bridge ≡ s.bridge) (line == "") refl refl
  scan_line-bridge i line c accepted s = refl
  scan_line-bridge i line c (noting held) s = refl
  scan_line-bridge i line c (handling held) s = refl
  scan_line-bridge i line c leaving s = refl
  scan_line-bridge i line c gone s = refl

  touch-bridge :
      (i now : ℕ) (o : Option Client) (s : Server F) → (touch i now o s).bridge ≡ s.bridge
  unfolding touch
  touch-bridge i now none s = refl
  touch-bridge i now (some client) s = refl

  note_seen-bridge :
      (i now : ℕ) (c : Conn) (place : Place) (s : Server F)
      → (note_seen i now c place s).bridge ≡ s.bridge
  unfolding note_seen place_conn
  note_seen-bridge i now c (noting line) s =
      touch-bridge i now (client_at i s.clients) (place_conn i (handling line) c s)
  note_seen-bridge i now c (handling line) s = refl
  note_seen-bridge i now c serving s = refl
  note_seen-bridge i now c accepted s = refl
  note_seen-bridge i now c leaving s = refl
  note_seen-bridge i now c gone s = refl

  handle_scanned-Adds :
      (i now : ℕ) (c : Conn) (place : Place) (s : Server F)
      → Lives (Adds s.bridge (handled_at i now place)) (handle_scanned cv i now c place s)
  unfolding handle_scanned
  handle_scanned-Adds i now c accepted s = Adds-nothing s.bridge s refl
  handle_scanned-Adds i now c serving s = Adds-nothing s.bridge s refl
  handle_scanned-Adds i now c (noting line) s = Adds-nothing s.bridge s refl
  handle_scanned-Adds i now c leaving s = Adds-nothing s.bridge s refl
  handle_scanned-Adds i now c gone s = Adds-nothing s.bridge s refl
  handle_scanned-Adds i now c (handling line) s =
      with_bridge-left (handle_line cv now s.bridge line) (crashes cv now line)
        (with_signals cv s.bridge (signals_of ((i, now, line) ∷ []))) (place_conn i serving c s)
        (handle_line-left cv now s.bridge line
          ∙ ap (λ sigs. if crashes cv now line then none else some (with_signals cv s.bridge sigs))
              (sym (append-nil (signals_in cv now line))))

  handles-Adds :
      (i now : ℕ) (o : Option Conn) (s : Server F)
      → Lives (Adds s.bridge (handled_by_conn i now o)) (conn_event cv (handles i now) o s)
  unfolding conn_event
  handles-Adds i now none s = Adds-nothing s.bridge s refl
  handles-Adds i now (some c) s = handle_scanned-Adds i now c c.place s

  -- The other steps of a connection.
  abbrev IsSilent : Event → Type 0
  IsSilent (handles i now) = ⊥
  IsSilent _ = Unit

  conn_event-Adds :
      (e : Event) (o : Option Conn) (s : Server F)
      → IsSilent e
      → Lives (Adds s.bridge []) (conn_event cv e o s)
  unfolding conn_event
  conn_event-Adds (handles i now) o s q = absurd q
  conn_event-Adds (reads i line) none s q = Adds-nothing s.bridge s refl
  conn_event-Adds (reads i line) (some c) s q =
      Adds-nothing s.bridge (scan_line i line c c.place s) (scan_line-bridge i line c c.place s)
  conn_event-Adds (notes i now) none s q = Adds-nothing s.bridge s refl
  conn_event-Adds (notes i now) (some c) s q =
      Adds-nothing s.bridge (note_seen i now c c.place s) (note_seen-bridge i now c c.place s)
  conn_event-Adds (registers i now) none s q = Adds-nothing s.bridge s refl
  conn_event-Adds (registers i now) (some c) s q =
      Adds-nothing s.bridge (register i now c c.place s) (register-bridge i now c c.place s)
  conn_event-Adds (read_ends i) none s q = Adds-nothing s.bridge s refl
  conn_event-Adds (read_ends i) (some c) s q =
      Adds-nothing s.bridge (unregister i c c.place s) (unregister-bridge i c c.place s)
  conn_event-Adds (hangs_up i) none s q = Adds-nothing s.bridge s refl
  conn_event-Adds (hangs_up i) (some c) s q =
      Adds-nothing s.bridge (hang_up i c c.place s) (hang_up-bridge i c c.place s)
  conn_event-Adds (accepts addr) o s q = Adds-nothing s.bridge s refl
  conn_event-Adds stops_accepting o s q = Adds-nothing s.bridge s refl
  conn_event-Adds closes_listener o s q = Adds-nothing s.bridge s refl
  conn_event-Adds closes_clients o s q = Adds-nothing s.bridge s refl
  conn_event-Adds exits o s q = Adds-nothing s.bridge s refl

  run_event-Adds :
      (e : Event) (s : Server F) → Lives (Adds s.bridge (handled_in e s)) (run_event cv e s)
  unfolding run_event accept stop_accepting
  run_event-Adds (accepts addr) s =
      if-both (Adds s.bridge []) (s.listening && not s.done) (unchanged s.bridge)
        (Adds-nothing s.bridge s refl)
  run_event-Adds stops_accepting s =
      if-both (Adds s.bridge []) s.listening (Adds-nothing s.bridge s refl) (unchanged s.bridge)
  run_event-Adds (registers i now) s = conn_event-Adds (registers i now) (get_elem? s.conns i) s tt
  run_event-Adds (handles i now) s = handles-Adds i now (get_elem? s.conns i) s
  run_event-Adds (reads i line) s = conn_event-Adds (reads i line) (get_elem? s.conns i) s tt
  run_event-Adds (notes i now) s = conn_event-Adds (notes i now) (get_elem? s.conns i) s tt
  run_event-Adds (read_ends i) s = conn_event-Adds (read_ends i) (get_elem? s.conns i) s tt
  run_event-Adds (hangs_up i) s = conn_event-Adds (hangs_up i) (get_elem? s.conns i) s tt
  run_event-Adds closes_listener s = unchanged s.bridge
  run_event-Adds closes_clients s = unchanged s.bridge
  run_event-Adds exits s = tt

  pub run-Adds :
      (es : List Event) (s : Server F) → Lives (Adds s.bridge (lines_handled es s)) (run cv es s)
  unfolding run
  run-Adds [] s = Adds-nothing s.bridge s refl
  run-Adds (e ∷ es) s = next (run_event cv e s) (run_event-Adds e s) (λ s'. run-Adds es s')
    where
      then_adds :
          (s' s'' : Server F) (xs ys : List (ℕ × ℕ × String))
          → Adds s.bridge xs s'
          → Adds s'.bridge ys s''
          → Adds s.bridge (xs ++ ys) s''
      then_adds s' s'' xs ys p q =
          q
          ∙ ap (λ b. with_signals cv b (signals_of ys)) p
          ∙ ap (λ sigs. record s.bridge { queue = record { signals = sigs } })
              (append_assoc s.bridge.queue.signals (signals_of xs) (signals_of ys)
                ∙ ap (λ sigs. s.bridge.queue.signals ++ sigs) (sym (signals_of-append xs ys)))

      rest :
          (s' : Server F) (o : Option (Server F))
          → Adds s.bridge (handled_in e s) s'
          → Lives (Adds s'.bridge (lines_handled es s')) o
          → Lives (Adds s.bridge (handled_in e s ++ lines_handled es s')) o
      rest s' none p q = tt
      rest s' (some s'') p q = then_adds s' s'' (handled_in e s) (lines_handled es s') p q

      next :
          (o : Option (Server F))
          → Lives (Adds s.bridge (handled_in e s)) o
          → ((s' : Server F) → Lives (Adds s'.bridge (lines_handled es s')) (run cv es s'))
          → Lives
              (Adds s.bridge
                (handled_in e s ++ elim o [ none ↦ [] | some s' ↦ lines_handled es s' ]))
              (and_then o (run cv es))
      next none p q = tt
      next (some s') p q = rest s' (run cv es s') p (q s')
