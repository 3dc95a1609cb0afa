-- ===== src/Tcp/Clients/Interleaved.antt =====
-- The lines of the connections, from the scanner to the queue, in whatever order the goroutines run.
use mathlib.Core.List.{append_assoc}
use mt5_bridge.Prelude.{
  ℕ, String, ◌≡◌, refl, sym, ◌∙◌, ap, ◌&&◌, not, Option, none, some, List, [], ◌∷◌, ◌++◌,
  if◌then◌else◌, get_elem?, get_elem?-append, if-both, and_then, nat_eq, zero, suc, is_some,
}
use mt5_bridge.Go.Float.{Float64}
use mt5_bridge.Signal.{Conversions}
use mt5_bridge.Tcp.{Bridge, Handled, crashed, handled, handle_line}
use mt5_bridge.Tcp.Clients.{
  Place, accepted, serving, noting, handling, leaving, gone, Conn, Clients, Server, new_server,
  client_at, accept, stop_accepting, handle_scanned, place_conn, with_bridge, close_listed, Event,
  accepts, stops_accepting, registers, reads, notes, handles, read_ends, hangs_up, closes_listener,
  closes_clients, exits, conn_event, run_event, run,
}
use mt5_bridge.Tcp.Clients.Steps.{Lives}
use mt5_bridge.Tcp.Clients.Pushed.{
  handled_at, handled_by_conn, handled_in, lines_handled, signals_of, run-Adds,
}
use mt5_bridge.Tcp.Clients.Flows.{
  held, held_at, held_by, scanned_by_conn, scanned_in, lines_of, lines_of-append, Flows, Flows-none,
  idle-Flows, moved-Flows, Idle, same-Idle, register-Idle, unregister-Idle, hang_up-Idle,
  note_seen-Idle, scan_line-Flows,
}

Flows-then :
    (a x h b y g c : List String) → Flows a x h b → Flows b y g c → Flows a (x ++ y) (h ++ g) c
Flows-then a x h b y g c p q =
    sym (append_assoc a x y)
    ∙ ap (λ l. l ++ y) p
    ∙ append_assoc h b y
    ∙ ap (λ l. h ++ l) q
    ∙ sym (append_assoc h g c)

closed-held :
    (k n : ℕ) (clients : Clients) (conns : List Conn)
    → held (get_elem? (close_listed n clients conns) k) ≡ held (get_elem? conns k)
unfolding close_listed
closed-held k n clients [] = refl
closed-held zero n clients (c ∷ cs) =
    if-both (λ (c' : Conn). held_at c'.place ≡ held_at c.place) (is_some (client_at n clients)) refl
      refl
closed-held (suc k) n clients (c ∷ cs) = closed-held k (suc n) clients cs

module _ {F : Type 0} ⦃fl : Float64 F⦄ (cv : Conversions F) where
  with_bridge-conns :
      (P : List Conn → Type 0) (h : Handled F) (s : Server F)
      → P s.conns
      → Lives (λ s'. P s'.conns) (with_bridge s h)
  unfolding with_bridge
  with_bridge-conns P crashed s p = tt
  with_bridge-conns P (handled b effects) s p = p

  -- The lines that the connection `k` gets from `Scan`, less those that are empty.
  abbrev pub lines_scanned : ℕ → List Event → Server F → List String
  lines_scanned k [] s = []
  lines_scanned k (e ∷ es) s =
      scanned_in k e s ++ elim (run_event cv e s) [ none ↦ [] | some s' ↦ lines_scanned k es s' ]

  handle_scanned-Flows :
      (k i now : ℕ) (c : Conn) (place : Place) (s : Server F)
      → get_elem? s.conns i ≡ some c
      → c.place ≡ place
      → Lives
          (λ s'. Flows (held_by k s) [] (lines_of k (handled_at i now place)) (held_by k s'))
          (handle_scanned cv i now c place s)
  unfolding handle_scanned place_conn
  handle_scanned-Flows k i now c (handling line) s here at =
      with_bridge-conns
        (λ conns.
          Flows (held_by k s) [] (if nat_eq i k then line ∷ [] else []) (held (get_elem? conns k)))
        (handle_line cv now s.bridge line) (place_conn i serving c s)
        (moved-Flows k i c (record c { place = serving }) s.conns [] _ here (λ h. rw (at, h) refl)
          (λ h. (refl, rw (h) refl)))
  handle_scanned-Flows k i now c accepted s here at = same-Idle k s
  handle_scanned-Flows k i now c serving s here at = same-Idle k s
  handle_scanned-Flows k i now c (noting line) s here at = same-Idle k s
  handle_scanned-Flows k i now c leaving s here at = same-Idle k s
  handle_scanned-Flows k i now c gone s here at = same-Idle k s

  -- What an event does to the lines of the connection `k`.
  abbrev Moves : ℕ → Event → Server F → Option (Server F) → Type 0
  Moves k e s o =
      Lives
        (λ s'. Flows (held_by k s) (scanned_in k e s) (lines_of k (handled_in e s)) (held_by k s'))
        o

  reads-Flows :
      (k i : ℕ) (line : String) (o : Option Conn) (s : Server F)
      → get_elem? s.conns i ≡ o
      → Lives
          (λ s'.
            Flows
              (held_by k s)
              (if nat_eq i k then scanned_by_conn line o else [])
              []
              (held_by k s'))
          (conn_event cv (reads i line) o s)
  unfolding conn_event
  reads-Flows k i line none s here = idle-Flows (nat_eq i k) (held_by k s)
  reads-Flows k i line (some c) s here = scan_line-Flows k i line c c.place s here refl

  handles-Flows :
      (k i now : ℕ) (o : Option Conn) (s : Server F)
      → get_elem? s.conns i ≡ o
      → Lives
          (λ s'. Flows (held_by k s) [] (lines_of k (handled_by_conn i now o)) (held_by k s'))
          (conn_event cv (handles i now) o s)
  unfolding conn_event
  handles-Flows k i now none s here = same-Idle k s
  handles-Flows k i now (some c) s here = handle_scanned-Flows k i now c c.place s here refl

  registers-Idle :
      (k i now : ℕ) (o : Option Conn) (s : Server F)
      → get_elem? s.conns i ≡ o
      → Lives (Idle k s) (conn_event cv (registers i now) o s)
  unfolding conn_event
  registers-Idle k i now none s here = same-Idle k s
  registers-Idle k i now (some c) s here = register-Idle k i now c c.place s here refl

  notes-Idle :
      (k i now : ℕ) (o : Option Conn) (s : Server F)
      → get_elem? s.conns i ≡ o
      → Lives (Idle k s) (conn_event cv (notes i now) o s)
  unfolding conn_event
  notes-Idle k i now none s here = same-Idle k s
  notes-Idle k i now (some c) s here = note_seen-Idle k i now c c.place s here refl

  read_ends-Idle :
      (k i : ℕ) (o : Option Conn) (s : Server F)
      → get_elem? s.conns i ≡ o
      → Lives (Idle k s) (conn_event cv (read_ends i) o s)
  unfolding conn_event
  read_ends-Idle k i none s here = same-Idle k s
  read_ends-Idle k i (some c) s here = unregister-Idle k i c c.place s here refl

  hangs_up-Idle :
      (k i : ℕ) (o : Option Conn) (s : Server F)
      → get_elem? s.conns i ≡ o
      → Lives (Idle k s) (conn_event cv (hangs_up i) o s)
  unfolding conn_event
  hangs_up-Idle k i none s here = same-Idle k s
  hangs_up-Idle k i (some c) s here = hang_up-Idle k i c c.place s here refl

  accept-Idle : (k : ℕ) (addr : String) (s : Server F) → Idle k s (accept addr s)
  unfolding accept
  accept-Idle k addr s =
      if-both (Idle k s) (s.listening && not s.done)
        (get_elem?-append (λ o. Flows (held_by k s) [] [] (held o)) k _ s.conns (λ e. e)
          (same-Idle k s))
        (same-Idle k s)

  run_event-Moves : (k : ℕ) (e : Event) (s : Server F) → Moves k e s (run_event cv e s)
  unfolding run_event stop_accepting
  run_event-Moves k (accepts addr) s = accept-Idle k addr s
  run_event-Moves k stops_accepting s =
      if-both (Idle k s) s.listening (same-Idle k s) (same-Idle k s)
  run_event-Moves k (registers i now) s = registers-Idle k i now (get_elem? s.conns i) s refl
  run_event-Moves k (reads i line) s = reads-Flows k i line (get_elem? s.conns i) s refl
  run_event-Moves k (notes i now) s = notes-Idle k i now (get_elem? s.conns i) s refl
  run_event-Moves k (handles i now) s = handles-Flows k i now (get_elem? s.conns i) s refl
  run_event-Moves k (read_ends i) s = read_ends-Idle k i (get_elem? s.conns i) s refl
  run_event-Moves k (hangs_up i) s = hangs_up-Idle k i (get_elem? s.conns i) s refl
  run_event-Moves k closes_listener s = same-Idle k s
  run_event-Moves k closes_clients s = Flows-none _ _ (closed-held k 0 s.clients s.conns)
  run_event-Moves k exits s = tt

  run-Moves :
      (k : ℕ) (es : List Event) (s : Server F)
      → Lives
          (λ s'.
            Flows
              (held_by k s)
              (lines_scanned k es s)
              (lines_of k (lines_handled cv es s))
              (held_by k s'))
          (run cv es s)
  unfolding run
  run-Moves k [] s = same-Idle k s
  run-Moves k (e ∷ es) s = next (run_event cv e s) (run_event-Moves k e s) (λ s'. run-Moves k es s')
    where
      rest :
          (s' : Server F) (o : Option (Server F))
          → Flows (held_by k s) (scanned_in k e s) (lines_of k (handled_in e s)) (held_by k s')
          → Lives
              (λ s''.
                Flows
                  (held_by k s')
                  (lines_scanned k es s')
                  (lines_of k (lines_handled cv es s'))
                  (held_by k s''))
              o
          → Lives
              (λ s''.
                Flows
                  (held_by k s)
                  (scanned_in k e s ++ lines_scanned k es s')
                  (lines_of k (handled_in e s ++ lines_handled cv es s'))
                  (held_by k s''))
              o
      rest s' none p q = tt
      rest s' (some s'') p q =
          rw (lines_of-append k (handled_in e s) (lines_handled cv es s'))
            (Flows-then _ _ _ (held_by k s') _ _ _ p q)

      next :
          (o : Option (Server F))
          → Moves k e s o
          → ((s' : Server F)
              → Lives
                  (λ s''.
                    Flows
                      (held_by k s')
                      (lines_scanned k es s')
                      (lines_of k (lines_handled cv es s'))
                      (held_by k s''))
                  (run cv es s'))
          → Lives
              (λ s''.
                Flows
                  (held_by k s)
                  (scanned_in k e s ++ elim o [ none ↦ [] | some s' ↦ lines_scanned k es s' ])
                  (lines_of k
                    (handled_in e s ++ elim o [ none ↦ [] | some s' ↦ lines_handled cv es s' ]))
                  (held_by k s''))
              (and_then o (run cv es))
      next none p q = tt
      next (some s') p q = rest s' (run cv es s') p (q s')

  -- However the steps of the goroutines are interleaved, as long as the process lives, the queue has
  -- gained the signals of the lines in the order in which they were handled, and nothing else of the
  -- bridge has changed; and what each connection got from `Scan`, less the empty lines, is, in its
  -- order, what it has handled and then the line that it has and has not handled yet, if any.
  pub run-bridge :
      (b : Bridge F) (es : List Event) (s : Server F)
      → run cv es (new_server b) ≡ some s
      → (s.bridge ≡ record b {
        queue = record {
          signals = b.queue.signals ++ signals_of cv (lines_handled cv es (new_server b));
        };
      })
        × ((k : ℕ)
            → lines_scanned k es (new_server b)
              ≡ lines_of k (lines_handled cv es (new_server b)) ++ held (get_elem? s.conns k))
  run-bridge b es s e =
      (rw (e) at (run-Adds cv es (new_server b)), λ k. rw (e) at (run-Moves k es (new_server b)))
