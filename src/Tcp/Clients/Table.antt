-- ===== src/Tcp/Clients/Table.antt =====
-- The table of clients against the goroutines of the connections, and what has happened to them when
-- `main` returns.
use mt5_bridge.Prelude.{
  ℕ, count-zero, ◌≡◌, refl, sym, ◌∙◌, String, true, false, Option, none, some, List, [], ◌∷◌, arith,
  get_elem?, count, if-both,
}
use mt5_bridge.Go.Float.{Float64}
use mt5_bridge.Signal.{Conversions}
use mt5_bridge.Tcp.{Bridge}
use mt5_bridge.Tcp.Clients.{
  Conn, client_at, Server, new_server, stop_accepting, Event, accepts, stops_accepting, registers,
  reads, notes, handles, read_ends, hangs_up, closes_listener, closes_clients, exits, conn_event,
  run_event, run, has_returned,
}
use mt5_bridge.Tcp.Clients.Entries.{
  addr_of, entry_of, IsShut, runs, IsTidy, close_listed-entry, close_listed-count,
}
use mt5_bridge.Tcp.Clients.Steps.{
  register-IsTidy, unregister-IsTidy, hang_up-IsTidy, scan_line-IsTidy, note_seen-IsTidy,
  handle_scanned-IsTidy, accept-IsTidy, Lives, Lives-and_then,
}

module _ {F : Type 0} ⦃fl : Float64 F⦄ (cv : Conversions F) where
  registers-IsTidy :
      (i now : ℕ) (o : Option Conn) (s : Server F)
      → get_elem? s.conns i ≡ o
      → IsTidy s
      → Lives IsTidy (conn_event cv (registers i now) o s)
  unfolding conn_event
  registers-IsTidy i now none s here tidy = tidy
  registers-IsTidy i now (some c) s here tidy = register-IsTidy i now c c.place s here refl tidy

  reads-IsTidy :
      (i : ℕ) (line : String) (o : Option Conn) (s : Server F)
      → get_elem? s.conns i ≡ o
      → IsTidy s
      → Lives IsTidy (conn_event cv (reads i line) o s)
  unfolding conn_event
  reads-IsTidy i line none s here tidy = tidy
  reads-IsTidy i line (some c) s here tidy = scan_line-IsTidy i line c c.place s here refl tidy

  notes-IsTidy :
      (i now : ℕ) (o : Option Conn) (s : Server F)
      → get_elem? s.conns i ≡ o
      → IsTidy s
      → Lives IsTidy (conn_event cv (notes i now) o s)
  unfolding conn_event
  notes-IsTidy i now none s here tidy = tidy
  notes-IsTidy i now (some c) s here tidy = note_seen-IsTidy i now c c.place s here refl tidy

  handles-IsTidy :
      (i now : ℕ) (o : Option Conn) (s : Server F)
      → get_elem? s.conns i ≡ o
      → IsTidy s
      → Lives IsTidy (conn_event cv (handles i now) o s)
  unfolding conn_event
  handles-IsTidy i now none s here tidy = tidy
  handles-IsTidy i now (some c) s here tidy =
      handle_scanned-IsTidy cv i now c c.place s here refl tidy

  read_ends-IsTidy :
      (i : ℕ) (o : Option Conn) (s : Server F)
      → get_elem? s.conns i ≡ o
      → IsTidy s
      → Lives IsTidy (conn_event cv (read_ends i) o s)
  unfolding conn_event
  read_ends-IsTidy i none s here tidy = tidy
  read_ends-IsTidy i (some c) s here tidy = unregister-IsTidy i c c.place s here refl tidy

  hangs_up-IsTidy :
      (i : ℕ) (o : Option Conn) (s : Server F)
      → get_elem? s.conns i ≡ o
      → IsTidy s
      → Lives IsTidy (conn_event cv (hangs_up i) o s)
  unfolding conn_event
  hangs_up-IsTidy i none s here tidy = tidy
  hangs_up-IsTidy i (some c) s here tidy = hang_up-IsTidy i c c.place s here refl tidy

  run_event-IsTidy : (e : Event) (s : Server F) → IsTidy s → Lives IsTidy (run_event cv e s)
  unfolding run_event stop_accepting
  run_event-IsTidy (accepts addr) s tidy = accept-IsTidy addr s tidy
  run_event-IsTidy stops_accepting s tidy = if-both IsTidy s.listening tidy tidy
  run_event-IsTidy (registers i now) s tidy =
      registers-IsTidy i now (get_elem? s.conns i) s refl tidy
  run_event-IsTidy (reads i line) s tidy = reads-IsTidy i line (get_elem? s.conns i) s refl tidy
  run_event-IsTidy (notes i now) s tidy = notes-IsTidy i now (get_elem? s.conns i) s refl tidy
  run_event-IsTidy (handles i now) s tidy = handles-IsTidy i now (get_elem? s.conns i) s refl tidy
  run_event-IsTidy (read_ends i) s tidy = read_ends-IsTidy i (get_elem? s.conns i) s refl tidy
  run_event-IsTidy (hangs_up i) s tidy = hangs_up-IsTidy i (get_elem? s.conns i) s refl tidy
  run_event-IsTidy closes_listener s tidy = tidy
  run_event-IsTidy closes_clients s (listed, counted) = (
    λ i. (
      (listed i).0 ∙ sym (close_listed-entry 0 i s.clients s.conns).0,
      (close_listed-entry 0 i s.clients s.conns).1 (listed i).1,
    ),
    counted ∙ sym (close_listed-count 0 s.clients s.conns),
  )
  run_event-IsTidy exits s tidy = tt

  run-IsTidy : (es : List Event) (s : Server F) → IsTidy s → Lives IsTidy (run cv es s)
  unfolding run
  run-IsTidy [] s tidy = tidy
  run-IsTidy (e ∷ es) s tidy =
      Lives-and_then IsTidy (run_event cv e s) (run cv es) (run_event-IsTidy e s tidy)
        (λ s' t. run-IsTidy es s' t)

  new_server-IsTidy : (b : Bridge F) → IsTidy (new_server b)
  unfolding client_at count
  new_server-IsTidy b = (λ i. (refl, tt), refl)

  no_entry : (o : Option Conn) → ((c : Conn) → o ≡ some c → runs c ≡ false) → entry_of o ≡ none
  no_entry none h = refl
  no_entry (some c) h = let stopped = h c refl in ground (arith, stopped)

  -- In every order of the steps, as long as the process lives, the table of clients has an entry for
  -- a connection exactly while its goroutine is in the loop of the scanner, with the address of the
  -- connection, and a connection whose goroutine has returned is closed.
  pub run-entry_of :
      (b : Bridge F) (es : List Event) (i : ℕ) (s : Server F)
      → run cv es (new_server b) ≡ some s
      → (addr_of (client_at i s.clients) ≡ entry_of (get_elem? s.conns i))
        × IsShut (get_elem? s.conns i)
  run-entry_of b es i s e = (rw (e) at (run-IsTidy es (new_server b) (new_server-IsTidy b))).0 i

  -- When `main` returns by itself, in every order of the steps, no connection has an entry in the
  -- table and every connection that was accepted is closed.
  pub run-has_returned :
      (b : Bridge F) (es : List Event) (i : ℕ) (s : Server F)
      → run cv es (new_server b) ≡ some s
      → has_returned s ≡ true
      → (addr_of (client_at i s.clients) ≡ none)
        × ((c : Conn) → get_elem? s.conns i ≡ some c → c.closed ≡ true)
  unfolding has_returned
  run-has_returned b es i s e r =
      let (listed, counted) = rw (e) at (run-IsTidy es (new_server b) (new_server-IsTidy b)) in
      let stopped = count-zero runs i in
      (
        (listed i).0
            ∙ no_entry (get_elem? s.conns i)
                (λ c here. stopped c s.conns (sym counted ∙ ground (arith, r)) here),
        λ c here.
            (rw (here) at (listed i).1) (stopped c s.conns (sym counted ∙ ground (arith, r)) here),
      )
