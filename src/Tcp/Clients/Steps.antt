-- ===== src/Tcp/Clients/Steps.antt =====
-- The steps of one connection keep the table of clients in order.
use mt5_bridge.Prelude.{
  ℕ, count-set_at, count-append, count-zero, one_if, ◌+◌, ◌-◌, ◌≡◌, refl, sym, ◌∙◌, ap, ◌≢◌, ◌⊎◌,
  String, true, false, ◌&&◌, not, Option, none, some, [], ◌∷◌, ◌++◌, inl, inr, arith, nat_eq,
  get_elem?, get_elem?-append, set_at, get_elem?-set_at_same, get_elem?-set_at_other, Bool-cases,
  if-both, and_then, ◌==◌,
}
use mt5_bridge.Go.Float.{Float64}
use mt5_bridge.Signal.{Conversions}
use mt5_bridge.Tcp.{Handled, crashed, handled, handle_line}
use mt5_bridge.Tcp.Clients.{
  Place, accepted, serving, noting, handling, leaving, gone, Conn, Client, Clients, client_at, put,
  remove, Server, accept, place_conn, register, unregister, hang_up, touch, with_bridge, scan_line,
  note_seen, handle_scanned,
}
use mt5_bridge.Tcp.Clients.Entries.{
  client_at-put, put-other, client_at-remove, addr_of, entry_of, is_serving, is_running, IsShut,
  IsListed, runs, IsTidy,
}

module _ {F : Type 0} where
  -- The goroutine of one connection goes on, and changes at most the entry of its connection.
  pub replaced-IsTidy :
      (i : ℕ) (c c' : Conn) (clients : Clients) (running : ℕ) (s : Server F)
      → get_elem? s.conns i ≡ some c
      → addr_of (client_at i clients) ≡ entry_of (some c')
      → ((k : ℕ) → k ≢ i → client_at k clients ≡ client_at k s.clients)
      → IsShut (some c')
      → (s.running + one_if (runs c') ≡ running + one_if (runs c))
      → IsTidy s
      → IsTidy (record s { conns = set_at i c' s.conns; clients = clients; running = running })
  replaced-IsTidy i c c' clients running s here entry others shut n (listed, counted) =
      (all, omega (arith, n, counted, count-set_at runs i c c' s.conns here))
    where
      all : (k : ℕ) → IsListed k clients (set_at i c' s.conns)
      all k = elim (Bool-cases (nat_eq k i)) [
        | inl e ↦ same (ground (arith, e))
        | inr e ↦ apart (λ h. ground (arith, h, e))
      ]
        where
          same : k ≡ i → IsListed k clients (set_at i c' s.conns)
          same e = rw (e, get_elem?-set_at_same i c c' s.conns here) (entry, shut)

          apart : k ≢ i → IsListed k clients (set_at i c' s.conns)
          apart ne = rw (others k ne, get_elem?-set_at_other k i c' s.conns ne) (listed k)

  pub register-IsTidy :
      (i now : ℕ) (c : Conn) (place : Place) (s : Server F)
      → get_elem? s.conns i ≡ some c
      → c.place ≡ place
      → IsTidy s
      → IsTidy (register i now c place s)
  unfolding register place_conn
  register-IsTidy i now c accepted s here at tidy =
      replaced-IsTidy i c (record c { place = serving }) _ s.running s here
        (rw (client_at-put i i (record { addr = c.addr; seen = now; account_id = "" }) s.clients)
          ground arith)
        (λ k ne. put-other i k _ s.clients ne) (λ l. ground (arith, l)) (rw (at) refl) tidy
  register-IsTidy i now c serving s here at tidy = tidy
  register-IsTidy i now c leaving s here at tidy = tidy
  register-IsTidy i now c (noting line) s here at tidy = tidy
  register-IsTidy i now c (handling line) s here at tidy = tidy
  register-IsTidy i now c gone s here at tidy = tidy

  pub unregister-IsTidy :
      (i : ℕ) (c : Conn) (place : Place) (s : Server F)
      → get_elem? s.conns i ≡ some c
      → c.place ≡ place
      → IsTidy s
      → IsTidy (unregister i c place s)
  unfolding unregister place_conn
  unregister-IsTidy i c serving s here at tidy =
      replaced-IsTidy i c (record c { place = leaving }) (remove i s.clients) s.running s here
        (rw (client_at-remove i i s.clients) ground arith)
        (λ k ne. client_at-remove i k s.clients ∙ ground (arith, ne)) (λ l. ground (arith, l))
        (rw (at) refl) tidy
  unregister-IsTidy i c accepted s here at tidy = tidy
  unregister-IsTidy i c leaving s here at tidy = tidy
  unregister-IsTidy i c (noting line) s here at tidy = tidy
  unregister-IsTidy i c (handling line) s here at tidy = tidy
  unregister-IsTidy i c gone s here at tidy = tidy

  -- The counter is positive while the goroutine of a connection runs.
  pub hang_up-IsTidy :
      (i : ℕ) (c : Conn) (place : Place) (s : Server F)
      → get_elem? s.conns i ≡ some c
      → c.place ≡ place
      → IsTidy s
      → IsTidy (hang_up i c place s)
  unfolding hang_up place_conn
  hang_up-IsTidy i c leaving s here at tidy =
      replaced-IsTidy i c (record { addr = c.addr; place = gone; closed = true }) s.clients
        (s.running - 1) s here ((tidy.0 i).0 ∙ rw (here) ground (arith, at)) (λ k ne. refl)
        (λ l. refl) (less (Bool-cases (nat_eq s.running 0))) tidy
    where
      less :
          (nat_eq s.running 0 ≡ true) ⊎ (nat_eq s.running 0 ≡ false)
          → s.running + 0 ≡ (s.running - 1) + one_if (runs c)
      less (inl e) =
          let stopped = count-zero runs i c s.conns (sym tidy.1 ∙ ground (arith, e)) here in
          ground (arith, stopped, at)
      less (inr e) = ground (arith, e, at)
  hang_up-IsTidy i c accepted s here at tidy = tidy
  hang_up-IsTidy i c serving s here at tidy = tidy
  hang_up-IsTidy i c (noting line) s here at tidy = tidy
  hang_up-IsTidy i c (handling line) s here at tidy = tidy
  hang_up-IsTidy i c gone s here at tidy = tidy

  pub touch-IsTidy :
      (i now : ℕ) (o : Option Client) (s : Server F)
      → client_at i s.clients ≡ o
      → IsTidy s
      → IsTidy (touch i now o s)
  unfolding touch
  touch-IsTidy i now none s e tidy = tidy
  touch-IsTidy i now (some client) s e (listed, counted) = (all, counted)
    where
      kept :
          (k : ℕ)
          → addr_of (client_at k (put i (record client { seen = now }) s.clients))
            ≡ addr_of (client_at k s.clients)
      kept k = elim (Bool-cases (nat_eq i k)) [
        | inl h ↦
            rw (client_at-put i k (record client { seen = now }) s.clients, h)
              (sym (ap addr_of (ap (λ n. client_at n s.clients) (number h) ∙ e)))
        | inr h ↦ rw (client_at-put i k (record client { seen = now }) s.clients, h) refl
      ]
        where
          number : nat_eq i k ≡ true → k ≡ i
          number h = ground (arith, h)

      all : (k : ℕ) → IsListed k (put i (record client { seen = now }) s.clients) s.conns
      all k = (kept k ∙ (listed k).0, (listed k).1)

  -- A goroutine goes on within the loop.
  placed-IsTidy :
      (i : ℕ) (c : Conn) (place : Place) (s : Server F)
      → get_elem? s.conns i ≡ some c
      → is_serving c.place ≡ is_serving place
      → is_running c.place ≡ true
      → is_running place ≡ true
      → IsTidy s
      → IsTidy (place_conn i place c s)
  unfolding place_conn
  placed-IsTidy i c place s here entry ran runs_on tidy =
      replaced-IsTidy i c (record c { place = place }) s.clients s.running s here
        ((tidy.0 i).0 ∙ rw (here) ground (arith, entry)) (λ k ne. refl)
        (λ l. ground (arith, l, runs_on)) (rw (ran, runs_on) refl) tidy

  pub scan_line-IsTidy :
      (i : ℕ) (line : String) (c : Conn) (place : Place) (s : Server F)
      → get_elem? s.conns i ≡ some c
      → c.place ≡ place
      → IsTidy s
      → IsTidy (scan_line i line c place s)
  unfolding scan_line
  scan_line-IsTidy i line c serving s here at tidy =
      if-both IsTidy (line == "") tidy
        (placed-IsTidy i c (noting line) s here (rw (at) refl) (rw (at) refl) refl tidy)
  scan_line-IsTidy i line c (noting held) s here at tidy = tidy
  scan_line-IsTidy i line c (handling held) s here at tidy = tidy
  scan_line-IsTidy i line c accepted s here at tidy = tidy
  scan_line-IsTidy i line c leaving s here at tidy = tidy
  scan_line-IsTidy i line c gone s here at tidy = tidy

  pub note_seen-IsTidy :
      (i now : ℕ) (c : Conn) (place : Place) (s : Server F)
      → get_elem? s.conns i ≡ some c
      → c.place ≡ place
      → IsTidy s
      → IsTidy (note_seen i now c place s)
  unfolding note_seen place_conn
  note_seen-IsTidy i now c (noting line) s here at tidy =
      touch-IsTidy i now (client_at i s.clients) (place_conn i (handling line) c s) refl
        (placed-IsTidy i c (handling line) s here (rw (at) refl) (rw (at) refl) refl tidy)
  note_seen-IsTidy i now c (handling line) s here at tidy = tidy
  note_seen-IsTidy i now c serving s here at tidy = tidy
  note_seen-IsTidy i now c accepted s here at tidy = tidy
  note_seen-IsTidy i now c leaving s here at tidy = tidy
  note_seen-IsTidy i now c gone s here at tidy = tidy

  pub accept-IsTidy : (addr : String) (s : Server F) → IsTidy s → IsTidy (accept addr s)
  unfolding accept
  accept-IsTidy addr s (listed, counted) =
      if-both IsTidy (s.listening && not s.done)
        (all, omega (arith, counted, count-append runs s.conns c)) (listed, counted)
    where
      c : Conn
      c = record { addr = addr; place = accepted; closed = false }

      all : (k : ℕ) → IsListed k s.clients (s.conns ++ c ∷ [])
      all k =
          get_elem?-append (λ o. (addr_of (client_at k s.clients) ≡ entry_of o) × IsShut o) k c
            s.conns (λ h. (h.0, λ l. ground (arith, l))) (listed k)

  -- What holds of the server, unless the process has ended.
  abbrev pub Lives : (Server F → Type 0) → Option (Server F) → Type 0
  Lives P none = Unit
  Lives P (some s) = P s

  pub Lives-and_then :
      (P : Server F → Type 0) (o : Option (Server F)) (f : Server F → Option (Server F))
      → Lives P o
      → ((s : Server F) → P s → Lives P (f s))
      → Lives P (and_then o f)
  Lives-and_then P none f h k = tt
  Lives-and_then P (some s) f h k = k s h

  pub with_bridge-IsTidy :
      (h : Handled F) (s : Server F) → IsTidy s → Lives IsTidy (with_bridge s h)
  unfolding with_bridge
  with_bridge-IsTidy crashed s tidy = tt
  with_bridge-IsTidy (handled b effects) s tidy = tidy

  pub handle_scanned-IsTidy :
      ⦃fl : Float64 F⦄ (cv : Conversions F) (i now : ℕ) (c : Conn) (place : Place) (s : Server F)
      → get_elem? s.conns i ≡ some c
      → c.place ≡ place
      → IsTidy s
      → Lives IsTidy (handle_scanned cv i now c place s)
  unfolding handle_scanned
  handle_scanned-IsTidy cv i now c (handling line) s here at tidy =
      with_bridge-IsTidy (handle_line cv now s.bridge line) (place_conn i serving c s)
        (placed-IsTidy i c serving s here (rw (at) refl) (rw (at) refl) refl tidy)
  handle_scanned-IsTidy cv i now c (noting line) s here at tidy = tidy
  handle_scanned-IsTidy cv i now c serving s here at tidy = tidy
  handle_scanned-IsTidy cv i now c accepted s here at tidy = tidy
  handle_scanned-IsTidy cv i now c leaving s here at tidy = tidy
  handle_scanned-IsTidy cv i now c gone s here at tidy = tidy
