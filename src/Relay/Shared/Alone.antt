-- ===== src/Relay/Shared/Alone.antt =====
-- A call of `sendToServer` that no other call disturbs, step by step and as a whole.
use mt5_bridge.Prelude.{
  ℕ, zero, suc, ◌+◌, ◌≤◌, ◌<◌, ◌≡◌, refl, ◌∙◌, ap, Bool, true, false, ◌&&◌, not, Option, none, some,
  List, [], ◌∷◌, arith, nat_eq, any, get_elem?, set_at, is_some, if-cases,
}
use mt5_bridge.Relay.{Round, Sent, redial, send_rounds, send_to_server}
use mt5_bridge.Relay.Shared.{
  Place, reading, writing_old, dropping_old, dialling, publishing, writing_new, dropping_new,
  returned, Relay, attempt, picked, drop, drop_conn, is_taken, go_to, finish, step_from, step_at,
  step_call,
}

-- What the network does when the call asks it.
abbrev pub answer : (ℕ → Round) → Place → Bool
answer net (writing_old n conn) = (net n).old_write
answer net (dialling n) = (net n).dial
answer net (writing_new n conn) = (net n).new_write
answer net _ = true

abbrev pub answer_at : (ℕ → Round) → Option Place → Bool
answer_at net none = true
answer_at net (some p) = answer net p

-- So many steps of the first call.
unfoldable pub alone : ℕ → (ℕ → Round) → Relay → Relay
unfolding step_call
alone zero net r = r
alone (suc k) net r = alone k net (step_call (answer_at net (get_elem? r.calls 0)) 0 r)

-- After some steps the call has returned, and there is a connection or none.
abbrev pub Ends : (ℕ → Round) → Relay → Sent → Type 0
Ends net r sent =
    (k : ℕ) × (get_elem? (alone k net r).calls 0 ≡ some (returned sent.delivered))
    × (is_some (alone k net r).server_conn ≡ sent.connected)

abbrev pub state : Option ℕ → ℕ → List ℕ → List ℕ → List (ℕ × ℕ) → Place → Relay
state conn next closed readers written place = record {
  server_conn = conn;
  next_conn = next;
  closed = closed;
  readers = readers;
  written = written;
  calls = place ∷ [];
}

-- Connections that are dialled later have not been closed.
abbrev pub IsFresh : ℕ → List ℕ → Type 0
IsFresh next closed = (conn : ℕ) → next ≤ conn → any (nat_eq conn) closed ≡ false

IsFresh-closed :
    (next : ℕ) (closed : List ℕ) → IsFresh next closed → IsFresh (suc next) (next ∷ closed)
unfolding any
IsFresh-closed next closed fresh conn l = ground (arith, fresh conn (omega (arith, l)), l)

-- The connection has been dialled and not closed.
abbrev pub IsOpen : ℕ → List ℕ → Option ℕ → Type 0
IsOpen next closed none = Unit
IsOpen next closed (some conn) = (conn < next) × (any (nat_eq conn) closed ≡ false)

IsFresh-other :
    (next conn : ℕ) (closed : List ℕ)
    → conn < next
    → IsFresh next closed
    → IsFresh next (conn ∷ closed)
unfolding any
IsFresh-other next conn closed l fresh k h = ground (arith, fresh k h, l, h)

module _ (net : ℕ → Round) where
  Ends-step :
      (conn : Option ℕ) (next : ℕ) (closed readers : List ℕ) (written : List (ℕ × ℕ)) (p : Place)
      (sent : Sent)
      → Ends net (step_from (answer net p) 0 p (state conn next closed readers written p)) sent
      → Ends net (state conn next closed readers written p) sent
  unfolding alone step_call step_at
  Ends-step conn next closed readers written p sent (k, at, c) = (suc k, at, c)

  Ends-same :
      (r : Relay) (sent sent' : Sent)
      → sent.delivered ≡ sent'.delivered
      → sent.connected ≡ sent'.connected
      → Ends net r sent
      → Ends net r sent'
  Ends-same r sent sent' d c (k, at, e) = (k, at ∙ ap (λ b. some (returned b)) d, e ∙ c)

  redial-sent :
      (r : Round) (again : Sent)
      → r.dial ≡ true
      → r.new_write ≡ true
      → (true ≡ (redial r again).delivered) × (true ≡ (redial r again).connected)
  unfolding redial
  redial-sent r again d w = rw (d, w) (refl, refl)

  redial-again :
      (r : Round) (again : Sent)
      → (r.dial && r.new_write) ≡ false
      → (again.delivered ≡ (redial r again).delivered)
        × (again.connected ≡ (redial r again).connected)
  unfolding redial
  redial-again r again f = ground (arith, f)

  -- The write to a new connection.
  writing-Ends :
      (n next : ℕ) (closed readers : List ℕ) (written : List (ℕ × ℕ)) (again : Sent)
      → any (nat_eq next) closed ≡ false
      → (net n).dial ≡ true
      → Ends net (state none (suc next) (next ∷ closed) readers written (attempt (suc n))) again
      → Ends net
          (state (some next) (suc next) closed readers written (writing_new n next))
          (redial (net n) again)
  unfolding step_from finish go_to drop_conn drop set_at alone is_taken
  writing-Ends n next closed readers written again still_open dials h =
      Ends-step (some next) (suc next) closed readers written (writing_new n next)
        (redial (net n) again)
        (if-cases (λ r. Ends net r (redial (net n) again))
          ((net n).new_write && not (any (nat_eq next) closed))
          (λ t.
            let (d, c) = redial-sent (net n) again dials (ground (arith, t)) in
            (0, ap (λ b. some (returned b)) d, c))
          (λ f.
            let (d, c) = redial-again (net n) again (ground (arith, f, still_open)) in
            Ends-step (some next) (suc next) closed readers written (dropping_new n)
              (redial (net n) again) (Ends-same _ again (redial (net n) again) d c h)))

  dialling-Ends :
      (n next : ℕ) (closed readers : List ℕ) (written : List (ℕ × ℕ)) (again : Sent)
      → any (nat_eq next) closed ≡ false
      → Ends net (state none next closed readers written (attempt (suc n))) again
      → Ends net
          (state none (suc next) (next ∷ closed) (next ∷ readers) written (attempt (suc n)))
          again
      → Ends net (state none next closed readers written (dialling n)) (redial (net n) again)
  unfolding step_from go_to set_at
  dialling-Ends n next closed readers written again still_open h k =
      Ends-step none next closed readers written (dialling n) (redial (net n) again) (
        if-cases (λ r. Ends net r (redial (net n) again)) ((net n).dial)
          (λ dials.
            Ends-step none (suc next) closed readers written (publishing n next)
              (redial (net n) again)
              (writing-Ends n next closed (next ∷ readers) written again still_open dials k))
          (λ fails.
            let (d, c) = redial-again (net n) again (ground (arith, fails)) in
            Ends-same _ again (redial (net n) again) d c h))

  attempt-last : (n : ℕ) → n + 0 ≡ 3 → attempt n ≡ returned false
  unfolding attempt
  attempt-last n e = ground (arith, e)

  attempt-next : (left n : ℕ) → n + suc left ≡ 3 → attempt n ≡ reading n
  unfolding attempt
  attempt-next left n e = ground (arith, e)

  -- The rounds from one without a connection on.
  rounds-Ends :
      (left n next : ℕ) (closed readers : List ℕ) (written : List (ℕ × ℕ))
      → n + left ≡ 3
      → IsFresh next closed
      → Ends net (state none next closed readers written (attempt n)) (send_rounds left n net false)
  unfolding send_rounds step_from go_to set_at picked alone
  rounds-Ends zero n next closed readers written e fresh = rw (attempt-last n e) (0, refl, refl)
  rounds-Ends (suc left) n next closed readers written e fresh = rw (attempt-next left n e) (
      Ends-step none next closed readers written (reading n)
        (redial (net n) (send_rounds left (suc n) net false))
        (dialling-Ends n next closed readers written (send_rounds left (suc n) net false)
          (fresh next (omega arith))
          (rounds-Ends left (suc n) next closed readers written (omega (arith, e)) fresh)
          (rounds-Ends left (suc n) (suc next) (next ∷ closed) (next ∷ readers) written
            (omega (arith, e)) (IsFresh-closed next closed fresh))))

  first_written :
      (net 0).old_write ≡ true
      → (true ≡ (send_to_server net true).delivered) × (true ≡ (send_to_server net true).connected)
  unfolding send_to_server send_rounds
  first_written e = rw (e) (refl, refl)

  first_lost :
      (net 0).old_write ≡ false
      → ((redial (net 0) (send_rounds 2 1 net false)).delivered
          ≡ (send_to_server net true).delivered)
        × ((redial (net 0) (send_rounds 2 1 net false)).connected
            ≡ (send_to_server net true).connected)
  unfolding send_to_server send_rounds
  first_lost e = rw (e) (refl, refl)

  -- A call that finds no connection, or one that is open, and that no other call disturbs, returns
  -- after some steps with the result of `send_to_server` and leaves a connection exactly if that does.
  -- No connection has been closed before it is dialled.
  pub state-Ends :
      (conn : Option ℕ) (next : ℕ) (closed readers : List ℕ) (written : List (ℕ × ℕ))
      → IsFresh next closed
      → IsOpen next closed conn
      → Ends net
          (state conn next closed readers written (reading 0))
          (send_to_server net (is_some conn))
  unfolding send_to_server send_rounds step_from go_to set_at picked finish drop_conn drop is_taken
      alone attempt
  state-Ends none next closed readers written fresh open' =
      rounds-Ends 3 0 next closed readers written refl fresh
  state-Ends (some conn) next closed readers written fresh (l, still_open) =
      Ends-step (some conn) next closed readers written (reading 0) (send_to_server net true) (
        Ends-step (some conn) next closed readers written (writing_old 0 conn)
          (send_to_server net true)
          (if-cases (λ r. Ends net r (send_to_server net true))
            ((net 0).old_write && not (any (nat_eq conn) closed))
            (λ t.
              let (d, c) = first_written (ground (arith, t)) in
              (0, ap (λ b. some (returned b)) d, c))
            (λ f.
              let (d, c) = first_lost (ground (arith, f, still_open)) in
              Ends-step (some conn) next closed readers written (dropping_old 0)
                (send_to_server net true)
                (Ends-same _ (redial (net 0) (send_rounds 2 1 net false)) (send_to_server net true)
                  d c
                  (dialling-Ends 0 next (conn ∷ closed) readers written (send_rounds 2 1 net false)
                    (again next (omega arith))
                    (rounds-Ends 2 1 next (conn ∷ closed) readers written refl again)
                    (rounds-Ends 2 1 (suc next) (next ∷ conn ∷ closed) (next ∷ readers) written refl
                      (IsFresh-closed next (conn ∷ closed) again)))))))
    where
      again : IsFresh next (conn ∷ closed)
      again = IsFresh-other next conn closed l fresh
