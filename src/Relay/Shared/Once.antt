-- ===== src/Relay/Shared/Once.antt =====
-- How often a call of `sendToServer` writes its line, whatever the other calls do meanwhile.
use mt5_bridge.Prelude.{
  ℕ, suc, one_if, ◌≡◌, refl, ◌∙◌, ap, ◌≢◌, Bool, false, Option, none, some, List, [], ◌∷◌, inl, inr,
  any, if◌then◌else◌, arith, nat_eq, get_elem?, get_elem?-append, get_elem?-set_at_same,
  get_elem?-set_at_other, Bool-cases, if-both,
}
use mt5_bridge.Relay.Shared.{
  Place, reading, attempt, Relay, new_relay, Event, called, steps, ends, step_at, step_call,
  run_event, run, step_from,
}
use mt5_bridge.Relay.Shared.Moves.{is_sent, Writes, Moves, step_from-Moves}

-- How often the line of a call is among the lines that are written.
abbrev pub times : ℕ → List (ℕ × ℕ) → ℕ
times call [] = 0
times call ((by, conn) ∷ ws) = let rest = times call ws in if nat_eq by call then suc rest else rest

-- Whether a call has returned nil.
abbrev pub has_sent : Option Place → Bool
has_sent none = false
has_sent (some place) = is_sent place

abbrev pub IsOnce : ℕ → Relay → Type 0
IsOnce call r = times call r.written ≡ one_if (has_sent (get_elem? r.calls call))

Writes-same :
    (call : ℕ) (p q : Place) (r r' : Relay)
    → Writes call p q r r'
    → times call r.written ≡ one_if (is_sent p)
    → times call r'.written ≡ one_if (is_sent q)
Writes-same call p q r r' (inl (ws, s)) once = rw (ws, s) once
Writes-same call p q r r' (inr (conn, ws, not_yet, now)) once =
    ground (arith, ws, not_yet, now, once)

Writes-other :
    (other call : ℕ) (p q : Place) (r r' : Relay)
    → other ≢ call
    → Writes call p q r r'
    → times other r'.written ≡ times other r.written
Writes-other other call p q r r' ne (inl (ws, s)) = ap (times other) ws
Writes-other other call p q r r' ne (inr (conn, ws, not_yet, now)) = ground (arith, ws, ne)

Moves-IsOnce :
    (other call : ℕ) (p : Place) (r r' : Relay)
    → get_elem? r.calls call ≡ some p
    → Moves call p r r'
    → IsOnce other r
    → IsOnce other r'
Moves-IsOnce other call p r r' here (q, cs, l, w) once = elim (Bool-cases (nat_eq other call)) [
  | inl e ↦ same (ground (arith, e))
  | inr e ↦ apart (λ k. ground (arith, k, e))
]
  where
    at : get_elem? r'.calls call ≡ some q
    at = rw (cs) (get_elem?-set_at_same call p q r.calls here)

    same : other ≡ call → IsOnce other r'
    same k =
        rw (k, at)
          (Writes-same call p q r r' w (rw (k) at once ∙ ap (λ o. one_if (has_sent o)) here))

    apart : other ≢ call → IsOnce other r'
    apart ne =
        rw
          (
            cs,
            get_elem?-set_at_other other call q r.calls ne,
            Writes-other other call p q r r' ne w,
          )
          once

step_at-IsOnce :
    (other call : ℕ) (network : Bool) (o : Option Place) (r : Relay)
    → get_elem? r.calls call ≡ o
    → IsOnce other r
    → IsOnce other (step_at network call o r)
unfolding step_at
step_at-IsOnce other call network none r e once = once
step_at-IsOnce other call network (some p) r e once =
    Moves-IsOnce other call p r (step_from network call p r) e (step_from-Moves network call p r e)
      once

run_event-IsOnce :
    (other : ℕ) (e : Event) (r : Relay) → IsOnce other r → IsOnce other (run_event e r)
unfolding run_event step_call attempt
run_event-IsOnce other called r once =
    get_elem?-append (λ o. times other r.written ≡ one_if (has_sent o)) other (reading 0) r.calls
      (λ k. k) once
run_event-IsOnce other (steps call network) r once =
    step_at-IsOnce other call network (get_elem? r.calls call) r refl once
run_event-IsOnce other (ends conn) r once =
    if-both (IsOnce other) (any (nat_eq conn) r.readers) once once

run-IsOnce : (other : ℕ) (es : List Event) (r : Relay) → IsOnce other r → IsOnce other (run es r)
unfolding run
run-IsOnce other [] r once = once
run-IsOnce other (e ∷ es) r once =
    run-IsOnce other es (run_event e r) (run_event-IsOnce other e r once)

-- In every order of the steps of the calls, the ends of connections and the failures of the network,
-- each call of `sendToServer` has written its line once if it has returned nil, and not at all if it
-- is still running or has returned an error.
pub run-new_relay :
    (call : ℕ) (es : List Event)
    → let r = run es new_relay in times call r.written ≡ one_if (has_sent (get_elem? r.calls call))
run-new_relay call es = run-IsOnce call es new_relay refl
