-- ===== src/Relay/Shared/Moves.antt =====
-- What one step of a call of `sendToServer` changes: the place of that call, and what is written.
use mt5_bridge.Prelude.{
  ℕ, zero, suc, ◌+◌, ◌-◌, ◌*◌, ◌≤◌, ◌≡◌, refl, sym, Bool, true, false, Option, none, some, List, [],
  ◌∷◌, ◌⊎◌, inl, inr, if◌then◌else◌, arith, ltb, get_elem?, set_at, Bool-cases, if-both, ap, ◌∙◌,
  some_injective,
}
use mt5_bridge.Relay.{max_attempts}
use mt5_bridge.Relay.Shared.{
  Place, reading, writing_old, dropping_old, dialling, publishing, writing_new, dropping_new,
  returned, Relay, attempt, picked, drop, drop_conn, is_taken, go_to, finish, step_from,
}

-- The most steps that a call makes in the attempts after this one.
abbrev pub steps_after : ℕ → ℕ
steps_after n = 7 * (2 - n)

-- The most steps that a call has left.
abbrev pub steps_left : Place → ℕ
steps_left (reading n) = steps_after n + 7
steps_left (writing_old n conn) = steps_after n + 6
steps_left (dropping_old n) = steps_after n + 5
steps_left (dialling n) = steps_after n + 4
steps_left (publishing n conn) = steps_after n + 3
steps_left (writing_new n conn) = steps_after n + 2
steps_left (dropping_new n) = steps_after n + 1
steps_left (returned sent) = 0

abbrev pub is_sent : Place → Bool
is_sent (returned sent) = sent
is_sent _ = false

-- Nothing is written and the call has not returned nil by this step, or both have happened.
abbrev pub Writes : ℕ → Place → Place → Relay → Relay → Type 0
Writes call p q r r' =
    ((r'.written ≡ r.written) × (is_sent q ≡ is_sent p))
    ⊎ ((conn : ℕ) × (r'.written ≡ (call, conn) ∷ r.written)
        × (is_sent p ≡ false)
        × (is_sent q ≡ true))

abbrev pub Moves : ℕ → Place → Relay → Relay → Type 0
Moves call p r r' =
    (q : Place) × (r'.calls ≡ set_at call q r.calls)
    × (steps_left q ≤ steps_left p - 1)
    × Writes call p q r r'

attempt-next :
    (n : ℕ) → (steps_left (attempt (suc n)) ≤ steps_after n) × (is_sent (attempt (suc n)) ≡ false)
unfolding attempt
attempt-next n = elim (Bool-cases (ltb (suc n) max_attempts)) [
  | inl e ↦ rw (e) (ground arith, refl)
  | inr e ↦ rw (e) (omega arith, refl)
]

drop-keeps :
    (o : Option ℕ) (r : Relay) → ((drop o r).calls ≡ r.calls) × ((drop o r).written ≡ r.written)
unfolding drop
drop-keeps none r = (refl, refl)
drop-keeps (some conn) r = (refl, refl)

drop_conn-keeps :
    (r : Relay) → ((drop_conn r).calls ≡ r.calls) × ((drop_conn r).written ≡ r.written)
unfolding drop_conn
drop_conn-keeps r = drop-keeps r.server_conn r

set_at-same : (i : ℕ) (x : Place) (xs : List Place) → get_elem? xs i ≡ some x → xs ≡ set_at i x xs
unfolding set_at
set_at-same i x [] e = refl
set_at-same zero x (y ∷ ys) e = ap (λ z. z ∷ ys) (some_injective e)
set_at-same (suc i) x (y ∷ ys) e = ap (λ zs. y ∷ zs) (set_at-same i x ys e)

-- The write of a call that succeeds or leads on to another place.
written_or :
    (b : Bool) (call conn : ℕ) (p q : Place) (r : Relay)
    → 1 ≤ steps_left p
    → steps_left q ≤ steps_left p - 1
    → is_sent p ≡ false
    → is_sent q ≡ false
    → Moves call p r (if b then finish call conn r else go_to call q r)
unfolding finish go_to
written_or true call conn p q r l k s t =
    (returned true, refl, omega arith, inr (conn, refl, s, refl))
written_or false call conn p q r l k s t = (q, refl, k, inl (refl, t ∙ sym s))

pub step_from-Moves :
    (network : Bool) (call : ℕ) (p : Place) (r : Relay)
    → get_elem? r.calls call ≡ some p
    → Moves call p r (step_from network call p r)
unfolding step_from picked go_to
step_from-Moves network call (reading n) r e = next r.server_conn
  where
    next :
        (o : Option ℕ)
        → Moves call (reading n) r (record r { calls = set_at call (picked n o) r.calls })
    next none = (dialling n, refl, omega arith, inl (refl, refl))
    next (some conn) = (writing_old n conn, refl, omega arith, inl (refl, refl))
step_from-Moves network call (writing_old n conn) r e =
    written_or (is_taken r network conn) call conn (writing_old n conn) (dropping_old n) r
      (omega arith) (omega arith) refl refl
step_from-Moves network call (dropping_old n) r e =
    let (cs, ws) = drop_conn-keeps r in
    (dialling n, ap (set_at call (dialling n)) cs, omega arith, inl (ws, refl))
step_from-Moves network call (dialling n) r e =
    let (l, s) = attempt-next n in
    if-both (Moves call (dialling n) r) network
      (publishing n r.next_conn, refl, omega arith, inl (refl, refl))
      (attempt (suc n), refl, omega (arith, l), inl (refl, s))
step_from-Moves network call (publishing n conn) r e =
    (writing_new n conn, refl, omega arith, inl (refl, refl))
step_from-Moves network call (writing_new n conn) r e =
    written_or (is_taken r network conn) call conn (writing_new n conn) (dropping_new n) r
      (omega arith) (omega arith) refl refl
step_from-Moves network call (dropping_new n) r e =
    let (cs, ws) = drop_conn-keeps r in
    let (l, s) = attempt-next n in
    (attempt (suc n), ap (set_at call (attempt (suc n))) cs, omega (arith, l), inl (ws, s))
step_from-Moves network call (returned sent) r e =
    (returned sent, set_at-same call (returned sent) r.calls e, omega arith, inl (refl, refl))
