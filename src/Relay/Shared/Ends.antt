-- ===== src/Relay/Shared/Ends.antt =====
-- That a call of `sendToServer` returns, whatever the other calls do meanwhile.
use mt5_bridge.Prelude.{
  ℕ, suc, ◌+◌, ◌-◌, ◌≤◌, ◌≡◌, refl, ◌∙◌, ap, ◌≢◌, Bool, Option, none, some, List, [], ◌∷◌, inl, inr,
  any, if◌then◌else◌, arith, nat_eq, get_elem?, get_elem?-append, get_elem?-set_at_same,
  get_elem?-set_at_other, Bool-cases, if-both, absurd-none,
}
use mt5_bridge.Relay.Shared.{
  Place, reading, writing_old, dropping_old, dialling, publishing, writing_new, dropping_new,
  returned, attempt, Relay, Event, called, steps, ends, step_at, step_call, run_event, run,
  step_from,
}
use mt5_bridge.Relay.Shared.Moves.{steps_left, step_from-Moves}

-- The steps that a call makes.
abbrev pub steps_of : ℕ → List Event → ℕ
steps_of call [] = 0
steps_of call (called ∷ es) = steps_of call es
steps_of call (steps by network ∷ es) =
    let rest = steps_of call es in if nat_eq by call then suc rest else rest
steps_of call (ends conn ∷ es) = steps_of call es

-- There is a call, with so many steps left at most.
abbrev pub HasLeft : ℕ → Option Place → Type 0
HasLeft n o = (q : Place) × (o ≡ some q) × (steps_left q ≤ n)

HasLeft-same : {n : ℕ} {o o' : Option Place} → o' ≡ o → HasLeft n o → HasLeft n o'
HasLeft-same e (q, here, l) = (q, e ∙ here, l)

step_from-own :
    (call n : ℕ) (network : Bool) (p : Place) (r : Relay)
    → get_elem? r.calls call ≡ some p
    → steps_left p ≤ n
    → HasLeft (n - 1) (get_elem? (step_from network call p r).calls call)
step_from-own call n network p r here l =
    let (q, cs, k, w) = step_from-Moves network call p r here in
    (
      q,
      ap (λ xs. get_elem? xs call) cs ∙ get_elem?-set_at_same call p q r.calls here,
      omega (arith, k, l),
    )

step_at-other :
    (other call : ℕ) (network : Bool) (o : Option Place) (r : Relay)
    → get_elem? r.calls call ≡ o
    → other ≢ call
    → get_elem? (step_at network call o r).calls other ≡ get_elem? r.calls other
unfolding step_at
step_at-other other call network none r here ne = refl
step_at-other other call network (some p) r here ne =
    let (q, cs, k, w) = step_from-Moves network call p r here in
    ap (λ xs. get_elem? xs other) cs ∙ get_elem?-set_at_other other call q r.calls ne

step_call-other :
    (other call : ℕ) (network : Bool) (r : Relay)
    → other ≢ call
    → get_elem? (step_call network call r).calls other ≡ get_elem? r.calls other
unfolding step_call
step_call-other other call network r ne =
    step_at-other other call network (get_elem? r.calls call) r refl ne

step_call-own :
    (call n : ℕ) (network : Bool) (r : Relay)
    → HasLeft n (get_elem? r.calls call)
    → HasLeft (n - 1) (get_elem? (step_call network call r).calls call)
unfolding step_call step_at
step_call-own call n network r (p, here, l) = rw (here) (step_from-own call n network p r here l)

HasLeft-more : {n m : ℕ} {o : Option Place} → n ≤ m → HasLeft n o → HasLeft m o
HasLeft-more h (q, here, l) = (q, here, omega (arith, h, l))

-- The steps that a call has left become fewer by its own steps.
run-HasLeft :
    (call n m : ℕ) (es : List Event) (r : Relay)
    → n ≤ m + steps_of call es
    → HasLeft n (get_elem? r.calls call)
    → HasLeft m (get_elem? (run es r).calls call)
unfolding run run_event
run-HasLeft call n m [] r h left = HasLeft-more (omega (arith, h)) left
run-HasLeft call n m (called ∷ es) r h left =
    run-HasLeft call n m es (run_event called r) h
      (get_elem?-append (HasLeft n) call (attempt 0) r.calls (λ (p, e, k). absurd-none e) left)
run-HasLeft call n m (ends conn ∷ es) r h left =
    run-HasLeft call n m es (run_event (ends conn) r) h (
      if-both (λ (r' : Relay). HasLeft n (get_elem? r'.calls call)) (any (nat_eq conn) r.readers)
        left left)
run-HasLeft call n m (steps by network ∷ es) r h left = elim (Bool-cases (nat_eq by call)) [
  | inl e ↦
      run-HasLeft call (n - 1) m es (step_call network by r) (ground (arith, h, e))
        (own (ground (arith, e)))
  | inr e ↦
      run-HasLeft call n m es (step_call network by r) (ground (arith, h, e))
        (HasLeft-same (step_call-other call by network r (λ k. ground (arith, k, e))) left)
]
  where
    own : by ≡ call → HasLeft (n - 1) (get_elem? (step_call network by r).calls call)
    own k = rw (k) (step_call-own call n network r left)

steps_left-zero : (q : Place) → steps_left q ≤ 0 → (sent : Bool) × (q ≡ returned sent)
steps_left-zero (reading n) l = absurd (omega (arith, l))
steps_left-zero (writing_old n conn) l = absurd (omega (arith, l))
steps_left-zero (dropping_old n) l = absurd (omega (arith, l))
steps_left-zero (dialling n) l = absurd (omega (arith, l))
steps_left-zero (publishing n conn) l = absurd (omega (arith, l))
steps_left-zero (writing_new n conn) l = absurd (omega (arith, l))
steps_left-zero (dropping_new n) l = absurd (omega (arith, l))
steps_left-zero (returned sent) l = (sent, refl)

steps_left_bound : (p : Place) → steps_left p ≤ 21
steps_left_bound (reading n) = omega arith
steps_left_bound (writing_old n conn) = omega arith
steps_left_bound (dropping_old n) = omega arith
steps_left_bound (dialling n) = omega arith
steps_left_bound (publishing n conn) = omega arith
steps_left_bound (writing_new n conn) = omega arith
steps_left_bound (dropping_new n) = omega arith
steps_left_bound (returned sent) = omega arith

-- A call of `sendToServer` has returned after 21 steps of its own, in whatever order the calls make
-- their steps and whatever the network does.
pub run-returned :
    (call : ℕ) (p : Place) (es : List Event) (r : Relay)
    → get_elem? r.calls call ≡ some p
    → 21 ≤ steps_of call es
    → (sent : Bool) × (get_elem? (run es r).calls call ≡ some (returned sent))
run-returned call p es r here enough =
    let (q, at, l) =
      run-HasLeft call 21 0 es r (omega (arith, enough)) (p, here, steps_left_bound p) in
    let (sent, e) = steps_left-zero q (omega (arith, l)) in (sent, at ∙ ap some e)
