-- ===== src/Tcp/Forwarding/Lost.antt =====
-- What is forwarded after a write has failed.
use mt5_bridge.Prelude.{
  ℕ, ◌≡◌, refl, ap, sym, ◌∙◌, Bool, true, false, ◌&&◌, Option, none, some, List, [], ◌∷◌, arith,
  get_elem?, if-both, if-cases,
}
use mt5_bridge.Tcp.Forwarding.{
  Place, starting, writing, dropping, ended, Link, new_link, dial, drop, go_to, step_from, step_at,
  Event, forwards, steps, keeps, run_event, run,
}

-- `relayConn` is nil exactly if there is no open connection, and one is dialled once at most.
abbrev IsSound : Link → Type 0
IsSound l = (l.is_set ≡ l.is_open) × (l.is_open ≡ true → l.waits ≡ true)

-- There is no connection, and there will be none.
abbrev IsLost : Link → Type 0
IsLost l = (l.waits ≡ true) × (l.is_open ≡ false)

drop-IsSound : (l : Link) → IsSound l → IsSound (drop l)
unfolding drop
drop-IsSound l s = ground (arith, s)

step_from-IsSound :
    (network : Bool) (i : ℕ) (p : Place) (l : Link) → IsSound l → IsSound (step_from network i p l)
unfolding step_from go_to
step_from-IsSound network i starting l s = s
step_from-IsSound network i writing l s = if-both IsSound (network && l.is_open) s s
step_from-IsSound network i dropping l s = drop-IsSound l s
step_from-IsSound network i (ended sent) l s = s

step_at-IsSound :
    (network : Bool) (i : ℕ) (o : Option Place) (l : Link)
    → IsSound l
    → IsSound (step_at network i o l)
unfolding step_at
step_at-IsSound network i none l s = s
step_at-IsSound network i (some p) l s = step_from-IsSound network i p l s

run-IsSound : (es : List Event) (l : Link) → IsSound l → IsSound (run es l)
unfolding run run_event dial
run-IsSound [] l s = s
run-IsSound (forwards ∷ es) l s = run-IsSound es (run_event forwards l) s
run-IsSound (steps i network ∷ es) l s =
    run-IsSound es (step_at network i (get_elem? l.senders i) l)
      (step_at-IsSound network i (get_elem? l.senders i) l s)
run-IsSound (keeps network ∷ es) l s =
    run-IsSound es (dial network l)
      (if-both IsSound l.waits s (if-both IsSound network (refl, λ e. refl) s))

-- A link that is lost stays so, and nothing is written.
abbrev KeepsLost : Link → Link → Type 0
KeepsLost l l' = (l'.written ≡ l.written) × IsLost l'

step_from-KeepsLost :
    (network : Bool) (i : ℕ) (p : Place) (l : Link)
    → IsLost l
    → KeepsLost l (step_from network i p l)
unfolding step_from go_to drop
step_from-KeepsLost network i starting l lost = (refl, lost)
step_from-KeepsLost network i writing l (w, o) =
    if-cases (KeepsLost l) (network && l.is_open) (λ t. absurd (closed t)) (λ f. (refl, (w, o)))
  where
    closed : (network && l.is_open) ≡ true → ⊥
    closed t = ground (arith, t, o)
step_from-KeepsLost network i dropping l (w, o) =
    if-both (KeepsLost l) l.is_set (refl, (w, refl)) (refl, (w, o))
step_from-KeepsLost network i (ended sent) l lost = (refl, lost)

step_at-KeepsLost :
    (network : Bool) (i : ℕ) (o : Option Place) (l : Link)
    → IsLost l
    → KeepsLost l (step_at network i o l)
unfolding step_at
step_at-KeepsLost network i none l lost = (refl, lost)
step_at-KeepsLost network i (some p) l lost = step_from-KeepsLost network i p l lost

dial-waits : (network : Bool) (l : Link) → l.waits ≡ true → dial network l ≡ l
unfolding dial
dial-waits network l w = rw (w) refl

run-lost_link : (es : List Event) (l : Link) → IsLost l → (run es l).written ≡ l.written
unfolding run run_event dial
run-lost_link [] l lost = refl
run-lost_link (forwards ∷ es) l lost = run-lost_link es (run_event forwards l) lost
run-lost_link (steps i network ∷ es) l lost =
    let (same, still) = step_at-KeepsLost network i (get_elem? l.senders i) l lost in
    run-lost_link es (step_at network i (get_elem? l.senders i) l) still ∙ same
run-lost_link (keeps network ∷ es) l lost =
    ap (λ l'. (run es l').written) (dial-waits network l lost.0) ∙ run-lost_link es l lost

-- The step that drops the connection.
dropping-KeepsLost :
    (network : Bool) (i : ℕ) (l : Link)
    → IsSound l
    → l.waits ≡ true
    → KeepsLost l (step_from network i dropping l)
unfolding step_from go_to drop
dropping-KeepsLost network i l (same, dialled) w =
    if-cases (KeepsLost l) l.is_set (λ e. (refl, (w, refl))) (λ e. (refl, (w, sym same ∙ e)))

-- Once the keeper has connected and the goroutine of a line whose write has failed makes its next
-- step, no line is written to the relay again, in whatever order the goroutines run, whatever is forwarded later and whether or not
-- the relay could be dialled.
pub run-dropped :
    (before after : List Event) (i : ℕ) (network : Bool)
    → (run before new_link).waits ≡ true
    → get_elem? (run before new_link).senders i ≡ some dropping
    → (run (steps i network ∷ after) (run before new_link)).written ≡ (run before new_link).written
unfolding run run_event step_at
run-dropped before after i network w at =
    let (same, lost) =
      dropping-KeepsLost network i (run before new_link)
        (run-IsSound before new_link (refl, λ e. ground (arith, e))) w in
    ap (λ o. (run after (step_at network i o (run before new_link))).written) at
    ∙ run-lost_link after (step_from network i dropping (run before new_link)) lost
    ∙ same
