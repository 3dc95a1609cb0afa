-- ===== src/Tcp/Clients/Flows.antt =====
-- The lines of a connection, from the scanner to the queue: what each step gets and handles.
use mathlib.Core.List.{append-nil}
use mt5_bridge.Prelude.{
  ℕ, String, ◌≡◌, refl, sym, ◌∙◌, ap, Bool, true, false, Option, none, some, List, [], ◌∷◌, ◌++◌,
  if◌then◌else◌, get_elem?, set_at, get_elem?-set_at_same, get_elem?-set_at_other, if-both, ◌==◌,
  nat_eq, Bool-cases, inl, inr, arith,
}
use mt5_bridge.Tcp.Clients.{
  Place, accepted, serving, noting, handling, leaving, gone, Conn, Client, Server, client_at,
  register, unregister, hang_up, scan_line, note_seen, place_conn, touch, Event, reads,
}

-- The line that a connection has and has not handled yet.
abbrev pub held_at : Place → List String
held_at (noting line) = line ∷ []
held_at (handling line) = line ∷ []
held_at _ = []

abbrev pub held : Option Conn → List String
held none = []
held (some c) = held_at c.place

-- What a connection gets from `Scan`, less the lines that are empty.
abbrev pub scanned_at : String → Place → List String
scanned_at line serving = if line == "" then [] else line ∷ []
scanned_at line _ = []

abbrev pub scanned_by_conn : String → Option Conn → List String
scanned_by_conn line none = []
scanned_by_conn line (some c) = scanned_at line c.place

-- The lines of the connection `k`.
abbrev pub lines_of : ℕ → List (ℕ × ℕ × String) → List String
lines_of k [] = []
lines_of k ((i, now, line) ∷ later_on) =
    let later = lines_of k later_on in if nat_eq i k then line ∷ later else later

module _ {F : Type 0} where
  abbrev pub scanned_in : ℕ → Event → Server F → List String
  scanned_in k (reads i line) s =
      if nat_eq i k then scanned_by_conn line (get_elem? s.conns i) else []
  scanned_in k _ s = []

pub lines_of-append :
    (k : ℕ) (xs ys : List (ℕ × ℕ × String)) → lines_of k (xs ++ ys) ≡ lines_of k xs ++ lines_of k ys
lines_of-append k [] ys = refl
lines_of-append k ((i, now, line) ∷ xs) ys = ground (arith, lines_of-append k xs ys)

-- What was held and what was gained is what was passed on and what is held now.
abbrev pub Flows : List String → List String → List String → List String → Type 0
Flows before gained passed after = before ++ gained ≡ passed ++ after

pub Flows-none : (before after : List String) → after ≡ before → Flows before [] [] after
Flows-none before after e = append-nil before ∙ sym e

pub idle-Flows : (b : Bool) (xs : List String) → Flows xs (if b then [] else []) [] xs
idle-Flows b xs =
    if-both (λ (ys : List String). Flows xs ys [] xs) b (append-nil xs) (append-nil xs)

-- A step of the goroutine `i`, which may be the connection `k`.
pub moved-Flows :
    (k i : ℕ) (c c' : Conn) (conns : List Conn) (gained passed : List String)
    → get_elem? conns i ≡ some c
    → (nat_eq i k ≡ true → Flows (held_at c.place) gained passed (held_at c'.place))
    → (nat_eq i k ≡ false → (gained ≡ []) × (passed ≡ []))
    → Flows (held (get_elem? conns k)) gained passed (held (get_elem? (set_at i c' conns) k))
moved-Flows k i c c' conns gained passed here own other = elim (Bool-cases (nat_eq i k)) [
  | inl e ↦ same (ground (arith, e)) (own e)
  | inr e ↦
      rw ((other e).0, (other e).1)
        (Flows-none _ _ (ap held (get_elem?-set_at_other k i c' conns (λ h. ground (arith, h, e)))))
]
  where
    same :
        k ≡ i
        → Flows (held_at c.place) gained passed (held_at c'.place)
        → Flows (held (get_elem? conns k)) gained passed (held (get_elem? (set_at i c' conns) k))
    same e flows = rw (e, get_elem?-set_at_same i c c' conns here, here) flows

module _ {F : Type 0} where
  -- What the connection `k` holds.
  abbrev pub held_by : ℕ → Server F → List String
  held_by k s = held (get_elem? s.conns k)

  -- A step that neither gets a line nor handles one.
  kept-Flows :
      (k i : ℕ) (c c' : Conn) (s : Server F)
      → get_elem? s.conns i ≡ some c
      → held_at c'.place ≡ held_at c.place
      → Flows (held_by k s) [] [] (held (get_elem? (set_at i c' s.conns) k))
  kept-Flows k i c c' s here e =
      moved-Flows k i c c' s.conns [] [] here (λ h. Flows-none _ _ e) (λ h. (refl, refl))

  -- A step after which the connection `k` has the same line, if any.
  abbrev pub Idle : ℕ → Server F → Server F → Type 0
  Idle k s s' = Flows (held_by k s) [] [] (held_by k s')

  pub same-Idle : (k : ℕ) (s : Server F) → Idle k s s
  same-Idle k s = append-nil (held_by k s)

  pub register-Idle :
      (k i now : ℕ) (c : Conn) (place : Place) (s : Server F)
      → get_elem? s.conns i ≡ some c
      → c.place ≡ place
      → Idle k s (register i now c place s)
  unfolding register place_conn
  register-Idle k i now c accepted s here at =
      kept-Flows k i c (record c { place = serving }) s here (rw (at) refl)
  register-Idle k i now c serving s here at = same-Idle k s
  register-Idle k i now c (noting line) s here at = same-Idle k s
  register-Idle k i now c (handling line) s here at = same-Idle k s
  register-Idle k i now c leaving s here at = same-Idle k s
  register-Idle k i now c gone s here at = same-Idle k s

  pub unregister-Idle :
      (k i : ℕ) (c : Conn) (place : Place) (s : Server F)
      → get_elem? s.conns i ≡ some c
      → c.place ≡ place
      → Idle k s (unregister i c place s)
  unfolding unregister place_conn
  unregister-Idle k i c serving s here at =
      kept-Flows k i c (record c { place = leaving }) s here (rw (at) refl)
  unregister-Idle k i c accepted s here at = same-Idle k s
  unregister-Idle k i c (noting line) s here at = same-Idle k s
  unregister-Idle k i c (handling line) s here at = same-Idle k s
  unregister-Idle k i c leaving s here at = same-Idle k s
  unregister-Idle k i c gone s here at = same-Idle k s

  pub hang_up-Idle :
      (k i : ℕ) (c : Conn) (place : Place) (s : Server F)
      → get_elem? s.conns i ≡ some c
      → c.place ≡ place
      → Idle k s (hang_up i c place s)
  unfolding hang_up place_conn
  hang_up-Idle k i c leaving s here at =
      kept-Flows k i c (record { addr = c.addr; place = gone; closed = true }) s here (rw (at) refl)
  hang_up-Idle k i c accepted s here at = same-Idle k s
  hang_up-Idle k i c serving s here at = same-Idle k s
  hang_up-Idle k i c (noting line) s here at = same-Idle k s
  hang_up-Idle k i c (handling line) s here at = same-Idle k s
  hang_up-Idle k i c gone s here at = same-Idle k s

  touch-conns : (i now : ℕ) (o : Option Client) (s : Server F) → (touch i now o s).conns ≡ s.conns
  unfolding touch
  touch-conns i now none s = refl
  touch-conns i now (some client) s = refl

  pub note_seen-Idle :
      (k i now : ℕ) (c : Conn) (place : Place) (s : Server F)
      → get_elem? s.conns i ≡ some c
      → c.place ≡ place
      → Idle k s (note_seen i now c place s)
  unfolding note_seen place_conn
  note_seen-Idle k i now c (noting line) s here at =
      rw (touch-conns i now (client_at i s.clients) (place_conn i (handling line) c s))
        (kept-Flows k i c (record c { place = handling line }) s here (rw (at) refl))
  note_seen-Idle k i now c accepted s here at = same-Idle k s
  note_seen-Idle k i now c serving s here at = same-Idle k s
  note_seen-Idle k i now c (handling line) s here at = same-Idle k s
  note_seen-Idle k i now c leaving s here at = same-Idle k s
  note_seen-Idle k i now c gone s here at = same-Idle k s

  pub scan_line-Flows :
      (k i : ℕ) (line : String) (c : Conn) (place : Place) (s : Server F)
      → get_elem? s.conns i ≡ some c
      → c.place ≡ place
      → Flows
          (held_by k s)
          (if nat_eq i k then scanned_at line place else [])
          []
          (held_by k (scan_line i line c place s))
  unfolding scan_line place_conn
  scan_line-Flows k i line c serving s here at = elim (Bool-cases (line == "")) [
    | inl e ↦ rw (e) (idle-Flows (nat_eq i k) (held_by k s))
    | inr e ↦ rw (e) (
        moved-Flows k i c (record c { place = noting line }) s.conns _ [] here
          (λ h. rw (at, h) refl) (λ h. (rw (h) refl, refl)))
  ]
  scan_line-Flows k i line c accepted s here at = idle-Flows (nat_eq i k) (held_by k s)
  scan_line-Flows k i line c (noting old) s here at = idle-Flows (nat_eq i k) (held_by k s)
  scan_line-Flows k i line c (handling old) s here at = idle-Flows (nat_eq i k) (held_by k s)
  scan_line-Flows k i line c leaving s here at = idle-Flows (nat_eq i k) (held_by k s)
  scan_line-Flows k i line c gone s here at = idle-Flows (nat_eq i k) (held_by k s)
