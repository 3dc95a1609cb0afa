-- ===== src/Go/Channel/Laws.antt =====
-- What a channel's operations leave of it.
use mt5_bridge.Prelude.{
  ℕ, ◌≡◌, refl, sym, ap, Bool, true, false, none, some, List, [], ◌∷◌, ◌++◌, length, length-append,
  ◌≤◌, ◌<◌, ltb, if◌then◌else◌, arith, some_injective, absurd-none,
}
use mt5_bridge.Go.Channel.{Chan, Send, waits, panics, stored, send, got, receive, close_channel}

module _ {A : Type 0} where
  pub close-closed : (ch : Chan A) → ch.closed ≡ true → close_channel ch ≡ none
  unfolding close_channel
  close-closed ch e = rw (e) refl

  pub close-open :
      (ch ch' : Chan A) → close_channel ch ≡ some ch' → (ch'.closed ≡ true) × (ch'.items ≡ ch.items)
  unfolding close_channel
  close-open ch ch' e = closed ch.closed e
    where
      closed :
          (c : Bool)
          → (if c then none else some (record ch { closed = true })) ≡ some ch'
          → (ch'.closed ≡ true) × (ch'.items ≡ ch.items)
      closed true e = absurd-none e
      closed false e =
          (sym (ap (λ x. x.closed) (some_injective e)), sym (ap (λ x. x.items) (some_injective e)))

  pub send-closed :
      (capacity : ℕ) (x : A) (ch : Chan A) → ch.closed ≡ true → send capacity x ch ≡ panics
  unfolding send
  send-closed capacity x ch e = rw (e) refl

  pub receive-closed :
      (x : A) (ch ch' : Chan A)
      → receive ch ≡ got x ch'
      → (ch'.closed ≡ ch.closed) × (ch.items ≡ x ∷ ch'.items)
  unfolding receive
  receive-closed x ch ch' e = received ch.items ch.closed e
    where
      received :
          (xs : List A) (c : Bool)
          → receive (record { items = xs; closed = c }) ≡ got x ch'
          → (ch'.closed ≡ c) × (xs ≡ x ∷ ch'.items)
      received [] true e = ground arith
      received [] false e = ground arith
      received (y ∷ ys) c e = ground arith

  pub send-stored :
      (capacity : ℕ) (x : A) (ch : Chan A) (ch' : Chan A)
      → send capacity x ch ≡ stored ch'
      → (ch'.items ≡ ch.items ++ x ∷ []) × (length ch'.items ≤ capacity)
  unfolding send
  send-stored capacity x ch ch' e = sent ch.closed (ltb (length ch.items) capacity) refl e
    where
      items_of : Send A → List A
      items_of waits = []
      items_of panics = []
      items_of (stored c) = c.items

      sent :
          (closed room : Bool)
          → ltb (length ch.items) capacity ≡ room
          → (if closed
              then panics
              else if room
              then stored (record ch { items = ch.items ++ x ∷ [] })
              else waits)
            ≡ stored ch'
          → (ch'.items ≡ ch.items ++ x ∷ []) × (length ch'.items ≤ capacity)
      sent true room l e = ground arith
      sent false false l e = ground arith
      sent false true l e =
          let items = sym (ap items_of e) in
          (items, rw (items) (omega (arith, length-append ch.items (x ∷ []), fits)))
        where
          fits : length ch.items < capacity
          fits = ground arith
