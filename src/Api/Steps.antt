-- ===== src/Api/Steps.antt =====
-- A handler is a chain of checks: what holds of the server holds after a check that stops.
use mt5_bridge.Prelude.{ℕ, ◌≢◌, ◌≡◌, refl}
use mt5_bridge.Api.{Response, Step, stop, next, ◌>>=◌, finish}

module _ {F S A : Type 0} (P : S → Type 0) (s : S) where
  -- A step that stops leaves the state, and the rest of the handler has its result.
  pub finish-bind :
      (m : Step F A) (rest : A → Step F (Response F × S))
      → P s
      → ((a : A) → m ≡ next a → P (finish s (rest a)).1)
      → P (finish s (m >>= rest)).1
  unfolding finish ◌>>=◌
  finish-bind (stop r) rest p k = p
  finish-bind (next a) rest p k = k a refl

module _ {F S : Type 0} (P : S → Type 0) (s : S) where
  pub finish-next : (out : Response F × S) → P out.1 → P (finish s (next out)).1
  unfolding finish
  finish-next out p = p

module _ {F A : Type 0} where
  -- A step does not stop with the status.
  abbrev pub NeverStops : ℕ → Step F A → Type 0
  NeverStops status (stop r) = r.status ≢ status
  NeverStops status (next a) = Unit

module _ {F S A : Type 0} where
  -- When a handler answers with a status that a step never stops with, the step has gone on.
  pub goes_on :
      (status : ℕ) (s : S) (m : Step F A) (rest : A → Step F (Response F × S))
      → NeverStops status m
      → (finish s (m >>= rest)).0.status ≡ status
      → (a : A) × ((m ≡ next a) × ((finish s (rest a)).0.status ≡ status))
  unfolding finish ◌>>=◌
  goes_on status s (stop r) rest never h = absurd (never h)
  goes_on status s (next a) rest never h = (a, (refl, h))

  -- The handler is then what comes after the step.
  pub finish-gone_on :
      (s : S) (m : Step F A) (rest : A → Step F (Response F × S)) (a : A)
      → m ≡ next a
      → finish s (m >>= rest) ≡ finish s (rest a)
  unfolding finish ◌>>=◌
  finish-gone_on s m rest a e = rw (e) refl
