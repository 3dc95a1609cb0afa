-- ===== src/Redis.antt =====
-- The Redis server, as internal/redis uses it through github.com/go-redis/redis. The server and the
-- driver are a parameter: a state, the commands, and what the server holds.
pub mod Subscriptions
pub mod FastLookup
pub mod SignalHub
pub mod Client
use mt5_bridge.Prelude.{
  ℕ, String, ◌≡◌, refl, arith, Bool, true, false, Option, none, some, List, [], ◌∷◌, any,
  if◌then◌else◌, ◌==◌, ◌&&◌,
}

-- A command gives its result, or `none` for an error, and the state after it.
abbrev pub Cmd : Type 0 → Type 0 → Type 0
Cmd S A = S → Option A × S

module _ {S A B : Type 0} where
  abbrev pub continue : Option A × S → (A → Cmd S B) → Option B × S
  continue (none, s) f = (none, s)
  continue (some a, s) f = f a s

  infixl 5 ◌>>=◌ ◌>>◌
  abbrev pub ◌>>=◌ : Cmd S A → (A → Cmd S B) → Cmd S B
  ◌>>=◌ m f s = continue (m s) f

  abbrev pub ◌>>◌ : Cmd S A → Cmd S B → Cmd S B
  m >> k = m >>= λ _. k

abbrev pub pure : {S A : Type 0} → A → Cmd S A
pure a s = (some a, s)

-- When a sequence succeeds, its first command has succeeded, and the rest goes on from there.
pub continue-succeeds :
    {S A B : Type 0} (r : Option A × S) (f : A → Cmd S B) (b : B)
    → (continue r f).0 ≡ some b
    → (a : A) × ((r.0 ≡ some a) × (continue r f ≡ f a r.1))
continue-succeeds (none, s) f b h = ground arith
continue-succeeds (some a, s) f b h = (a, (refl, refl))

-- A command whose error is ignored.
abbrev pub attempt : {S A : Type 0} → Cmd S A → Cmd S (Unit {0})
attempt m s = (some tt, (m s).1)

-- The commands that a pipeline holds.
pub data Queued : Type 0 where
  del : String → Queued
  set : String → String → Queued
  sadd : String → List String → Queued

-- `GET` of a missing key is an error, as the driver has it. `set_has` and `text_at` say what the
-- server holds: the members of the set and the text at a key. `keys` takes a pattern.
pub record Redis : Type 1 where
  pub State : Type 0
  pub set_has : State → String → String → Bool
  pub text_at : State → String → Option String
  pub sadd : String → String → Cmd State (Unit {0})
  pub srem : String → String → Cmd State (Unit {0})
  pub del : String → Cmd State (Unit {0})
  pub set : String → String → Cmd State (Unit {0})
  pub get : String → Cmd State String
  pub smembers : String → Cmd State (List String)
  pub scard : String → Cmd State ℕ
  pub sismember : String → String → Cmd State Bool
  pub publish : String → String → Cmd State (Unit {0})
  pub keys : String → Cmd State (List String)
  pub exec : List Queued → Cmd State (Unit {0})
  pub ping : Cmd State (Unit {0})

-- What the documentation of Redis says of a command that succeeds.
pub record IsDocumented (R : Redis) : Type 0 where
  pub sadd_adds :
      (k m : String) (s : R.State)
      → (R.sadd k m s).0 ≡ some tt
      → (j n : String)
      → R.set_has (R.sadd k m s).1 j n ≡ (if k == j && m == n then true else R.set_has s j n)
  pub srem_removes :
      (k m : String) (s : R.State)
      → (R.srem k m s).0 ≡ some tt
      → (j n : String)
      → R.set_has (R.srem k m s).1 j n ≡ (if k == j && m == n then false else R.set_has s j n)
  pub del_removes :
      (k : String) (s : R.State)
      → (R.del k s).0 ≡ some tt
      → (j n : String) → R.set_has (R.del k s).1 j n ≡ (if k == j then false else R.set_has s j n)
  pub smembers_lists :
      (k : String) (s : R.State) (members : List String)
      → (R.smembers k s).0 ≡ some members
      → (n : String) → any (λ m. m == n) members ≡ R.set_has s k n

-- What a command of a pipeline makes of the sets. A text that is set takes a set's place.
unfoldable pub applied : Queued → (String → String → Bool) → String → String → Bool
applied (del k) has j n = if k == j then false else has j n
applied (set k v) has j n = if k == j then false else has j n
applied (sadd k ms) has j n = if k == j && any (λ m. m == n) ms then true else has j n

unfoldable pub all_applied : List Queued → (String → String → Bool) → String → String → Bool
unfolding applied
all_applied [] has = has
all_applied (c ∷ cs) has = all_applied cs (applied c has)

-- A pipeline that succeeds has carried out its commands one after the other.
pub record IsPipelined (R : Redis) : Type 0 where
  pub exec_applies :
      (cs : List Queued) (s : R.State)
      → (R.exec cs s).0 ≡ some tt
      → (j n : String) → R.set_has (R.exec cs s).1 j n ≡ all_applied cs (R.set_has s) j n
