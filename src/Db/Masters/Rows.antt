-- ===== src/Db/Masters/Rows.antt =====
-- The rows of the table of masters: their keys, and what inserting and marking do to a lookup.
use mt5_bridge.Prelude.{
  ℕ, String, ◌≡◌, refl, false, Option, none, some, List, [], ◌∷◌, ◌++◌, arith, eq_iff, ◌==◌,
  if◌then◌else◌, find, any, update_where, find-append, any-append, Bool-cases, inl, inr,
}
use mt5_bridge.Models.{Master}
use mt5_bridge.Db.Masters.{is_live_id, is_live_account, collides, mark_deleted}

-- No two rows share an ID or an account, deleted rows included.
abbrev pub HasUniqueKeys : List Master → Type 0
HasUniqueKeys [] = Unit
HasUniqueKeys (m ∷ ms) = (any (collides m) ms ≡ false) × HasUniqueKeys ms

-- The master of an account, as a signal is matched: the ID of its live row.
abbrev id_of : Option Master → Option String
id_of none = none
id_of (some m) = some m.id

unfoldable pub live_id : String → List Master → Option String
unfolding is_live_account
live_id account_id masters = id_of (find (is_live_account account_id) masters)

collides_symm : (x y : Master) → collides y x ≡ false → collides x y ≡ false
unfolding collides
collides_symm x y h = ground (
  arith,
  eq_iff x.id y.id,
  eq_iff y.id x.id,
  eq_iff x.account_id y.account_id,
  eq_iff y.account_id x.account_id,
)

pub append-HasUniqueKeys :
    (m : Master) (ms : List Master)
    → any (collides m) ms ≡ false
    → HasUniqueKeys ms
    → HasUniqueKeys (ms ++ m ∷ [])
unfolding any
append-HasUniqueKeys m [] h u = (refl, tt)
append-HasUniqueKeys m (x ∷ ms) h u =
    ground (arith, append-HasUniqueKeys m ms, any-append (collides x) ms m, collides_symm x m)

any-mark :
    (now : ℕ) (id : String) (x : Master) (ms : List Master)
    → any (collides x) (update_where (is_live_id id) (mark_deleted now) ms) ≡ any (collides x) ms
unfolding any update_where mark_deleted collides
any-mark now id x [] = refl
any-mark now id x (m ∷ ms) = ground (arith, any-mark now id x ms)

pub mark-HasUniqueKeys :
    (now : ℕ) (id : String) (ms : List Master)
    → HasUniqueKeys ms
    → HasUniqueKeys (update_where (is_live_id id) (mark_deleted now) ms)
unfolding update_where mark_deleted collides
mark-HasUniqueKeys now id [] u = tt
mark-HasUniqueKeys now id (m ∷ ms) u =
    ground (arith, mark-HasUniqueKeys now id ms, any-mark now id m ms)

-- A row that collides with none of the rows has no account of theirs.
pub absent :
    (m : Master) (ms : List Master)
    → any (collides m) ms ≡ false
    → find (is_live_account m.account_id) ms ≡ none
unfolding any find collides is_live_account
absent m [] h = refl
absent m (x ∷ ms) h = ground (arith, absent m ms)

unmarked :
    (now : ℕ) (m : Master) (ms : List Master)
    → any (collides m) ms ≡ false
    → update_where (is_live_id m.id) (mark_deleted now) ms ≡ ms
unfolding any update_where collides is_live_id
unmarked now m [] h = refl
unmarked now m (x ∷ ms) h = ground (arith, unmarked now m ms)

apart :
    (x : Master) (id : String) (ms : List Master) (m : Master)
    → any (collides x) ms ≡ false
    → find (is_live_id id) ms ≡ some m
    → collides x m ≡ false
unfolding any find
apart x id [] m h e = cc
apart x id (y ∷ ms) m h e = ground (arith, apart x id ms m)

-- A row that is appended is the live row of its account.
pub live_id-append :
    (a : String) (m : Master) (ms : List Master)
    → any (collides m) ms ≡ false
    → m.deleted_at ≡ none
    → live_id a (ms ++ m ∷ []) ≡ (if m.account_id == a then some m.id else live_id a ms)
unfolding live_id
live_id-append a m ms h live = elim (Bool-cases (m.account_id == a)) [
  | inl e ↦
      ground (arith, eq_iff m.account_id a, find-append (is_live_account a) ms m, absent m ms h)
  | inr e ↦ ground (arith, find-append (is_live_account a) ms m)
]

-- Marking the row with an ID as deleted hides its account, and no other.
pub live_id-mark :
    (now : ℕ) (a id : String) (ms : List Master) (m : Master)
    → HasUniqueKeys ms
    → find (is_live_id id) ms ≡ some m
    → live_id a (update_where (is_live_id id) (mark_deleted now) ms)
      ≡ (if m.account_id == a then none else live_id a ms)
unfolding live_id find update_where mark_deleted is_live_id is_live_account collides
live_id-mark now a id [] m u e = cc
live_id-mark now a id (x ∷ ms) m u e = elim (Bool-cases (is_live_id id x)) [
  | inl hit ↦ ground (arith, unmarked now x ms, absent x ms, eq_iff x.id id, eq_iff x.account_id a)
  | inr miss ↦ ground (
    arith,
    live_id-mark now a id ms m,
    apart x id ms m,
    eq_iff x.account_id a,
    eq_iff m.account_id a,
    eq_iff m.account_id x.account_id,
    eq_iff m.id x.id,
  )
]
