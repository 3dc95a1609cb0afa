-- ===== src/Cache/Coherence.antt =====
-- What the cache of masters holds against the table of masters.
use mt5_bridge.Prelude.{
  String, ◌≡◌, refl, ◌∙◌, Option, none, some, List, [], ◌∷◌, arith, eq_iff, find, filter, Assoc,
  lookup, insert, lookup-insert,
}
use mt5_bridge.Models.{Master}
use mt5_bridge.Models.Masters.{is_deleted}
use mt5_bridge.Db.Masters.{is_live_account}
use mt5_bridge.Db.Masters.Rows.{HasUniqueKeys, live_id, absent}
use mt5_bridge.Cache.{MasterCache, get, complete, fill, live_rows, load_from_db}

-- Looking up an account in the cache gives the ID of its live row.
abbrev pub Coherent : List Master → MasterCache → Type 0
Coherent masters mc = (account_id : String) → get account_id mc ≡ live_id account_id masters

abbrev or_old : Option String → Option String → Option String
or_old none old = old
or_old (some id) old = some id

or_old-none : (id : Option String) → or_old id none ≡ id
or_old-none none = refl
or_old-none (some id) = refl

lookup-fill :
    (a : String) (ms : List Master) (m : Assoc String)
    → HasUniqueKeys ms
    → lookup a (fill (live_rows ms) m) ≡ or_old (live_id a ms) (lookup a m)
unfolding live_id find is_live_account is_deleted fill live_rows filter
lookup-fill a [] m u = refl
lookup-fill a (x ∷ ms) m u = ground (
  arith,
  lookup-fill a ms m,
  lookup-fill a ms (insert x.account_id x.id m),
  lookup-insert x.account_id a x.id m,
  absent x ms,
  eq_iff x.account_id a,
)

-- A load that reads all rows of a table with unique keys makes the cache give for every account
-- the ID of its live row, whatever it held before.
pub load_from_db-Coherent :
    (masters : List Master) (mc : MasterCache)
    → HasUniqueKeys masters
    → Coherent masters (load_from_db complete masters mc).1
unfolding get load_from_db lookup
load_from_db-Coherent masters mc u a = lookup-fill a masters [] u ∙ or_old-none (live_id a masters)
