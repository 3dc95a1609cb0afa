-- ===== src/Cache.antt =====
-- internal/cache/master_cache.go. Each method holds the lock throughout, so it is one step.
pub mod Coherence
pub mod Order
use mt5_bridge.Prelude.{
  ℕ, zero, suc, String, Bool, true, false, not, List, [], ◌∷◌, Option, none, some, Assoc, lookup,
  insert, delete, length, filter,
}
use mt5_bridge.Models.{Master}
use mt5_bridge.Models.Masters.{is_deleted}

-- From account IDs to master IDs.
pub record MasterCache : Type 0 where
  pub cache : Assoc String

unfoldable pub get : String → MasterCache → Option String
get account_id mc = lookup account_id mc.cache

unfoldable pub set : String → String → MasterCache → MasterCache
set account_id master_id mc = record mc { cache = insert account_id master_id mc.cache }

unfoldable pub delete_account : String → MasterCache → MasterCache
delete_account account_id mc = record mc { cache = delete account_id mc.cache }

unfoldable pub clear : MasterCache → MasterCache
clear mc = record { cache = [] }

unfoldable pub size : MasterCache → ℕ
size mc = length mc.cache

-- A copy: a Go map is shared by reference, an association list is not.
unfoldable pub get_all : MasterCache → Assoc String
get_all mc = mc.cache

-- How the query of `LoadFromDB` goes: it is refused, or a row does not scan (or the iteration
-- fails) after so many rows, or all rows are read.
pub data Loading : Type 0 where
  refused complete : Loading
  stops_after : ℕ → Loading

unfoldable pub fill : List Master → Assoc String → Assoc String
fill [] m = m
fill (row ∷ rows) m = fill rows (insert row.account_id row.id m)

abbrev pub take_rows : ℕ → List Master → List Master
take_rows zero rows = []
take_rows (suc n) [] = []
take_rows (suc n) (row ∷ rows) = row ∷ take_rows n rows

-- `SELECT id, account_id FROM masters WHERE deleted_at IS NULL`.
unfoldable pub live_rows : List Master → List Master
unfolding is_deleted
live_rows masters = filter (λ m. not (is_deleted m)) masters

-- `false` is an error. The old content is gone once the query has been answered.
unfoldable pub load_from_db : Loading → List Master → MasterCache → Bool × MasterCache
unfolding fill live_rows
load_from_db refused masters mc = (false, mc)
load_from_db complete masters mc = (true, record { cache = fill (live_rows masters) [] })
load_from_db (stops_after n) masters mc =
    (false, record { cache = fill (take_rows n (live_rows masters)) [] })
