-- ===== src/Db/Masters.antt =====
-- internal/repository/master_repo.go.
pub mod Rows
use Prim.Native.String.{count as char_count}
use mt5_bridge.Prelude.{
  ℕ, String, Bool, true, false, not, ◌&&◌, ◌||◌, Option, none, some, List, [], ◌∷◌, ◌++◌, leb,
  if◌then◌else◌, ◌==◌, find, any, count, filter, update_where, length,
}
use mt5_bridge.Models.{Master, Follower, follower_status_inactive}
use mt5_bridge.Models.Masters.{is_deleted}
use mt5_bridge.Models.Followers
use mt5_bridge.Db.{
  Db, Reply, answered, refused, uncounted, lost, not_found, duplicate_account_id, failed, Result,
  ok, err, varchar,
}

-- `WHERE id = $1 AND deleted_at IS NULL`.
unfoldable pub is_live_id : String → Master → Bool
unfolding is_deleted
is_live_id id m = m.id == id && not (is_deleted m)

-- `WHERE account_id = $1 AND deleted_at IS NULL`.
unfoldable pub is_live_account : String → Master → Bool
unfolding is_deleted
is_live_account account_id m = m.account_id == account_id && not (is_deleted m)

-- The PRIMARY KEY and the UNIQUE constraint, which rows that are marked as deleted keep.
unfoldable pub collides : Master → Master → Bool
collides m row = row.id == m.id || row.account_id == m.account_id

-- The column types and CHECK constraints.
unfoldable pub fits : Master → Bool
fits m =
    varchar 255 m.id
    && varchar 50 m.account_id
    && varchar 255 m.password_hash
    && varchar 100 m.server
    && leb 4 (char_count m.account_id)

one_row : Option Master → Result Master
one_row none = err not_found
one_row (some m) = ok m

unfoldable pub mark_deleted : ℕ → Master → Master
mark_deleted now m = record m { deleted_at = some now; updated_at = now }

-- `ORDER BY created_at DESC`; equal times stay in the order of the table.
unfoldable pub insert_newest_first : Master → List Master → List Master
insert_newest_first m [] = m ∷ []
insert_newest_first m (row ∷ rows) =
    let later = insert_newest_first m rows in
    if leb row.created_at m.created_at then m ∷ row ∷ rows else row ∷ later

unfoldable pub newest_first : List Master → List Master
unfolding insert_newest_first
newest_first [] = []
newest_first (m ∷ rows) = insert_newest_first m (newest_first rows)

module _ {F : Type 0} where
  unfoldable pub insert_row : Master → Db F → Result Master × Db F
  insert_row m db =
      if not (fits m)
      then (err failed, db)
      else if any (collides m) db.masters
      then (err duplicate_account_id, db)
      else (ok m, record db { masters = db.masters ++ m ∷ [] })

  -- The master is passed by reference, so its new timestamps come back with it.
  unfoldable pub create : Reply → ℕ → Master → Db F → Result Master × Db F
  unfolding insert_row
  create refused now m db = (err failed, db)
  create lost now m db = (
    err failed,
    (insert_row (record m { deleted_at = none; created_at = now; updated_at = now }) db).1,
  )
  create _ now m db =
      insert_row (record m { deleted_at = none; created_at = now; updated_at = now }) db

  unfoldable pub get_by_id : Reply → String → Db F → Result Master
  unfolding one_row is_live_id
  get_by_id refused id db = err failed
  get_by_id _ id db = one_row (find (is_live_id id) db.masters)

  unfoldable pub get_by_account_id : Reply → String → Db F → Result Master
  unfolding one_row is_live_account
  get_by_account_id refused account_id db = err failed
  get_by_account_id _ account_id db = one_row (find (is_live_account account_id) db.masters)

  -- `UPDATE followers … WHERE master_id = $2 AND deleted_at IS NULL`.
  unfoldable pub is_live_follower_of : String → Follower F → Bool
  unfolding Followers.is_deleted
  is_live_follower_of id f = f.master_id == id && not (Followers.is_deleted f)

  unfoldable pub deactivate : ℕ → Follower F → Follower F
  deactivate now f = record f { status = follower_status_inactive; updated_at = now }

  unfoldable pub delete_rows : ℕ → String → Db F → Db F
  unfolding is_live_follower_of deactivate mark_deleted is_live_id
  delete_rows now id db = record {
    masters = update_where (is_live_id id) (mark_deleted now) db.masters;
    followers = update_where (is_live_follower_of id) (deactivate now) db.followers;
  }

  -- One transaction: a statement that is refused, the commit included, rolls it back.
  unfoldable pub soft_delete : Reply → ℕ → String → Db F → Result ℕ × Db F
  unfolding delete_rows
  soft_delete refused now id db = (err failed, db)
  soft_delete answered now id db =
      (ok (count (is_live_follower_of id) db.followers), delete_rows now id db)
  soft_delete uncounted now id db = (ok 0, delete_rows now id db)
  soft_delete lost now id db = (err failed, delete_rows now id db)

  unfoldable pub exists : Reply → String → Db F → Result Bool
  unfolding is_live_id
  exists refused id db = err failed
  exists _ id db = ok (any (is_live_id id) db.masters)

  unfoldable pub count_active : Reply → Db F → Result ℕ
  count_active refused db = err failed
  count_active _ db = ok (count (λ m. not (is_deleted m)) db.masters)

  unfoldable pub list_all : Reply → Db F → Result (List Master)
  unfolding newest_first
  list_all refused db = err failed
  list_all _ db = ok (newest_first (filter (λ m. not (is_deleted m)) db.masters))
