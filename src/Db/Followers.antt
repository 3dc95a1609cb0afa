-- ===== src/Db/Followers.antt =====
-- internal/repository/follower_repo.go.
pub mod Lifecycle
use Prim.Native.String.{count as char_count}
use mt5_bridge.Prelude.{
  ℕ, zero, suc, String, Bool, not, ◌&&◌, ◌||◌, Option, none, some, List, [], ◌∷◌, ◌++◌, leb,
  if◌then◌else◌, ◌==◌, find, any, count, filter, update_where,
}
use mt5_bridge.Go.Float.{Float64}
use mt5_bridge.Models.{Follower, follower_status_active, follower_status_inactive}
use mt5_bridge.Models.Followers.{is_deleted, is_active}
use mt5_bridge.Db.{
  Db, Reply, answered, refused, uncounted, lost, not_found, duplicate_follower, failed, Result, ok,
  err, varchar,
}

module _ {F : Type 0} where
  unfoldable pub is_live_id : String → Follower F → Bool
  unfolding is_deleted
  is_live_id id f = f.id == id && not (is_deleted f)

  unfoldable pub is_live_pair : String → String → Follower F → Bool
  unfolding is_deleted
  is_live_pair master_id account_id f =
      f.master_id == master_id && f.account_id == account_id && not (is_deleted f)

  unfoldable pub is_live_account : String → Follower F → Bool
  unfolding is_deleted
  is_live_account account_id f = f.account_id == account_id && not (is_deleted f)

  unfoldable pub is_live_active : Follower F → Bool
  unfolding is_deleted is_active
  is_live_active f = is_active f && not (is_deleted f)

  -- The PRIMARY KEY, and UNIQUE (master_id, account_id).
  unfoldable pub collides : Follower F → Follower F → Bool
  collides f row =
      row.id == f.id || (row.master_id == f.master_id && row.account_id == f.account_id)

  one_row : Option (Follower F) → Result (Follower F)
  one_row none = err not_found
  one_row (some f) = ok f

  unfoldable pub get_by_id : Reply → String → Db F → Result (Follower F)
  unfolding one_row is_live_id
  get_by_id refused id db = err failed
  get_by_id _ id db = one_row (find (is_live_id id) db.followers)

  unfoldable pub get_by_master_and_account : Reply → String → String → Db F → Result (Follower F)
  unfolding one_row is_live_pair
  get_by_master_and_account refused master_id account_id db = err failed
  get_by_master_and_account _ master_id account_id db =
      one_row (find (is_live_pair master_id account_id) db.followers)

  unfoldable pub get_by_account_id : Reply → String → Db F → Result (Follower F)
  unfolding one_row is_live_account
  get_by_account_id refused account_id db = err failed
  get_by_account_id _ account_id db = one_row (find (is_live_account account_id) db.followers)

  -- The result of an UPDATE whose affected rows the program counts.
  unfoldable pub counted : Reply → ℕ → Db F → Db F → Result (Unit {0}) × Db F
  counted refused rows old new = (err failed, old)
  counted uncounted rows old new = (err failed, new)
  counted lost rows old new = (err failed, new)
  counted answered zero old new = (err not_found, new)
  counted answered (suc rows) old new = (ok tt, new)

  unfoldable pub set_status : ℕ → String → Follower F → Follower F
  set_status now status f = record f { status = status; updated_at = now }

  -- The column's CHECK refuses any other status; the callers pass these two.
  unfoldable pub update_status : Reply → ℕ → String → String → Db F → Result (Unit {0}) × Db F
  unfolding counted set_status is_live_id
  update_status reply now id status db =
      counted
        (if status == follower_status_active || status == follower_status_inactive
          then reply
          else refused)
        (count (is_live_id id) db.followers) db
        (record db {
          followers = update_where (is_live_id id) (set_status now status) db.followers;
        })

  unfoldable pub mark_deleted : ℕ → Follower F → Follower F
  mark_deleted now f = record f {
    status = follower_status_inactive;
    deleted_at = some now;
    updated_at = now;
  }

  unfoldable pub soft_delete : Reply → ℕ → String → Db F → Result (Unit {0}) × Db F
  unfolding counted mark_deleted is_live_id
  soft_delete reply now id db =
      counted reply (count (is_live_id id) db.followers) db
        (record db { followers = update_where (is_live_id id) (mark_deleted now) db.followers })

  unfoldable pub rows_of : Reply → (Follower F → Bool) → Db F → Result (List (Follower F))
  rows_of refused p db = err failed
  rows_of _ p db = ok (filter p db.followers)

  unfoldable pub get_active_followers_by_master : Reply → String → Db F → Result (List (Follower F))
  unfolding rows_of is_live_active
  get_active_followers_by_master reply master_id db =
      rows_of reply (λ f. f.master_id == master_id && is_live_active f) db

  unfoldable pub get_all_followers_by_master : Reply → String → Db F → Result (List (Follower F))
  unfolding rows_of
  get_all_followers_by_master reply master_id db =
      rows_of reply (λ f. f.master_id == master_id && not (is_deleted f)) db

  unfoldable pub by_accounts : Reply → List String → Db F → Result (List (Follower F))
  unfolding rows_of is_live_active
  by_accounts reply [] db = ok []
  by_accounts reply (a ∷ as') db =
      rows_of reply (λ f. any (λ x. f.account_id == x) (a ∷ as') && is_live_active f) db

  unfoldable pub get_by_account_ids : Reply → List String → Db F → Result (List (Follower F))
  unfolding by_accounts
  get_by_account_ids reply account_ids db = by_accounts reply account_ids db

  counting : Reply → (Follower F → Bool) → Db F → Result ℕ
  counting refused p db = err failed
  counting _ p db = ok (count p db.followers)

  unfoldable pub count_active : Reply → Db F → Result ℕ
  unfolding counting is_live_active
  count_active reply db = counting reply is_live_active db

  unfoldable pub count_active_by_master : Reply → String → Db F → Result ℕ
  unfolding counting is_live_active
  count_active_by_master reply master_id db =
      counting reply (λ f. f.master_id == master_id && is_live_active f) db

  unfoldable pub count_total_by_master : Reply → String → Db F → Result ℕ
  unfolding counting is_deleted
  count_total_by_master reply master_id db =
      counting reply (λ f. f.master_id == master_id && not (is_deleted f)) db

  unfoldable pub get_all : Reply → Db F → Result (List (Follower F))
  unfolding rows_of is_deleted
  get_all reply db = rows_of reply (λ f. not (is_deleted f)) db

module _ {F : Type 0} ⦃fl : Float64 F⦄ where
  open fl use {hundredths, le, float_eq, decimal_6_2}

  -- The column types and CHECK constraints, on the row as the columns hold it.
  unfoldable pub fits : Follower F → Bool
  fits f =
      varchar 255 f.id
      && varchar 50 f.account_id
      && varchar 255 f.password_hash
      && varchar 100 f.server
      && leb 4 (char_count f.account_id)
      && (f.status == follower_status_active || f.status == follower_status_inactive)
      && le (hundredths 1) f.lot_multiplier
      && le f.lot_multiplier (hundredths 10_000)

  -- What `Create` sets in the follower before it inserts it.
  unfoldable pub with_defaults : ℕ → Follower F → Follower F
  with_defaults now f = record f {
    status = if f.status == "" then follower_status_inactive else f.status;
    lot_multiplier =
        if float_eq f.lot_multiplier (hundredths 0) then hundredths 100 else f.lot_multiplier;
    created_at = now;
    updated_at = now;
  }

  unfoldable pub row_of : Follower F → Follower F
  row_of f = record f { lot_multiplier = decimal_6_2 f.lot_multiplier; deleted_at = none }

  unfoldable pub insert_row : Follower F → Db F → Result (Follower F) × Db F
  insert_row f db =
      if not (fits (row_of f))
      then (err failed, db)
      else if any (collides f) db.followers
      then (err duplicate_follower, db)
      else if any (λ m. m.id == f.master_id) db.masters
      then (ok f, record db { followers = db.followers ++ row_of f ∷ [] })
      else (err failed, db)

  unfoldable pub create : Reply → ℕ → Follower F → Db F → Result (Follower F) × Db F
  unfolding insert_row with_defaults row_of
  create refused now f db = (err failed, db)
  create lost now f db = (err failed, (insert_row (with_defaults now f) db).1)
  create _ now f db = insert_row (with_defaults now f) db
