-- ===== src/Models/Masters.antt =====
-- internal/models/master.go.
use mt5_bridge.Prelude.{ℕ, String, Bool, Option, is_some}

-- A column that may be NULL (`sql.NullTime`) is an option.
pub record Master : Type 0 where
  pub id : String
  pub account_id : String
  pub password_hash : String
  pub server : String
  pub deleted_at : Option ℕ
  pub created_at : ℕ
  pub updated_at : ℕ

unfoldable pub is_deleted : Master → Bool
is_deleted m = is_some m.deleted_at
