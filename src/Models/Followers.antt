-- ===== src/Models/Followers.antt =====
-- internal/models/follower.go.
use mt5_bridge.Prelude.{ℕ, String, Bool, Option, ◌==◌, is_some}

abbrev pub follower_status_active : String
follower_status_active = "active"

abbrev pub follower_status_inactive : String
follower_status_inactive = "inactive"

pub record Follower (F : Type 0) : Type 0 where
  pub id : String
  pub master_id : String
  pub account_id : String
  pub password_hash : String
  pub server : String
  pub status : String
  pub lot_multiplier : F
  pub deleted_at : Option ℕ
  pub created_at : ℕ
  pub updated_at : ℕ

module _ {F : Type 0} where
  unfoldable pub is_active : Follower F → Bool
  is_active f = f.status == follower_status_active

  unfoldable pub is_deleted : Follower F → Bool
  is_deleted f = is_some f.deleted_at
