-- ===== src/Models/Responses.antt =====
-- The responses of internal/models/master.go, follower.go and errors.go.
use mt5_bridge.Prelude.{ℕ, String, List}
use mt5_bridge.Models.{UserInfo}

-- No details is a nil map.
pub record ErrorResponse : Type 0 where
  pub error : String
  pub code : String
  pub details : List (String × String)
  pub timestamp : String

pub record HealthStats : Type 0 where
  pub active_masters : ℕ
  pub active_followers : ℕ
  pub queue_size : ℕ

pub record HealthResponse : Type 0 where
  pub status : String
  pub version : String
  pub components : List (String × String)
  pub stats : HealthStats

pub record LoginResponse : Type 0 where
  pub access_token : String
  pub token_type : String
  pub expires_in : ℕ
  pub user : UserInfo

pub record CreateMasterResponse : Type 0 where
  pub master_id : String
  pub account_id : String
  pub server : String
  pub created_at : ℕ

pub record DeleteMasterResponse : Type 0 where
  pub master_id : String
  pub message : String

pub record MasterStats : Type 0 where
  pub master_id : String
  pub active_followers : ℕ
  pub total_followers : ℕ

pub record CreateFollowerResponse (F : Type 0) : Type 0 where
  pub follower_id : String
  pub master_id : String
  pub account_id : String
  pub server : String
  pub status : String
  pub lot_multiplier : F
  pub created_at : ℕ

pub record StartStopResponse : Type 0 where
  pub follower_id : String
  pub master_id : String
  pub status : String
  pub message : String

pub record DeleteFollowerResponse : Type 0 where
  pub follower_id : String
  pub message : String

-- The time of the error is that of the clock.
unfoldable pub new_error_response :
    String → String → String → List (String × String) → ErrorResponse
new_error_response timestamp err code details = record {
  error = err;
  code = code;
  details = details;
  timestamp = timestamp;
}
