-- ===== src/Models.antt =====
-- internal/models: the accounts, the requests and the responses.
pub mod Masters
pub mod Followers
pub mod Responses
pub mod Signals
pub use Masters.{Master}
pub use Followers.{Follower, follower_status_active, follower_status_inactive}
use mt5_bridge.Prelude.{String}
use mt5_bridge.Signal.{Signal}

pub record FollowerOrder (F : Type 0) : Type 0 where
  pub follower_account_id : String
  pub password : String
  pub server : String
  pub lot_multiplier : F
  pub signal : Signal F

pub record LoginRequest : Type 0 where
  pub username : String
  pub password : String

pub record CreateMasterRequest : Type 0 where
  pub account_id : String
  pub password : String
  pub server : String

pub record CreateFollowerRequest (F : Type 0) : Type 0 where
  pub account_id : String
  pub password : String
  pub server : String
  pub lot_multiplier : F

pub record UserInfo : Type 0 where
  pub user_id : String
  pub username : String
  pub role : String
