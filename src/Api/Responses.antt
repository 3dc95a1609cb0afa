-- ===== src/Api/Responses.antt =====
-- The JSON of the responses of internal/api/handlers.go, with the texts that they carry.
use mt5_bridge.Prelude.{
  ℕ, String, Bool, true, false, Option, none, some, [], ◌∷◌, if◌then◌else◌, ◌==◌,
}
use Prim.Native.String.{◌++◌}
use mt5_bridge.Models.{follower_status_active}
use mt5_bridge.Models.Responses.{
  ErrorResponse, HealthResponse, LoginResponse, CreateMasterResponse, DeleteMasterResponse,
  MasterStats, CreateFollowerResponse, StartStopResponse, DeleteFollowerResponse,
  new_error_response,
}
use mt5_bridge.Api.{
  Body, error_body, login_body, master_created, follower_created, start_stop, master_deleted,
  follower_deleted, master_stats, health, plain, empty_body,
}
use mt5_bridge.Api.Auth.{token_expiry}

pub data Payload (F : Type 0) : Type 0 where
  error : ErrorResponse → Payload F
  logged_in : LoginResponse → Payload F
  created_master : CreateMasterResponse → Payload F
  created_follower : CreateFollowerResponse F → Payload F
  started_or_stopped : StartStopResponse → Payload F
  deleted_master : DeleteMasterResponse → Payload F
  deleted_follower : DeleteFollowerResponse → Payload F
  stats : MasterStats → Payload F
  healthy : HealthResponse → Payload F

abbrev connected_text : Bool → String
connected_text true = "connected"
connected_text false = "disconnected"

abbrev loaded_text : Bool → String
loaded_text true = "loaded"
loaded_text false = "empty"

abbrev copy_message : String → String
copy_message status =
    if status == follower_status_active
    then "Copy trading activated"
    else "Copy trading deactivated"

-- The time stamp of an error, and how a number is printed, are given. A body without JSON has none.
unfoldable pub payload : {F : Type 0} → String → (ℕ → String) → Body F → Option (Payload F)
unfolding new_error_response
payload timestamp decimal (error_body message code) =
    some (error (new_error_response timestamp message code []))
payload timestamp decimal (login_body token user) = some (
    logged_in (record {
      access_token = token;
      token_type = "Bearer";
      expires_in = token_expiry;
      user = user;
    }))
payload timestamp decimal (master_created id account_id server created_at) = some (
    created_master (record {
      master_id = id;
      account_id = account_id;
      server = server;
      created_at = created_at;
    }))
payload timestamp decimal
      (follower_created id master_id account_id server status multiplier created_at) =
    some (
      created_follower (record {
        follower_id = id;
        master_id = master_id;
        account_id = account_id;
        server = server;
        status = status;
        lot_multiplier = multiplier;
        created_at = created_at;
      }))
payload timestamp decimal (start_stop id master_id status) = some (
    started_or_stopped (record {
      follower_id = id;
      master_id = master_id;
      status = status;
      message = copy_message status;
    }))
payload timestamp decimal (master_deleted id affected) = some (
    deleted_master (record {
      master_id = id;
      message = "Master deleted, " ++ decimal affected ++ " followers deactivated";
    }))
payload timestamp decimal (follower_deleted id) =
    some (deleted_follower (record { follower_id = id; message = "Follower deleted" }))
payload timestamp decimal (master_stats id active total) =
    some (stats (record { master_id = id; active_followers = active; total_followers = total }))
payload timestamp decimal (health status database redis cache masters followers) = some (
    healthy (record {
      status = status;
      version = "2.0.0";
      components =
          ("database", connected_text database)
          ∷ ("redis", connected_text redis)
          ∷ ("masterCache", loaded_text cache)
          ∷ [];
      stats = record { active_masters = masters; active_followers = followers; queue_size = 0 };
    }))
payload timestamp decimal (plain text) = none
payload timestamp decimal empty_body = none
