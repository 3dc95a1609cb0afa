-- ===== src/Redis/Subscriptions.antt =====
-- internal/redis/subscription_store.go, and the keys of client.go.
pub mod Synced
use Prim.Native.String
use mt5_bridge.Prelude.{
  ℕ, String, Bool, List, [], ◌∷◌, ◌++◌, Assoc, lookup, insert, none, some, map,
}
use mt5_bridge.Go.Text.{trim_prefix}
use mt5_bridge.Models.{Follower}
use mt5_bridge.Redis.{Redis, Cmd, Queued, continue, pure}

abbrev pub subscribe_key_prefix : String
subscribe_key_prefix = "master:followers:"

unfoldable pub build_subscribe_key : String → String
build_subscribe_key master_id = String.◌++◌ subscribe_key_prefix master_id

-- `m[k] = append(m[k], v)`.
unfoldable pub append_at : String → String → Assoc (List String) → Assoc (List String)
append_at k v m = insert k (elim (lookup k m) [ none ↦ v ∷ [] | some vs ↦ vs ++ v ∷ [] ]) m

unfoldable pub group_from :
    {F : Type 0} → Assoc (List String) → List (Follower F) → Assoc (List String)
unfolding append_at
group_from m [] = m
group_from m (f ∷ fs) = group_from (append_at f.master_id f.account_id m) fs

-- The loop over the map, in the order of the association list: for each master its key is deleted
-- and filled again.
unfoldable pub sync_commands : Assoc (List String) → List Queued
unfolding build_subscribe_key
sync_commands [] = []
sync_commands ((master_id, []) ∷ rest) =
    Queued.del (build_subscribe_key master_id) ∷ sync_commands rest
sync_commands ((master_id, a ∷ accounts) ∷ rest) =
    let key = build_subscribe_key master_id in
    Queued.del key ∷ (Queued.sadd key (a ∷ accounts) ∷ sync_commands rest)

module _ (R : Redis) where
  unfoldable pub add_follower : String → String → Cmd R.State (Unit {0})
  unfolding build_subscribe_key
  add_follower master_id account_id = R.sadd (build_subscribe_key master_id) account_id

  unfoldable pub remove_follower : String → String → Cmd R.State (Unit {0})
  unfolding build_subscribe_key
  remove_follower master_id account_id = R.srem (build_subscribe_key master_id) account_id

  unfoldable pub get_followers : String → Cmd R.State (List String)
  unfolding build_subscribe_key
  get_followers master_id = R.smembers (build_subscribe_key master_id)

  unfoldable pub get_follower_count : String → Cmd R.State ℕ
  unfolding build_subscribe_key
  get_follower_count master_id = R.scard (build_subscribe_key master_id)

  unfoldable pub is_member : String → String → Cmd R.State Bool
  unfolding build_subscribe_key
  is_member master_id account_id = R.sismember (build_subscribe_key master_id) account_id

  unfoldable pub clear_master_followers : String → Cmd R.State (Unit {0})
  unfolding build_subscribe_key
  clear_master_followers master_id = R.del (build_subscribe_key master_id)

  unfoldable pub sync_from_follower_list : Assoc (List String) → Cmd R.State (Unit {0})
  unfolding sync_commands
  sync_from_follower_list master_followers = R.exec (sync_commands master_followers)

  unfoldable pub sync_from_followers : {F : Type 0} → List (Follower F) → Cmd R.State (Unit {0})
  unfolding sync_commands group_from
  sync_from_followers followers = R.exec (sync_commands (group_from [] followers))

  unfoldable pub health_check : Cmd R.State (Unit {0})
  health_check = R.ping

  unfoldable pub get_all_master_keys : Cmd R.State (List String)
  get_all_master_keys s =
      continue (R.keys (String.◌++◌ subscribe_key_prefix "*") s)
        (λ keys. pure (map (λ key. trim_prefix key subscribe_key_prefix) keys))
