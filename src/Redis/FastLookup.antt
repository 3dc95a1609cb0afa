-- ===== src/Redis/FastLookup.antt =====
-- internal/redis/fast_lookup.go.
pub mod Synced
pub mod Buckets
use Prim.Native.String
use Prim.Native.Char.{code}
use mt5_bridge.Go.Int.{ℤ, pos, negsuc}
use mt5_bridge.Prelude.{
  ℕ, ◌+◌, ◌-◌, ◌*◌, ◌%◌, ◌^◌, ◌==◌, ltb, nat_eq, String, List, [], ◌∷◌, ◌++◌, Option, none, some,
  if◌then◌else◌,
}
use mt5_bridge.Go.Float.{Float64}
use mt5_bridge.Models.{Master, Follower}
use mt5_bridge.Models.Masters
use mt5_bridge.Models.Followers
use mt5_bridge.Redis.{Redis, Cmd, ◌>>=◌, ◌>>◌, attempt, Queued}

pub record MasterFollowerInfo (F : Type 0) : Type 0 where
  pub master_id : String
  pub account_id : String
  pub server : String
  pub lot_multiplier : F
  pub status : String

-- `json.Marshal` and `json.Unmarshal` of a `MasterFollowerInfo`.
pub record InfoJson (F : Type 0) : Type 0 where
  pub marshal : MasterFollowerInfo F → Option String
  pub unmarshal : String → Option (MasterFollowerInfo F)

infixr 65 ◌<>◌
abbrev ◌<>◌ : String → String → String
a <> b = String.◌++◌ a b

abbrev pub active_masters_key : String
active_masters_key = "masters:active"

unfoldable pub master_key : String → String
master_key id = "master:" <> id

unfoldable pub follower_key : String → String
follower_key id = "follower:" <> id

unfoldable pub master_followers_key : String → String
master_followers_key id = "master:" <> id <> ":followers"

unfoldable pub follower_master_key : String → String
follower_master_key id = "follower:" <> id <> ":master"

-- An option as a command: `none` is an error, and the server is not called.
abbrev pub or_error : {S A : Type 0} → Option A → Cmd S A
or_error o s = (o, s)

unfoldable pub info_of_follower : {F : Type 0} → String → Follower F → MasterFollowerInfo F
info_of_follower master_id f = record {
  master_id = master_id;
  account_id = f.account_id;
  server = f.server;
  lot_multiplier = f.lot_multiplier;
  status = f.status;
}

unfoldable pub info_of_master : {F : Type 0} ⦃fl : Float64 F⦄ → Master → MasterFollowerInfo F
info_of_master ⦃fl⦄ m = record {
  master_id = m.id;
  account_id = m.account_id;
  server = m.server;
  lot_multiplier = fl.hundredths 0;
  status = "active";
}

-- `int` has 64 bits: the hash wraps around.
unfoldable pub hash_from : ℕ → String → ℕ
hash_from h String.[] = h
hash_from h (String.◌∷◌ c s) = hash_from ((31 * h + code c) % 2 ^ 64) s

-- Go's `%` of a signed number, whose 64 bits are `h`: the remainder has the number's sign.
unfoldable pub signed_rem_16 : ℕ → ℤ
signed_rem_16 h =
    let r = (2 ^ 64 - h) % 16 in
    if ltb h (2 ^ 63) then pos (h % 16) else if nat_eq r 0 then pos 0 else negsuc (r - 1)

unfoldable pub get_bucket : String → ℤ
unfolding hash_from signed_rem_16
get_bucket key = signed_rem_16 (hash_from 0 key)

unfoldable pub master_id_from_list : List Master → String → String
master_id_from_list [] id = id
master_id_from_list (m ∷ ms) id =
    let later = master_id_from_list ms id in if m.id == id then m.id else later

unfoldable pub master_id_from_followers : {F : Type 0} → List (Follower F) → String → String
master_id_from_followers followers master_id = master_id

module _ (R : Redis) where
  -- The result of PUBLISH is ignored. `none` is Go's nil slice.
  unfoldable pub publish_event : String → String → Option String → Cmd R.State (Unit {0})
  publish_event event entity_id none =
      attempt (R.publish ("event:" <> event <> ":" <> entity_id) entity_id)
  publish_event event entity_id (some payload) =
      attempt (R.publish ("event:" <> event <> ":" <> entity_id) payload)

  unfoldable pub get_master_for_follower : String → Cmd R.State String
  unfolding follower_master_key
  get_master_for_follower follower_id = R.get (follower_master_key follower_id)

  unfoldable pub get_followers_for_master : String → Cmd R.State (List String)
  unfolding master_followers_key
  get_followers_for_master master_id = R.smembers (master_followers_key master_id)

  unfoldable pub get_active_masters : Cmd R.State (List String)
  get_active_masters = R.smembers active_masters_key

  unfoldable pub unregister_follower : String → Cmd R.State (Unit {0})
  unfolding get_master_for_follower master_followers_key follower_master_key follower_key
      publish_event
  unregister_follower follower_id = do
    master_id ← get_master_for_follower follower_id
    R.srem (master_followers_key master_id) follower_id
    R.del (follower_master_key follower_id)
    R.del (follower_key follower_id)
    publish_event "follower:unregistered" follower_id none

  module _ {F : Type 0} (json : InfoJson F) where
    unfoldable pub register_follower : String → Follower F → Cmd R.State (Unit {0})
    unfolding follower_key master_followers_key follower_master_key publish_event info_of_follower
    register_follower master_id follower = do
      payload ← or_error (json.marshal (info_of_follower master_id follower))
      R.set (follower_key follower.id) payload
      R.sadd (master_followers_key master_id) follower.id
      R.set (follower_master_key follower.id) master_id
      publish_event "follower:registered" follower.id (some payload)

    unfoldable pub get_follower_info : String → Cmd R.State (MasterFollowerInfo F)
    unfolding follower_key
    get_follower_info follower_id = do
      payload ← R.get (follower_key follower_id)
      or_error (json.unmarshal payload)

    unfoldable pub get_master_info : String → Cmd R.State (MasterFollowerInfo F)
    unfolding master_key
    get_master_info master_id = do
      payload ← R.get (master_key master_id)
      or_error (json.unmarshal payload)

    unfoldable pub update_follower_status : String → String → Cmd R.State (Unit {0})
    unfolding get_follower_info follower_key
    update_follower_status follower_id status = do
      info ← get_follower_info follower_id
      payload ← or_error (json.marshal (record info { status = status }))
      R.set (follower_key follower_id) payload

    module _ ⦃fl : Float64 F⦄ where
      unfoldable pub register_master : Master → Cmd R.State (Unit {0})
      unfolding master_key publish_event info_of_master
      register_master master = do
        payload ← or_error (json.marshal (info_of_master master))
        R.set (master_key master.id) payload
        R.sadd active_masters_key master.id
        publish_event "master:registered" master.id (some payload)

      -- The error of `json.Marshal` is ignored here, which leaves an empty payload.
      abbrev pub marshalled : MasterFollowerInfo F → String
      marshalled info = elim (json.marshal info) [ none ↦ "" | some payload ↦ payload ]

      unfoldable pub master_commands : List Master → List Queued
      unfolding master_key info_of_master Masters.is_deleted
      master_commands [] = []
      master_commands (m ∷ ms) =
          let rest = master_commands ms in
          if Masters.is_deleted m
          then rest
          else Queued.set (master_key m.id) (marshalled (info_of_master m))
            ∷ (Queued.sadd active_masters_key (m.id ∷ []) ∷ rest)

      unfoldable pub follower_commands : List (Follower F) → List Queued
      unfolding follower_key master_followers_key follower_master_key info_of_follower
          Followers.is_deleted
      follower_commands [] = []
      follower_commands (f ∷ fs) =
          let rest = follower_commands fs in
          if Followers.is_deleted f
          then rest
          else Queued.set (follower_key f.id) (marshalled (info_of_follower f.master_id f))
            ∷ (Queued.sadd (master_followers_key f.master_id) (f.id ∷ [])
                ∷ (Queued.set (follower_master_key f.id) f.master_id ∷ rest))

      unfoldable pub sync_from_database : List Master → List (Follower F) → Cmd R.State (Unit {0})
      unfolding master_commands follower_commands
      sync_from_database masters followers =
          R.exec (
            Queued.del active_masters_key
            ∷ (master_commands masters ++ follower_commands followers))
