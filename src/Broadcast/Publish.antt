-- ===== src/Broadcast/Publish.antt =====
-- The publication of signals by internal/distributor/signal_broadcaster.go.
use mt5_bridge.Prelude.{
  ℕ, suc, String, ◌≡◌, refl, ◌∙◌, Bool, false, ◌&&◌, ◌||◌, Option, none, some, List, [], ◌∷◌, map,
  any, ◌++◌, Bool-cases, inl, inr, ltb, count, Assoc, lookup, insert, if◌then◌else◌, ◌==◌, eq_iff,
  arith,
}
use mt5_bridge.Go.Float.{Float64}
use mt5_bridge.Signal.{Signal}
use mt5_bridge.Models.Followers.{follower_status_active}
use mt5_bridge.Redis.{Redis, Cmd, ◌>>=◌, attempt}
use mt5_bridge.Redis.Subscriptions.{append_at}
use mt5_bridge.Redis.FastLookup.{
  MasterFollowerInfo, InfoJson, get_follower_info, get_master_info, get_master_for_follower,
}
use mt5_bridge.Redis.FastLookup
use mt5_bridge.Redis.SignalHub.{SignalJson, publish_signal}

module _ {F : Type 0} where
  unfoldable pub group_by_master :
      String → Option (MasterFollowerInfo F) → Assoc (List String) → Assoc (List String)
  unfolding append_at
  group_by_master follower_id none groups = groups
  group_by_master follower_id (some info) groups =
      if info.status == follower_status_active
      then append_at info.master_id follower_id groups
      else groups

module _ (R : Redis) {F : Type 0} (infos : InfoJson F) where
  unfoldable pub lookup_follower : String → Cmd R.State (MasterFollowerInfo F)
  unfolding get_follower_info
  lookup_follower follower_id = get_follower_info R infos follower_id

  unfoldable pub lookup_master : String → Cmd R.State (MasterFollowerInfo F)
  unfolding get_master_info
  lookup_master master_id = get_master_info R infos master_id

  unfoldable pub get_followers_for_master : String → Cmd R.State (List String)
  unfolding FastLookup.get_followers_for_master
  get_followers_for_master master_id = FastLookup.get_followers_for_master R master_id

  -- The first loop of `BroadcastToFollowers`: the followers by master.
  unfoldable pub group_followers :
      List String → Assoc (List String) → R.State → Assoc (List String) × R.State
  unfolding group_by_master get_follower_info
  group_followers [] groups s = (groups, s)
  group_followers (id ∷ ids) groups s =
      let (answer, s') = get_follower_info R infos id s in
      group_followers ids (group_by_master id answer groups) s'

  -- What the lookups of a batch answer, one after the other.
  abbrev pub answers : List String → R.State → List (Option (MasterFollowerInfo F))
  answers [] s = []
  answers (id ∷ ids) s =
      let (answer, s') = get_follower_info R infos id s in answer ∷ answers ids s'

module _ (R : Redis) {F : Type 0} (json : SignalJson F) where
  unfoldable pub broadcast_to_master : String → Signal F → Cmd R.State (Unit {0})
  unfolding publish_signal
  broadcast_to_master master_id sig = publish_signal R json master_id sig

  -- The second loop, over the keys of the map, in the order of the association list. An error is
  -- only logged.
  unfoldable pub publish_all : List String → Signal F → R.State → R.State
  unfolding publish_signal
  publish_all [] sig s = s
  publish_all (master_id ∷ rest) sig s =
      publish_all rest sig (attempt (publish_signal R json master_id sig) s).1

module _ (R : Redis) {F : Type 0} (infos : InfoJson F) (json : SignalJson F) where
  unfoldable pub broadcast_to_followers : List String → Signal F → Cmd R.State (Unit {0})
  unfolding group_followers publish_all
  broadcast_to_followers [] sig s = (some tt, s)
  broadcast_to_followers (id ∷ ids) sig s =
      let (groups, s') = group_followers R infos (id ∷ ids) [] s in
      (some tt, publish_all R json (map (λ entry. entry.0) groups) sig s')

  module _ ⦃fl : Float64 F⦄ where
    unfoldable pub scaled_signal : Signal F → MasterFollowerInfo F → Signal F
    scaled_signal sig info = record sig { lot = fl.mul sig.lot info.lot_multiplier }

    unfoldable pub distribute_signal : String → Signal F → Cmd R.State (Unit {0})
    unfolding get_master_for_follower get_follower_info broadcast_to_master scaled_signal
    distribute_signal account_id sig = do
      master_id ← get_master_for_follower R account_id
      info ← get_follower_info R infos account_id
      broadcast_to_master R json master_id (scaled_signal sig info)

-- The answer is an active follower of the master.
abbrev pub is_active_of : {F : Type 0} → String → Option (MasterFollowerInfo F) → Bool
is_active_of master_id none = false
is_active_of master_id (some info) =
    info.status == follower_status_active && info.master_id == master_id

abbrev pub keys : {V : Type 0} → Assoc V → List String
keys groups = map (λ entry. entry.0) groups

-- How often a master is a key.
abbrev occurs : {V : Type 0} → String → Assoc V → ℕ
occurs m groups = count (λ k. k == m) (keys groups)

occurs-insert :
    {V : Type 0} (k m : String) (v : V) (groups : Assoc V)
    → occurs m (insert k v groups) ≡ (
        if k == m && ltb 0 (occurs m groups)
        then occurs m groups
        else if k == m
        then suc (occurs m groups)
        else occurs m groups)
unfolding insert count
occurs-insert k m v [] = ground arith
occurs-insert k m v ((j, w) ∷ groups) =
    ground (arith, occurs-insert k m v groups, eq_iff j k, eq_iff j m, eq_iff k m)

abbrev once_if : Bool → ℕ
once_if b = if b then 1 else 0

occurs-append_at :
    (k m v : String) (groups : Assoc (List String)) (b : Bool)
    → occurs m groups ≡ once_if b
    → occurs m (append_at k v groups) ≡ once_if (b || k == m)
unfolding append_at
occurs-append_at k m v groups b e = ground (
  arith,
  e,
  occurs-insert k m (elim (lookup k groups) [ none ↦ v ∷ [] | some vs ↦ vs ++ v ∷ [] ]) groups,
)

module _ {F : Type 0} where
  occurs-group_by_master :
      (id m : String) (answer : Option (MasterFollowerInfo F)) (groups : Assoc (List String))
      (b : Bool)
      → occurs m groups ≡ once_if b
      → occurs m (group_by_master id answer groups) ≡ once_if (b || is_active_of m answer)
  unfolding group_by_master
  occurs-group_by_master id m none groups b e = ground (arith, e)
  occurs-group_by_master id m (some info) groups b e =
      elim (Bool-cases (info.status == follower_status_active)) [
        | inl a ↦ rw (a) (occurs-append_at info.master_id m id groups b e)
        | inr a ↦ rw (a) (ground (arith, e))
      ]

module _ (R : Redis) {F : Type 0} (infos : InfoJson F) where
  occurs-group_followers :
      (ids : List String) (m : String) (groups : Assoc (List String)) (s : R.State) (b : Bool)
      → occurs m groups ≡ once_if b
      → occurs m (group_followers R infos ids groups s).0
        ≡ once_if (b || any (is_active_of m) (answers R infos ids s))
  unfolding group_followers any
  occurs-group_followers [] m groups s b e = ground (arith, e)
  occurs-group_followers (id ∷ ids) m groups s b e =
      let (answer, s') = get_follower_info R infos id s in
      occurs-group_followers ids m (group_by_master id answer groups) s'
        (b || is_active_of m answer) (occurs-group_by_master id m answer groups b e)
      ∙ ground (arith)

  -- A broadcast to followers never fails, whatever the server does. It publishes the signal once to each
  -- master that an active follower of the batch has, however many of its followers the batch names, and
  -- to no other; a follower whose entry is not read is left out.
  pub broadcast_to_followers-once :
      (json : SignalJson F) (ids : List String) (sig : Signal F) (s : R.State)
      → (masters : List String) × ((broadcast_to_followers R infos json ids sig s
            ≡ (some tt, publish_all R json masters sig (group_followers R infos ids [] s).1))
          × ((m : String)
              → count (λ k. k == m) masters
                ≡ (if any (is_active_of m) (answers R infos ids s) then 1 else 0)))
  unfolding broadcast_to_followers publish_all group_followers count any
  broadcast_to_followers-once json [] sig s = ([], (refl, λ m. refl))
  broadcast_to_followers-once json (id ∷ ids) sig s = (
    keys (group_followers R infos (id ∷ ids) [] s).0,
    (refl, λ m. occurs-group_followers (id ∷ ids) m [] s false refl),
  )
