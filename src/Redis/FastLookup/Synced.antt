-- ===== src/Redis/FastLookup/Synced.antt =====
-- What the synchronisation of internal/redis/fast_lookup.go makes of the set of active masters.
use mt5_bridge.Prelude.{
  String, ◌≡◌, refl, ap, ◌∙◌, Bool, false, not, ◌&&◌, ◌||◌, some, List, [], ◌∷◌, ◌++◌, any, ◌==◌,
  eq_iff, eq_refl, arith, Bool-cases, inl, inr,
}
use mt5_bridge.Go.Float.{Float64}
use mt5_bridge.Go.Text.{has_prefix}
use mt5_bridge.Go.Text.Prefixes.{has_prefix-append}
use mt5_bridge.Models.{Master, Follower}
use mt5_bridge.Models.Masters
use mt5_bridge.Models.Followers
use mt5_bridge.Redis.{Redis, Queued, applied, all_applied, IsPipelined}
use mt5_bridge.Redis.FastLookup.{
  InfoJson, active_masters_key, master_key, follower_key, master_followers_key, follower_master_key,
  master_commands, follower_commands, sync_from_database,
}

-- No other key of the store is that of the set.
other_key : (k : String) → has_prefix k "masters" ≡ false → (k == active_masters_key) ≡ false
unfolding has_prefix
other_key k h = elim (Bool-cases (k == active_masters_key)) [
  | inr e ↦ e
  | inl e ↦ wrong (rw ((eq_iff k active_masters_key).0 e) at h)
]
  where
    wrong : has_prefix active_masters_key "masters" ≡ false → (k == active_masters_key) ≡ false
    wrong e = ground arith

master_key-other : (id : String) → (master_key id == active_masters_key) ≡ false
unfolding master_key
master_key-other id = other_key (master_key id) (has_prefix-append "master:" id "masters" refl)

follower_key-other : (id : String) → (follower_key id == active_masters_key) ≡ false
unfolding follower_key
follower_key-other id =
    other_key (follower_key id) (has_prefix-append "follower:" id "masters" refl)

master_followers_key-other : (id : String) → (master_followers_key id == active_masters_key) ≡ false
unfolding master_followers_key
master_followers_key-other id =
    other_key (master_followers_key id) (has_prefix-append "master:" _ "masters" refl)

follower_master_key-other : (id : String) → (follower_master_key id == active_masters_key) ≡ false
unfolding follower_master_key
follower_master_key-other id =
    other_key (follower_master_key id) (has_prefix-append "follower:" _ "masters" refl)

all_applied-append :
    (xs ys : List Queued) (has : String → String → Bool)
    → all_applied (xs ++ ys) has ≡ all_applied ys (all_applied xs has)
unfolding all_applied
all_applied-append [] ys has = refl
all_applied-append (x ∷ xs) ys has = all_applied-append xs ys (applied x has)

module _ (R : Redis) {F : Type 0} (json : InfoJson F) ⦃fl : Float64 F⦄ where
  all_applied-follower_commands :
      (fs : List (Follower F)) (has : String → String → Bool) (n : String)
      → all_applied (follower_commands R json fs) has active_masters_key n
        ≡ has active_masters_key n
  unfolding follower_commands all_applied applied
  all_applied-follower_commands [] has n = refl
  all_applied-follower_commands (f ∷ fs) has n = elim (Bool-cases (Followers.is_deleted f)) [
    | inl e ↦ rw (e) (all_applied-follower_commands fs has n)
    | inr e ↦ rw (e) (
        all_applied-follower_commands fs _ n
        ∙ ground (
          arith,
          follower_key-other f.id,
          master_followers_key-other f.master_id,
          follower_master_key-other f.id,
        ))
  ]

  all_applied-master_commands :
      (ms : List Master) (has : String → String → Bool) (n : String)
      → all_applied (master_commands R json ms) has active_masters_key n
        ≡ (has active_masters_key n || any (λ m. m.id == n && not (Masters.is_deleted m)) ms)
  unfolding master_commands all_applied applied any
  all_applied-master_commands [] has n = ground arith
  all_applied-master_commands (m ∷ ms) has n = elim (Bool-cases (Masters.is_deleted m)) [
    | inl e ↦ rw (e) (all_applied-master_commands ms has n ∙ ground arith)
    | inr e ↦ rw (e) (
        all_applied-master_commands ms _ n
        ∙ ground (arith, master_key-other m.id, eq_refl active_masters_key))
  ]

  -- A synchronisation from the database that succeeds makes the set of active masters exactly the IDs of
  -- the masters of the list that are not deleted, whatever the set held before and whatever the IDs
  -- of masters and followers are.
  pub sync_from_database-active_masters :
      (masters : List Master) (followers : List (Follower F)) (s : R.State)
      → IsPipelined R
      → (sync_from_database R json masters followers s).0 ≡ some tt
      → (n : String)
      → R.set_has (sync_from_database R json masters followers s).1 active_masters_key n
        ≡ any (λ m. m.id == n && not (Masters.is_deleted m)) masters
  unfolding sync_from_database all_applied applied
  sync_from_database-active_masters masters followers s pipelined done n =
      let cleared = applied (Queued.del active_masters_key) (R.set_has s) in
      pipelined.exec_applies _ s done active_masters_key n
      ∙ ap (λ has. has active_masters_key n)
          (all_applied-append (master_commands R json masters) (follower_commands R json followers)
            cleared)
      ∙ all_applied-follower_commands followers _ n
      ∙ all_applied-master_commands masters cleared n
      ∙ ground (arith, eq_refl active_masters_key)
