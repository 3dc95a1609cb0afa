-- ===== src/Redis/Subscriptions/Synced.antt =====
-- What a synchronisation makes of the sets.
use text.Mathlib.TextLemmas.{append_cancel_left}
use mt5_bridge.Prelude.{
  String, ◌≡◌, refl, ◌∙◌, Bool, false, ◌&&◌, ◌||◌, Option, none, some, List, [], ◌∷◌, ◌++◌, any,
  any-append, is_some, Assoc, lookup, insert, lookup-insert, if◌then◌else◌, ◌==◌, eq_iff, arith,
  Bool-cases, inl, inr,
}
use mt5_bridge.Models.{Follower}
use mt5_bridge.Redis.{Redis, IsPipelined, Queued, applied, all_applied}
use mt5_bridge.Redis.Subscriptions.{
  subscribe_key_prefix, build_subscribe_key, append_at, group_from, sync_commands,
  sync_from_followers,
}

build_subscribe_key-eq :
    (a b : String) → (build_subscribe_key a == build_subscribe_key b) ≡ (a == b)
unfolding build_subscribe_key
build_subscribe_key-eq a b = ground (
  arith,
  eq_iff a b,
  eq_iff (build_subscribe_key a) (build_subscribe_key b),
  append_cancel_left subscribe_key_prefix a b,
)

-- No key stands twice.
abbrev pub IsMap : {V : Type 0} → Assoc V → Type 0
IsMap [] = Unit
IsMap ((k, v) ∷ entries) = (lookup k entries ≡ none) × IsMap entries

abbrev pub or_before : Option (List String) → Bool → String → Bool
or_before none before n = before
or_before (some accounts) before n = any (λ a. a == n) accounts

-- The commands make the set of a master that is a key exactly its accounts.
all_applied-sync_commands :
    (groups : Assoc (List String)) (has : String → String → Bool) (m n : String)
    → IsMap groups
    → all_applied (sync_commands groups) has (build_subscribe_key m) n
      ≡ or_before (lookup m groups) (has (build_subscribe_key m) n) n
unfolding sync_commands all_applied applied lookup any
all_applied-sync_commands [] has m n u = refl
all_applied-sync_commands ((k, []) ∷ groups) has m n (new, u) = ground (
  arith,
  all_applied-sync_commands groups (applied (Queued.del (build_subscribe_key k)) has) m n u,
  build_subscribe_key-eq k m,
  eq_iff k m,
)
all_applied-sync_commands ((k, a ∷ accounts) ∷ groups) has m n (new, u) =
    let key = build_subscribe_key k in
    ground (
      arith,
      all_applied-sync_commands groups
          (applied (Queued.sadd key (a ∷ accounts)) (applied (Queued.del key) has)) m n u,
      build_subscribe_key-eq k m,
      eq_iff k m,
    )

insert-IsMap :
    {V : Type 0} (k : String) (v : V) (entries : Assoc V)
    → IsMap entries
    → IsMap (insert k v entries)
unfolding insert lookup
insert-IsMap k v [] u = (refl, tt)
insert-IsMap k v ((j, w) ∷ entries) (new, u) = elim (Bool-cases (j == k)) [
  | inl e ↦ rw (e) (rw ((eq_iff j k).0 e) at new, u)
  | inr e ↦ rw (e) (
    ground (arith, lookup-insert k j v entries, eq_iff k j, eq_iff j k),
    insert-IsMap k v entries u,
  )
]

abbrev in_group : Option (List String) → String → Bool
in_group none n = false
in_group (some accounts) n = any (λ a. a == n) accounts

lookup-append_at :
    (k v m n : String) (groups : Assoc (List String))
    → (is_some (lookup m (append_at k v groups)) ≡ (is_some (lookup m groups) || k == m))
      × (in_group (lookup m (append_at k v groups)) n
          ≡ (in_group (lookup m groups) n || (k == m && v == n)))
unfolding append_at any
lookup-append_at k v m n groups = elim (Bool-cases (k == m)) [
  | inr e ↦ rw (lookup-insert k m (grown (lookup k groups)) groups, e) (ground arith, ground arith)
  | inl e ↦
      rw (lookup-insert k m (grown (lookup k groups)) groups, e)
        (ground arith, any-grown (lookup k groups) ∙ ground (arith, eq_iff k m))
]
  where
    grown : Option (List String) → List String
    grown o = elim o [ none ↦ v ∷ [] | some vs ↦ vs ++ v ∷ [] ]

    any-grown : (o : Option (List String)) → any (λ a. a == n) (grown o) ≡ (in_group o n || v == n)
    any-grown none = ground arith
    any-grown (some vs) = any-append (λ a. a == n) vs v

module _ {F : Type 0} where
  group_from-IsMap :
      (fs : List (Follower F)) (groups : Assoc (List String))
      → IsMap groups
      → IsMap (group_from groups fs)
  unfolding group_from append_at
  group_from-IsMap [] groups u = u
  group_from-IsMap (f ∷ fs) groups u =
      group_from-IsMap fs (append_at f.master_id f.account_id groups)
        (insert-IsMap f.master_id _ groups u)

  -- The accounts of a master in the groups of a list of followers.
  lookup-group_from :
      (m n : String) (before : Bool) (fs : List (Follower F)) (groups : Assoc (List String))
      → or_before (lookup m (group_from groups fs)) before n ≡ (
          if is_some (lookup m groups) || any (λ f. f.master_id == m) fs
          then in_group (lookup m groups) n || any (λ f. f.master_id == m && f.account_id == n) fs
          else before)
  unfolding group_from any
  lookup-group_from m n before [] groups = ground arith
  lookup-group_from m n before (f ∷ fs) groups =
      let groups' = append_at f.master_id f.account_id groups in
      ground (
        arith,
        lookup-group_from m n before fs groups',
        lookup-append_at f.master_id f.account_id m n groups,
      )

-- A synchronisation that succeeds makes the set of every master that a follower of the list has
-- exactly the accounts of its followers in the list, whatever their status; the set of any other
-- master is left as it was.
pub sync_from_followers-members :
    (R : Redis) {F : Type 0} (fs : List (Follower F)) (s : R.State)
    → IsPipelined R
    → (sync_from_followers R fs s).0 ≡ some tt
    → (m n : String)
    → R.set_has (sync_from_followers R fs s).1 (build_subscribe_key m) n ≡ (
        if any (λ f. f.master_id == m) fs
        then any (λ f. f.master_id == m && f.account_id == n) fs
        else R.set_has s (build_subscribe_key m) n)
unfolding sync_from_followers lookup
sync_from_followers-members R fs s pipelined done m n =
    let groups = group_from [] fs in
    let before = R.set_has s (build_subscribe_key m) n in
    pipelined.exec_applies (sync_commands groups) s done (build_subscribe_key m) n
    ∙ all_applied-sync_commands groups (R.set_has s) m n (group_from-IsMap fs [] tt)
    ∙ lookup-group_from m n before fs []
