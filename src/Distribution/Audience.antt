-- ===== src/Distribution/Audience.antt =====
-- Whom a master's signal reaches, in terms of what the Redis server and the table hold.
use mt5_bridge.Prelude.{
  String, ◌≡◌, refl, sym, ap, ◌∙◌, ◌≢◌, Bool, true, false, ◌&&◌, some, List, [], ◌∷◌, arith, eq_iff,
  ◌==◌, if◌then◌else◌, any, filter,
}
use mt5_bridge.Go.Float.{Float64}
use mt5_bridge.Signal.{Signal}
use mt5_bridge.Models.{Follower, FollowerOrder}
use mt5_bridge.Db.{Db, Reply, refused, ok}
use mt5_bridge.Db.Followers.{
  is_live_active, get_by_account_ids, rows_of, get_active_followers_by_master,
}
use mt5_bridge.Redis.{Redis, IsDocumented, continue-succeeds}
use mt5_bridge.Redis.Subscriptions.{
  build_subscribe_key, get_followers, clear_master_followers, add_follower,
}
use mt5_bridge.Distribution.{
  Outcome, disabled, redis_error, database_error, nobody, distributed, orders_of, for_followers,
  for_accounts, distribute_to_followers, add_all, sync_with, sync_followers,
}

any_symm : (a : String) (xs : List String) → any (λ x. a == x) xs ≡ any (λ x. x == a) xs
unfolding any
any_symm a [] = refl
any_symm a (x ∷ xs) = ground (arith, any_symm a xs, eq_iff a x, eq_iff x a)

module _ {F : Type 0} where
  abbrev pub orders_in : Outcome F → List (FollowerOrder F)
  orders_in disabled = []
  orders_in redis_error = []
  orders_in database_error = []
  orders_in nobody = []
  orders_in (distributed orders) = orders

  abbrev pub Matches : (Follower F → Bool) → (Follower F → Bool) → Type 0
  Matches p q = (f : Follower F) → p f ≡ q f

  filter-Matches :
      (p q : Follower F → Bool) (fs : List (Follower F)) → Matches p q → filter p fs ≡ filter q fs
  unfolding filter
  filter-Matches p q [] h = refl
  filter-Matches p q (f ∷ fs) h = rw (h f, filter-Matches p q fs h) refl

  filter-nothing :
      (p : Follower F → Bool) (fs : List (Follower F))
      → ((f : Follower F) → p f ≡ false)
      → filter p fs ≡ []
  unfolding filter
  filter-nothing p [] h = refl
  filter-nothing p (f ∷ fs) h = rw (h f, filter-nothing p fs h) refl

  answered_rows :
      (reply : Reply) (p : Follower F → Bool) (db : Db F)
      → reply ≢ refused
      → rows_of reply p db ≡ ok (filter p db.followers)
  unfolding rows_of
  answered_rows reply p db r = ground arith

module _ {F : Type 0} ⦃fl : Float64 F⦄ where
  orders-for_followers :
      (sig : Signal F) (fs : List (Follower F))
      → orders_in (for_followers sig (ok fs)) ≡ orders_of sig fs
  unfolding for_followers orders_of
  orders-for_followers sig [] = refl
  orders-for_followers sig (f ∷ fs) = refl

  orders-for_accounts :
      (reply : Reply) (db : Db F) (sig : Signal F) (accounts : List String)
      → reply ≢ refused
      → orders_in (for_accounts reply db sig (some accounts))
        ≡ orders_of sig
            (filter (λ f. any (λ x. x == f.account_id) accounts && is_live_active f) db.followers)
  unfolding for_accounts get_by_account_ids orders_of any
  orders-for_accounts reply db sig [] r =
      sym (ap (orders_of sig) (filter-nothing _ db.followers (λ f. refl)))
  orders-for_accounts reply db sig (a ∷ as') r =
      ap (λ rows. orders_in (for_followers sig rows)) (answered_rows reply _ db r)
      ∙ (orders-for_followers sig _
          ∙ ap (orders_of sig) (
              filter-Matches _ _ db.followers
                (λ f. ap (λ b. b && is_live_active f) (any_symm f.account_id (a ∷ as')))))

module _ {F : Type 0} (R : Redis) where
  -- Whether the master's set has the follower's account, and the follower is active and not deleted.
  abbrev pub is_reached : R.State → String → Follower F → Bool
  is_reached redis master_id f =
      R.set_has redis (build_subscribe_key master_id) f.account_id && is_live_active f

module _ {F : Type 0} (R : Redis) ⦃fl : Float64 F⦄ (documented : IsDocumented R) where
  -- With a Redis server that lists the members of a set, a master's signal is turned into one order
  -- for each follower row, in the table's order, that is active, not deleted, and whose account
  -- is in the master's set; the row's own master is not looked at. The stores are there, and both
  -- the set and the rows can be read.
  pub distribute_to_followers-orders :
      (reply : Reply) (db : Db F) (redis : R.State) (master_id : String) (sig : Signal F)
      (members : List String)
      → reply ≢ refused
      → (get_followers R master_id redis).0 ≡ some members
      → orders_in (distribute_to_followers R true reply db redis master_id sig)
        ≡ orders_of sig (filter (is_reached R redis master_id) db.followers)
  unfolding distribute_to_followers get_followers
  distribute_to_followers-orders reply db redis master_id sig members r got =
      ap (λ found. orders_in (for_accounts reply db sig found)) got
      ∙ (orders-for_accounts reply db sig members r
          ∙ ap (orders_of sig) (
              filter-Matches _ _ db.followers (λ f.
                ap (λ b. b && is_live_active f)
                  (documented.smembers_lists (build_subscribe_key master_id) redis members got
                    f.account_id))))

  add_all-members :
      (master_id : String) (fs : List (Follower F)) (s : R.State)
      → (add_all R master_id fs s).0 ≡ some tt
      → (j n : String)
      → R.set_has (add_all R master_id fs s).1 j n ≡ (
          if build_subscribe_key master_id == j && any (λ f. f.account_id == n) fs
          then true
          else R.set_has s j n)
  unfolding add_all any add_follower
  add_all-members master_id [] s h j n = ground arith
  add_all-members master_id (f ∷ fs) s h j n =
      let (a, (added, rest)) =
        continue-succeeds (add_follower R master_id f.account_id s) (λ _. add_all R master_id fs) tt
          h in
      ap (λ out. R.set_has out.1 j n) rest
      ∙ (add_all-members master_id fs (add_follower R master_id f.account_id s).1
            (sym (ap (λ out. out.0) rest) ∙ h) j n
          ∙ ground (
            arith,
            documented.sadd_adds (build_subscribe_key master_id) f.account_id s added j n,
          ))

  cleared_and_filled :
      (master_id : String) (fs : List (Follower F)) (s : R.State)
      → (sync_with R master_id (ok fs) s).0 ≡ some tt
      → (j n : String)
      → R.set_has (sync_with R master_id (ok fs) s).1 j n ≡ (
          if build_subscribe_key master_id == j
          then any (λ f. f.account_id == n) fs
          else R.set_has s j n)
  unfolding sync_with clear_master_followers
  cleared_and_filled master_id fs s h j n =
      let (a, (cleared, rest)) =
        continue-succeeds (clear_master_followers R master_id s) (λ _. add_all R master_id fs) tt
          h in
      ap (λ out. R.set_has out.1 j n) rest
      ∙ (add_all-members master_id fs (clear_master_followers R master_id s).1
            (sym (ap (λ out. out.0) rest) ∙ h) j n
          ∙ ground (arith, documented.del_removes (build_subscribe_key master_id) s cleared j n))

  -- When a sync of a master succeeds on a server that does what is documented, the master's set
  -- holds exactly the accounts of its active followers that are not deleted, whatever it held
  -- before, and the other sets are as they were. The database does not refuse the query.
  pub sync_followers-members :
      (reply : Reply) (db : Db F) (master_id : String) (s : R.State)
      → reply ≢ refused
      → (sync_followers R reply db master_id s).0 ≡ some tt
      → (j n : String)
      → R.set_has (sync_followers R reply db master_id s).1 j n ≡ (
          if build_subscribe_key master_id == j
          then any
              (λ f. f.account_id == n)
              (filter (λ f. f.master_id == master_id && is_live_active f) db.followers)
          else R.set_has s j n)
  unfolding sync_followers get_active_followers_by_master
  sync_followers-members reply db master_id s r h j n =
      let rows = answered_rows reply (λ f. f.master_id == master_id && is_live_active f) db r in
      ap (λ fs. R.set_has (sync_with R master_id fs s).1 j n) rows
      ∙ cleared_and_filled master_id
          (filter (λ f. f.master_id == master_id && is_live_active f) db.followers) s
          (sym (ap (λ fs. (sync_with R master_id fs s).0) rows) ∙ h) j n
