-- ===== src/Api/Routes/Consistent.antt =====
-- What every request to the API server keeps true between the table of masters and the cache.
use mt5_bridge.Prelude.{
  ℕ, String, false, ◌≡◌, refl, not, ◌&&◌, ◌||◌, Option, some, arith, if-both, Bool-cases, inl, inr,
  ◌==◌,
}
use mt5_bridge.Go.Float.{Float64}
use mt5_bridge.Go.Text.{has_prefix, contains}
use mt5_bridge.Models.{Follower}
use mt5_bridge.Db.{Db, Reply, Result}
use mt5_bridge.Db.Followers
use mt5_bridge.Redis.{Redis}
use mt5_bridge.Api.{Server, Request, Env, Response}
use mt5_bridge.Api.Steps.{finish-bind, finish-next}
use mt5_bridge.Api.Masters.{create_master, delete_master, get_master_followers}
use mt5_bridge.Api.Masters.Coherent.{
  IsConsistent, is_lost, create_master-IsConsistent, delete_master-IsConsistent,
}
use mt5_bridge.Api.Followers.{
  register_follower, start_following, stop_following, delete_follower, follower_stored,
  follower_started, follower_stopped, follower_removed,
}
use mt5_bridge.Api.Accounts.{login, health_of}
use mt5_bridge.Api.Routes.{contains_substring, route_masters, route_followers, mux, serve}
use mt5_bridge.Api.Middleware.{
  validate_content_type, auth_middleware, cors_middleware, logging_middleware, recovery_middleware,
}

module _ {F : Type 0} where
  counted-masters :
      (reply : Reply) (n : ℕ) (old new : Db F)
      → new.masters ≡ old.masters
      → (Followers.counted reply n old new).1.masters ≡ old.masters
  unfolding Followers.counted
  counted-masters reply n old new h = ground arith

module _ {F : Type 0} (R : Redis) ⦃fl : Float64 F⦄ (s : Server F R) where
  -- The masters and the cache are those of `s`.
  abbrev HasSame : Server F R → Type 0
  HasSame t = (t.db.masters ≡ s.db.masters) × (t.cache ≡ s.cache)

  create-masters :
      (reply : Reply) (now : ℕ) (f : Follower F)
      → (Followers.create reply now f s.db).1.masters ≡ s.db.masters
  unfolding Followers.create Followers.insert_row
  create-masters reply now f = ground arith

  stored-HasSame :
      (env : Env F) (master_id : String) (r : Result (Follower F) × Db F)
      → r.1.masters ≡ s.db.masters
      → HasSame (follower_stored R env master_id s r).1
  unfolding follower_stored
  stored-HasSame env master_id r h = ground arith

  started-HasSame :
      (env : Env F) (f : Follower F) (id : String) (r : Result (Unit {0}) × Db F)
      → r.1.masters ≡ s.db.masters
      → HasSame (follower_started R env s f id r).1
  unfolding follower_started
  started-HasSame env f id r h = ground arith

  stopped-HasSame :
      (env : Env F) (f : Follower F) (id : String) (r : Result (Unit {0}) × Db F)
      → r.1.masters ≡ s.db.masters
      → HasSame (follower_stopped R env s f id r).1
  unfolding follower_stopped
  stopped-HasSame env f id r h = ground arith

  removed-HasSame :
      (f : Follower F) (id : String) (r : Result (Unit {0}) × Db F)
      → r.1.masters ≡ s.db.masters
      → HasSame (follower_removed R s f id r).1
  unfolding follower_removed
  removed-HasSame f id r h = ground arith

  same : HasSame s
  same = (refl, refl)

  register_follower-HasSame :
      (env : Env F) (req : Request) → HasSame (register_follower R env req s).1
  unfolding register_follower
  register_follower-HasSame env req = finish-bind HasSame s _ _ same λ _ post.
      finish-bind HasSame s _ _ same λ id path. finish-bind HasSame s _ _ same λ _ there.
        finish-bind HasSame s _ _ same λ r decoded. finish-bind HasSame s _ _ same λ _ valid.
          finish-bind HasSame s _ _ same λ hash hashed.
            finish-next HasSame s _
              (stored-HasSame env id _ (create-masters (env.reply 1) env.now _))

  start_following-HasSame : (env : Env F) (req : Request) → HasSame (start_following R env req s).1
  unfolding start_following Followers.update_status
  start_following-HasSame env req = finish-bind HasSame s _ _ same λ _ post.
      finish-bind HasSame s _ _ same λ id path. finish-bind HasSame s _ _ same λ f row.
        finish-next HasSame s _ (started-HasSame env f id _ (counted-masters _ _ s.db _ refl))

  stop_following-HasSame : (env : Env F) (req : Request) → HasSame (stop_following R env req s).1
  unfolding stop_following Followers.update_status
  stop_following-HasSame env req = finish-bind HasSame s _ _ same λ _ post.
      finish-bind HasSame s _ _ same λ id path. finish-bind HasSame s _ _ same λ f row.
        finish-next HasSame s _ (stopped-HasSame env f id _ (counted-masters _ _ s.db _ refl))

  delete_follower-HasSame : (env : Env F) (req : Request) → HasSame (delete_follower R env req s).1
  unfolding delete_follower Followers.soft_delete
  delete_follower-HasSame env req = finish-bind HasSame s _ _ same λ _ delete.
      finish-bind HasSame s _ _ same λ id path.
        finish-bind HasSame s _ _ same λ f row.
          finish-next HasSame s _ (removed-HasSame f id _ (counted-masters _ _ s.db _ refl))

  get_master_followers-HasSame :
      (env : Env F) (req : Request) → HasSame (get_master_followers R env req s).1
  unfolding get_master_followers
  get_master_followers-HasSame env req = finish-bind HasSame s _ _ same λ _ get.
      finish-bind HasSame s _ _ same λ id path. finish-bind HasSame s _ _ same λ _ there.
        finish-bind HasSame s _ _ same
          λ active counted. finish-bind HasSame s _ _ same λ total all. finish-next HasSame s _ same

  login-HasSame : (env : Env F) (req : Request) → HasSame (login R env req s).1
  unfolding login
  login-HasSame env req = finish-bind HasSame s _ _ same λ _ post.
      finish-bind HasSame s _ _ same λ r decoded.
        finish-bind HasSame s _ _ same
          λ _ valid. finish-bind HasSame s _ _ same λ user known. finish-next HasSame s _ same

  health_of-HasSame : (env : Env F) (req : Request) → HasSame (health_of R env req s).1
  unfolding health_of
  health_of-HasSame env req = finish-bind HasSame s _ _ same λ _ get. finish-next HasSame s _ same

module _ {F : Type 0} (R : Redis) ⦃fl : Float64 F⦄ (env : Env F) (req : Request) (s : Server F R)
    (there : (n : ℕ) → is_lost (env.reply n) ≡ false) (c : IsConsistent s) where
  HasSame-IsConsistent : (t : Server F R) → HasSame R s t → IsConsistent t
  HasSame-IsConsistent t (masters, cache) = rw (masters, cache) c

  Keeps : Response F × Server F R → Type 0
  Keeps out = IsConsistent out.1

  same_state-Keeps : (r : Response F) → Keeps (r, s)
  unfolding Keeps
  same_state-Keeps r = c

  same-Keeps : (out : Response F × Server F R) → HasSame R s out.1 → Keeps out
  unfolding Keeps
  same-Keeps out (masters, cache) = rw (masters, cache) c

  create_master-Keeps : Keeps (create_master R env req s)
  unfolding Keeps
  create_master-Keeps = create_master-IsConsistent R env req s there c

  delete_master-Keeps : Keeps (delete_master R env req s)
  unfolding Keeps
  delete_master-Keeps = delete_master-IsConsistent R env req s there c

  route_masters-Keeps : Keeps (route_masters R env req s)
  unfolding route_masters
  route_masters-Keeps =
      if-both Keeps (req.method == "POST" && contains_substring req.path "/followers")
        (same-Keeps (register_follower R env req s) (register_follower-HasSame R s env req))
        (if-both Keeps (req.method == "GET" && contains_substring req.path "/followers")
          (same-Keeps (get_master_followers R env req s) (get_master_followers-HasSame R s env req))
          (if-both Keeps (req.method == "DELETE") delete_master-Keeps (same_state-Keeps _)))

  route_followers-Keeps : Keeps (route_followers R env req s)
  unfolding route_followers
  route_followers-Keeps =
      if-both Keeps (req.method == "POST" && contains_substring req.path "/start")
        (same-Keeps (start_following R env req s) (start_following-HasSame R s env req))
        (if-both Keeps (req.method == "POST" && contains_substring req.path "/stop")
          (same-Keeps (stop_following R env req s) (stop_following-HasSame R s env req))
          (if-both Keeps (req.method == "DELETE")
            (same-Keeps (delete_follower R env req s) (delete_follower-HasSame R s env req))
            (same_state-Keeps _)))

  mux-Keeps : Keeps (mux R env req s)
  unfolding mux
  mux-Keeps =
      if-both Keeps (req.path == "/api/auth/login")
        (same-Keeps (login R env req s) (login-HasSame R s env req))
        (if-both Keeps (req.path == "/api/masters") create_master-Keeps (
          if-both Keeps (has_prefix req.path "/api/masters/") route_masters-Keeps (
            if-both Keeps (has_prefix req.path "/api/followers/") route_followers-Keeps (
              if-both Keeps (req.path == "/api/followers") (same_state-Keeps _) (
                if-both Keeps (req.path == "/health")
                  (same-Keeps (health_of R env req s) (health_of-HasSame R s env req))
                  (if-both Keeps (req.path == "/metrics") (same_state-Keeps _)
                    (same_state-Keeps _)))))))

  abbrev Ends : Option (Response F) × Server F R → Type 0
  Ends out = IsConsistent out.1

  under_cors-Ends : Ends (
      cors_middleware
        (logging_middleware
          (recovery_middleware (λ r t. (some (mux R env r t).0, (mux R env r t).1))))
        req
        s)
  unfolding cors_middleware logging_middleware recovery_middleware Keeps
  under_cors-Ends = elim (Bool-cases (req.method == "OPTIONS")) [
    | inl options ↦ rw (options) c
    | inr other ↦ rw (other) mux-Keeps
  ]

  -- Whatever request the API server answers from its beginning to its end with no other in between, and
  -- however the database, Redis and bcrypt behave, except that no answer of the database to a statement
  -- that it has carried out is lost: if no two rows of masters share an ID or an account, and the cache
  -- gives for every account the ID of its live row, then it is so after the request.
  pub serve-IsConsistent : IsConsistent (serve R env req s).1
  unfolding serve validate_content_type auth_middleware
  serve-IsConsistent =
      let refused =
        (req.method == "POST" || req.method == "PUT")
        && not (contains req.content_type "application/json") in
      elim (Bool-cases refused) [
        | inl bad ↦ rw (bad) c
        | inr good ↦ elim (Bool-cases (req.path == "/health" || req.path == "/metrics")) [
          | inl open_path ↦ rw (good, open_path) under_cors-Ends
          | inr other ↦ rw (good, other) under_cors-Ends
        ]
      ]
