-- ===== src/Api/Accounts/Credentials.antt =====
-- Who can log in.
use mt5_bridge.Prelude.{
  ℕ, String, ◌≡◌, ap, ◌∙◌, ◌≢◌, ◌⊎◌, inl, inr, Bool, true, false, ◌&&◌, Option, none, some, arith,
  find, ◌==◌, eq_iff, Bool-cases, Option-cases,
}
use mt5_bridge.Models.{Master, Follower, LoginRequest, UserInfo}
use mt5_bridge.Db.{Db, Reply}
use mt5_bridge.Db.Masters
use mt5_bridge.Db.Followers
use mt5_bridge.Redis.{Redis}
use mt5_bridge.Api.{
  Server, Request, Env, Response, next, write_error, guard, or_stop, ◌>>=◌, finish,
}
use mt5_bridge.Api.Steps.{NeverStops, goes_on, finish-gone_on}
use mt5_bridge.Api.Accounts.{
  check_login_request, master_user, follower_user, user_of, signed_in, login,
}

module _ {F : Type 0} where
  -- The administrator's fixed credentials, or a live account whose hash the password fits.
  abbrev pub HasCredentials : Env F → Db F → LoginRequest → Type 0
  HasCredentials env db r =
      ((r.username ≡ "admin") × (r.password ≡ "admin123"))
      ⊎ (((m : Master) × ((find (Masters.is_live_account r.username) db.masters ≡ some m)
              × (env.compare_password m.password_hash r.password ≡ true)))
          ⊎ ((f : Follower F) × ((find (Followers.is_live_account r.username) db.followers ≡ some f)
                × (env.compare_password f.password_hash r.password ≡ true))))

  master_of :
      (env : Env F) (reply : Reply) (db : Db F) (r : LoginRequest) (u : UserInfo)
      → master_user env r (Masters.get_by_account_id reply r.username db) ≡ some u
      → (m : Master) × ((find (Masters.is_live_account r.username) db.masters ≡ some m)
          × (env.compare_password m.password_hash r.password ≡ true))
  unfolding master_user Masters.get_by_account_id
  master_of env reply db r u h =
      elim (Option-cases (find (Masters.is_live_account r.username) db.masters)) [
        | inl missing ↦ absurd (ground arith)
        | inr (m, row) ↦ (m, (row, ground arith))
      ]

  follower_of :
      (env : Env F) (reply : Reply) (db : Db F) (r : LoginRequest) (u : UserInfo)
      → follower_user env r (Followers.get_by_account_id reply r.username db) ≡ some u
      → (f : Follower F) × ((find (Followers.is_live_account r.username) db.followers ≡ some f)
          × (env.compare_password f.password_hash r.password ≡ true))
  unfolding follower_user Followers.get_by_account_id
  follower_of env reply db r u h =
      elim (Option-cases (find (Followers.is_live_account r.username) db.followers)) [
        | inl missing ↦ absurd (ground arith)
        | inr (f, row) ↦ (f, (row, ground arith))
      ]

  user_of-HasCredentials :
      (env : Env F) (db : Db F) (r : LoginRequest) (u : UserInfo)
      → user_of env db r ≡ some u
      → HasCredentials env db r
  unfolding user_of
  user_of-HasCredentials env db r u h =
      elim (Bool-cases (r.username == "admin" && r.password == "admin123")) [
        | inl admin ↦ inl (
          ground (arith, eq_iff r.username "admin"),
          ground (arith, eq_iff r.password "admin123"),
        )
        | inr other ↦
            elim (Option-cases
              (master_user env r (Masters.get_by_account_id (env.reply 0) r.username db))) [
                | inr (m, is_master) ↦ inr (inl (master_of env (env.reply 0) db r m is_master))
                | inl no_master ↦ inr (inr (follower_of env (env.reply 1) db r u (ground arith)))
              ]
      ]

module _ {F A : Type 0} where
  or_stop-next : (o : Option A) (r : Response F) (a : A) → or_stop o r ≡ next a → o ≡ some a
  or_stop-next o r a h = ground arith

module _ (F : Type 0) where
  guard-NeverStops :
      (b : Bool) (message code : String) (status : ℕ)
      → status ≢ 200
      → NeverStops 200 (guard {F = F} b (write_error status message code))
  unfolding write_error
  guard-NeverStops true message code status h = tt
  guard-NeverStops false message code status h = h

  or_stop-NeverStops :
      {A : Type 0} (o : Option A) (message code : String) (status : ℕ)
      → status ≢ 200
      → NeverStops 200 (or_stop {F = F} o (write_error status message code))
  unfolding write_error
  or_stop-NeverStops none message code status h = h
  or_stop-NeverStops (some a) message code status h = tt

  check-NeverStops : (r : LoginRequest) → NeverStops 200 (check_login_request {F = F} r)
  unfolding check_login_request ◌>>=◌ write_error
  check-NeverStops r = ground arith

module _ {F : Type 0} (R : Redis) where
  -- A login with status 200 is the answer with a token to a user whom the credentials belong to.
  pub login-signed_in :
      (env : Env F) (req : Request) (s : Server F R)
      → (login R env req s).0.status ≡ 200
      → (r : LoginRequest) × (u : UserInfo) × (env.decode_login req.body ≡ some r)
        × (user_of env s.db r ≡ some u)
        × ((login R env req s).0 ≡ signed_in env u)
  unfolding login finish
  login-signed_in env req s h =
      let (t, (post, h1)) = goes_on 200 s _ _ (guard-NeverStops F _ _ _ 405 (omega arith)) h in
      let (r, (decoded, h2)) =
        goes_on 200 s _ _ (or_stop-NeverStops F _ _ _ 400 (omega arith)) h1 in
      let (t', (valid, h3)) = goes_on 200 s _ _ (check-NeverStops F r) h2 in
      let (u, (known, h4)) = goes_on 200 s _ _ (or_stop-NeverStops F _ _ _ 401 (omega arith)) h3 in
      (
        r,
        u,
        or_stop-next _ _ r decoded,
        or_stop-next _ _ u known,
        ap (λ out. out.0)
            (finish-gone_on s _ _ t post
              ∙ finish-gone_on s _ _ r decoded
              ∙ finish-gone_on s _ _ t' valid
              ∙ finish-gone_on s _ _ u known),
      )

  -- A login is answered with status 200 only for a request that decodes to the fixed credentials of the
  -- administrator, or to the account of a live master or follower and a password that fits its hash.
  pub login-HasCredentials :
      (env : Env F) (req : Request) (s : Server F R)
      → (login R env req s).0.status ≡ 200
      → (r : LoginRequest) × ((env.decode_login req.body ≡ some r) × HasCredentials env s.db r)
  login-HasCredentials env req s h =
      let (r, u, decoded, known, answer) = login-signed_in env req s h in
      (r, (decoded, user_of-HasCredentials env s.db r u known))
