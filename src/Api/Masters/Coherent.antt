-- ===== src/Api/Masters/Coherent.antt =====
-- What the handlers of masters keep true between the table and the cache.
use mt5_bridge.Prelude.{
  ℕ, String, ◌≡◌, refl, ◌∙◌, Bool, true, false, none, some, List, [], ◌∷◌, ◌++◌, arith, find, any,
  Bool-cases, inl, inr, lookup-insert, lookup-delete, update_where,
}
use mt5_bridge.Go.Float.{Float64}
use mt5_bridge.Models.{Master}
use mt5_bridge.Db.{Db, Reply, answered, refused, uncounted, lost, ok}
use mt5_bridge.Db.Masters
use mt5_bridge.Db.Masters.{collides, is_live_id, mark_deleted}
use mt5_bridge.Db.Masters.Rows.{
  HasUniqueKeys, append-HasUniqueKeys, mark-HasUniqueKeys, live_id-append, live_id-mark,
}
use mt5_bridge.Cache.{MasterCache, get, set, delete_account}
use mt5_bridge.Cache.Coherence.{Coherent}
use mt5_bridge.Redis.{Redis}
use mt5_bridge.Api.{Server, Request, Env, Response, next}
use mt5_bridge.Api.Masters.{
  new_master, register, master_stored, create_master, master_removed, delete_master, found,
}
use mt5_bridge.Api.Steps.{finish-bind, finish-next}

-- The answer to a statement that was carried out did not come.
abbrev pub is_lost : Reply → Bool
is_lost lost = true
is_lost _ = false

abbrev pub IsConsistent : {F : Type 0} {R : Redis} → Server F R → Type 0
IsConsistent s = HasUniqueKeys s.db.masters × Coherent s.db.masters s.cache

set-Coherent :
    (m : Master) (ms : List Master) (mc : MasterCache)
    → any (collides m) ms ≡ false
    → m.deleted_at ≡ none
    → Coherent ms mc
    → Coherent (ms ++ m ∷ []) (set m.account_id m.id mc)
unfolding get set
set-Coherent m ms mc h live c a =
    lookup-insert m.account_id a m.id mc.cache ∙ ground (arith, c a, live_id-append a m ms h live)

delete_account-Coherent :
    (now : ℕ) (id : String) (m : Master) (ms : List Master) (mc : MasterCache)
    → HasUniqueKeys ms
    → find (is_live_id id) ms ≡ some m
    → Coherent ms mc
    → Coherent (update_where (is_live_id id) (mark_deleted now) ms) (delete_account m.account_id mc)
unfolding get delete_account
delete_account-Coherent now id m ms mc u e c a =
    lookup-delete m.account_id a mc.cache ∙ ground (arith, c a, live_id-mark now a id ms m u e)

module _ {F : Type 0} (R : Redis) ⦃fl : Float64 F⦄ where
  register-IsConsistent :
      (env : Env F) (m : Master) (s : Server F R)
      → IsConsistent s
      → IsConsistent (register R env m s)
  unfolding register
  register-IsConsistent env m s c = ground arith

  inserted-IsConsistent :
      (env : Env F) (m : Master) (s : Server F R)
      → IsConsistent s
      → m.deleted_at ≡ none
      → any (collides m) s.db.masters ≡ false
      → IsConsistent
          (master_stored R env s (ok m, record s.db { masters = s.db.masters ++ m ∷ [] })).1
  unfolding master_stored
  inserted-IsConsistent env m s (u, c) live h =
      register-IsConsistent env m
        (record s {
          db = record s.db { masters = s.db.masters ++ m ∷ [] };
          cache = set m.account_id m.id s.cache;
        })
        (append-HasUniqueKeys m s.db.masters h u, set-Coherent m s.db.masters s.cache h live c)

  row_stored-IsConsistent :
      (env : Env F) (m : Master) (s : Server F R)
      → IsConsistent s
      → m.deleted_at ≡ none
      → IsConsistent (master_stored R env s (Masters.insert_row m s.db)).1
  unfolding master_stored Masters.insert_row
  row_stored-IsConsistent env m s c live = elim (Bool-cases (Masters.fits m)) [
    | inr misfit ↦ rw (misfit) c
    | inl fit ↦ elim (Bool-cases (any (collides m) s.db.masters)) [
      | inl clash ↦ rw (fit, clash) c
      | inr new ↦ rw (fit, new) (inserted-IsConsistent env m s c live new)
    ]
  ]

  stored-IsConsistent :
      (reply : Reply) (env : Env F) (m : Master) (s : Server F R)
      → is_lost reply ≡ false
      → IsConsistent s
      → IsConsistent (master_stored R env s (Masters.create reply env.now m s.db)).1
  unfolding master_stored Masters.create
  stored-IsConsistent lost env m s there c = ground (arith, there)
  stored-IsConsistent refused env m s there c = c
  stored-IsConsistent answered env m s there c =
      row_stored-IsConsistent env
        (record m { deleted_at = none; created_at = env.now; updated_at = env.now }) s c refl
  stored-IsConsistent uncounted env m s there c =
      row_stored-IsConsistent env
        (record m { deleted_at = none; created_at = env.now; updated_at = env.now }) s c refl

  -- If no two rows of masters share an ID or an account, and the cache gives for every account the
  -- ID of its live row, then it is so after the handler that registers a master, whatever the
  -- request holds and however the database, Redis and bcrypt answer, unless an answer of the database
  -- to what it has carried out is lost.
  pub create_master-IsConsistent :
      (env : Env F) (req : Request) (s : Server F R)
      → ((n : ℕ) → is_lost (env.reply n) ≡ false)
      → IsConsistent s
      → IsConsistent (create_master R env req s).1
  unfolding create_master
  create_master-IsConsistent env req s there c = finish-bind IsConsistent s _ _ c λ _ post.
      finish-bind IsConsistent s _ _ c λ r decoded. finish-bind IsConsistent s _ _ c λ _ valid.
        finish-bind IsConsistent s _ _ c λ hash hashed.
          finish-next IsConsistent s _
            (stored-IsConsistent (env.reply 0) env (new_master env r hash) s (there 0) c)

  removed-IsConsistent :
      (reply : Reply) (env : Env F) (id : String) (m : Master) (s : Server F R)
      → is_lost reply ≡ false
      → IsConsistent s
      → find (is_live_id id) s.db.masters ≡ some m
      → IsConsistent (master_removed R s m id (Masters.soft_delete reply env.now id s.db)).1
  unfolding master_removed Masters.soft_delete Masters.delete_rows
  removed-IsConsistent lost env id m s there c e = ground (arith, there)
  removed-IsConsistent refused env id m s there c e = c
  removed-IsConsistent answered env id m s there (u, c) e = (
    mark-HasUniqueKeys env.now id s.db.masters u,
    delete_account-Coherent env.now id m s.db.masters s.cache u e c,
  )
  removed-IsConsistent uncounted env id m s there (u, c) e = (
    mark-HasUniqueKeys env.now id s.db.masters u,
    delete_account-Coherent env.now id m s.db.masters s.cache u e c,
  )

  found_row :
      (reply : Reply) (id : String) (db : Db F) (missing broken : Response F) (m : Master)
      → found R (Masters.get_by_id reply id db) missing broken ≡ next m
      → find (is_live_id id) db.masters ≡ some m
  unfolding Masters.get_by_id
  found_row reply id db missing broken m e = ground arith

  -- If no two rows of masters share an ID or an account, and the cache gives for every account the
  -- ID of its live row, then it is so after the handler that deletes a master, whatever the path,
  -- the request's method and the replies of the database and Redis are, unless an answer of the
  -- database to what it has carried out is lost.
  pub delete_master-IsConsistent :
      (env : Env F) (req : Request) (s : Server F R)
      → ((n : ℕ) → is_lost (env.reply n) ≡ false)
      → IsConsistent s
      → IsConsistent (delete_master R env req s).1
  unfolding delete_master
  delete_master-IsConsistent env req s there c = finish-bind IsConsistent s _ _ c λ _ method.
      finish-bind IsConsistent s _ _ c λ id path. finish-bind IsConsistent s _ _ c λ m row.
        finish-next IsConsistent s _ (
          removed-IsConsistent (env.reply 1) env id m s (there 1) c
            (found_row (env.reply 0) id s.db _ _ m row))
