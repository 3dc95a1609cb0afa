-- ===== src/Db/Followers/Lifecycle.antt =====
-- What holds of the rows of followers after any calls of the repositories.
use mt5_bridge.Prelude.{
  ℕ, zero, suc, String, ◌≡◌, refl, ◌∙◌, Bool, true, false, ◌&&◌, List, [], ◌∷◌, ◌++◌, arith, any,
  update_where, any-append, Bool-cases, inl, inr,
}
use mt5_bridge.Go.Float.{Float64}
use mt5_bridge.Models.{Master, Follower}
use mt5_bridge.Models.Followers.{is_active, is_deleted}
use mt5_bridge.Db.{Db, Reply, answered, refused, uncounted, lost}
use mt5_bridge.Db.Masters
use mt5_bridge.Db.Followers.{
  is_live_id, set_status, counted, update_status, mark_deleted, soft_delete, with_defaults, row_of,
  insert_row, create,
}

-- A call of a repository that writes, with the reply of the database and the time.
pub data Call (F : Type 0) : Type 0 where
  creates_master : Reply → ℕ → Master → Call F
  deletes_master : Reply → ℕ → String → Call F
  creates : Reply → ℕ → Follower F → Call F
  sets_status : Reply → ℕ → String → String → Call F
  deletes : Reply → ℕ → String → Call F

module _ {F : Type 0} ⦃fl : Float64 F⦄ where
  unfoldable pub call : Call F → Db F → Db F
  call (creates_master reply now m) db = (Masters.create reply now m db).1
  call (deletes_master reply now id) db = (Masters.soft_delete reply now id db).1
  call (creates reply now f) db = (create reply now f db).1
  call (sets_status reply now id status) db = (update_status reply now id status db).1
  call (deletes reply now id) db = (soft_delete reply now id db).1

  unfoldable pub run : List (Call F) → Db F → Db F
  run [] db = db
  run (c ∷ cs) db = run cs (call c db)

module _ {F : Type 0} where
  -- A row that is deleted and still active.
  abbrev pub is_left_active : Follower F → Bool
  is_left_active f = is_deleted f && is_active f

  -- A change that makes no such row makes none in the table.
  update-left_active :
      (p : Follower F → Bool) (f : Follower F → Follower F) (rows : List (Follower F))
      → ((r : Follower F) → p r ≡ true → is_left_active (f r) ≡ false)
      → any is_left_active rows ≡ false
      → any is_left_active (update_where p f rows) ≡ false
  unfolding any update_where
  update-left_active p f [] k h = refl
  update-left_active p f (r ∷ rows) k h = elim (Bool-cases (p r)) [
    | inl hit ↦ rw (hit) (ground (arith, k r hit, update-left_active p f rows k))
    | inr miss ↦ rw (miss) (ground (arith, update-left_active p f rows k))
  ]

  status-left_active :
      (now : ℕ) (id status : String) (r : Follower F)
      → is_live_id id r ≡ true
      → is_left_active (set_status now status r) ≡ false
  unfolding is_live_id is_deleted is_active set_status
  status-left_active now id status r live = ground arith

  deleted-left_active : (now : ℕ) (r : Follower F) → is_left_active (mark_deleted now r) ≡ false
  unfolding is_deleted is_active mark_deleted
  deleted-left_active now r = refl

  inactive-left_active :
      (now : ℕ) (r : Follower F) → is_left_active (Masters.deactivate now r) ≡ false
  unfolding is_deleted is_active Masters.deactivate
  inactive-left_active now r = ground arith

  counted-left_active :
      (reply : Reply) (n : ℕ) (old new : Db F)
      → any is_left_active old.followers ≡ false
      → any is_left_active new.followers ≡ false
      → any is_left_active (counted reply n old new).1.followers ≡ false
  unfolding counted
  counted-left_active refused n old new h k = h
  counted-left_active uncounted n old new h k = k
  counted-left_active lost n old new h k = k
  counted-left_active answered zero old new h k = k
  counted-left_active answered (suc n) old new h k = k

module _ {F : Type 0} ⦃fl : Float64 F⦄ where
  inserted-left_active :
      (f : Follower F) (rows : List (Follower F))
      → any is_left_active rows ≡ false
      → any is_left_active (rows ++ row_of f ∷ []) ≡ false
  unfolding row_of is_deleted
  inserted-left_active f rows h = any-append is_left_active rows (row_of f) ∙ ground arith

  insert_row-left_active :
      (f : Follower F) (db : Db F)
      → any is_left_active db.followers ≡ false
      → any is_left_active (insert_row f db).1.followers ≡ false
  unfolding insert_row
  insert_row-left_active f db h = ground (arith, inserted-left_active f db.followers h)

  call-left_active :
      (c : Call F) (db : Db F)
      → any is_left_active db.followers ≡ false
      → any is_left_active (call c db).followers ≡ false
  unfolding call create Masters.create Masters.insert_row Masters.soft_delete Masters.delete_rows
      update_status soft_delete
  call-left_active (creates_master reply now m) db h = ground arith
  call-left_active (deletes_master refused now id) db h = h
  call-left_active (deletes_master answered now id) db h =
      update-left_active _ _ db.followers (λ r _. inactive-left_active now r) h
  call-left_active (deletes_master uncounted now id) db h =
      update-left_active _ _ db.followers (λ r _. inactive-left_active now r) h
  call-left_active (deletes_master lost now id) db h =
      update-left_active _ _ db.followers (λ r _. inactive-left_active now r) h
  call-left_active (creates refused now f) db h = h
  call-left_active (creates answered now f) db h = insert_row-left_active (with_defaults now f) db h
  call-left_active (creates uncounted now f) db h =
      insert_row-left_active (with_defaults now f) db h
  call-left_active (creates lost now f) db h = insert_row-left_active (with_defaults now f) db h
  call-left_active (sets_status reply now id status) db h =
      counted-left_active _ _ db _ h
        (update-left_active _ _ db.followers (λ r live. status-left_active now id status r live) h)
  call-left_active (deletes reply now id) db h =
      counted-left_active _ _ db _ h
        (update-left_active _ _ db.followers (λ r _. deleted-left_active now r) h)

  -- Whatever calls of the repositories write to the tables, and whatever the replies are: if no follower
  -- that is marked as deleted is active at first, then none is afterwards.
  pub run-left_active :
      (calls : List (Call F)) (db : Db F)
      → any is_left_active db.followers ≡ false
      → any is_left_active (run calls db).followers ≡ false
  unfolding run
  run-left_active [] db h = h
  run-left_active (c ∷ cs) db h = run-left_active cs (call c db) (call-left_active c db h)
