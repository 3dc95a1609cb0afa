-- ===== src/Distribution/Enqueue.antt =====
-- `Distribute` of internal/distributor/signal_distributor.go as concurrent steps: one goroutine for
-- each follower sends its order to the channel or gives up after five seconds, while workers take
-- orders out. A goroutine's counter is counted with its send or time-out: both counters are read
-- only when all goroutines are done.
use mathlib.Core.List.{Perm, perm_middle, append_assoc, append-nil, perm_append_comm}
use mathlib.Core.List.Perm
use mt5_bridge.Prelude.{
  ℕ, suc, ◌+◌, ◌≤◌, ◌<◌, ◌≡◌, refl, sym, ap, List, [], ◌∷◌, ◌++◌, length, length-append, arith,
}
use mt5_bridge.Go.Float.{Float64}
use mt5_bridge.Signal.{Signal}
use mt5_bridge.Models.{Follower, FollowerOrder}
use mt5_bridge.Distribution.{orders_of}

-- `make(chan *models.FollowerOrder, 1000)`.
abbrev pub capacity : ℕ
capacity = 1000

pub record Run (F : Type 0) : Type 0 where
  -- The orders of the goroutines that have neither sent nor given up.
  pub pending : List (FollowerOrder F)
  pub channel : List (FollowerOrder F)
  -- What the workers have taken, oldest first.
  pub taken : List (FollowerOrder F)
  pub given_up : List (FollowerOrder F)
  pub success_count : ℕ
  pub error_count : ℕ

module _ {F : Type 0} where
  unfoldable pub sent :
      Run F → List (FollowerOrder F) → FollowerOrder F → List (FollowerOrder F) → Run F
  sent r before o after = record r {
    pending = before ++ after;
    channel = r.channel ++ o ∷ [];
    success_count = suc r.success_count;
  }

  unfoldable pub timed_out :
      Run F → List (FollowerOrder F) → FollowerOrder F → List (FollowerOrder F) → Run F
  timed_out r before o after = record r {
    pending = before ++ after;
    given_up = r.given_up ++ o ∷ [];
    error_count = suc r.error_count;
  }

  -- Any goroutine may be the next one. A time-out may win even where the channel has room.
  pub data Step (r : Run F) : Run F → Type 0 where
    sends :
        (before : List (FollowerOrder F)) (o : FollowerOrder F) (after : List (FollowerOrder F))
        → r.pending ≡ before ++ o ∷ after
        → length r.channel < capacity
        → Step r (sent r before o after)
    times_out :
        (before : List (FollowerOrder F)) (o : FollowerOrder F) (after : List (FollowerOrder F))
        → r.pending ≡ before ++ o ∷ after
        → Step r (timed_out r before o after)
    takes :
        (o : FollowerOrder F) (rest : List (FollowerOrder F))
        → r.channel ≡ o ∷ rest
        → Step r (record r { channel = rest; taken = r.taken ++ o ∷ [] })

module _ {F : Type 0} ⦃fl : Float64 F⦄ where
  -- The channel is shared by all signals: it may hold orders already.
  unfoldable pub start : Signal F → List (Follower F) → List (FollowerOrder F) → Run F
  unfolding orders_of
  start sig followers queued = record {
    pending = orders_of sig followers;
    channel = queued;
    taken = [];
    given_up = [];
    success_count = 0;
    error_count = 0;
  }

module _ {A : Type 0} (before after d e : List A) (o : A) where
  -- An order that goes from the middle of one list to the end of another.
  moved : Perm (before ++ after ++ (d ++ o ∷ []) ++ e) (before ++ o ∷ after ++ d ++ e)
  moved =
      let from : before ++ after ++ (d ++ o ∷ []) ++ e ≡ before ++ after ++ d ++ o ∷ e =
        simp append_assoc in
      let to : before ++ o ∷ after ++ d ++ e ≡ before ++ o ∷ (after ++ d ++ e) =
        simp append_assoc in
      let rest : before ++ (after ++ d ++ e) ≡ before ++ after ++ d ++ e = simp append_assoc in
      rw (from, to)
        (Perm.trans (perm_middle (before ++ after ++ d) e)
          (rw (sym rest) (Perm.symm (perm_middle before (after ++ d ++ e)))))

-- An order that goes from the middle of the first list to the end of the last.
moved_last :
    {A : Type 0} (before after d e : List A) (o : A)
    → Perm (before ++ after ++ d ++ (e ++ o ∷ [])) (before ++ o ∷ after ++ d ++ e)
moved_last before after d e o =
    let from : before ++ after ++ d ++ (e ++ o ∷ [])
        ≡ before ++ after ++ ((d ++ e) ++ o ∷ []) ++ [] =
      simp (append_assoc, append-nil) in
    let to : before ++ o ∷ after ++ d ++ e ≡ before ++ o ∷ after ++ (d ++ e) ++ [] =
      simp (append_assoc, append-nil) in
    rw (from, to) (moved before after (d ++ e) [] o)

module _ {F : Type 0} where
  pub data Reach (r : Run F) : Run F → Type 0 where
    here : Reach r r
    later : {t u : Run F} → Reach r t → Step t u → Reach r u

  -- Every order is somewhere, once.
  abbrev pub all_orders : Run F → List (FollowerOrder F)
  all_orders r = r.pending ++ (r.taken ++ r.channel) ++ r.given_up

  abbrev pub total : Run F → ℕ
  total r = length r.pending + (r.success_count + r.error_count)

  -- What the counters and the channel hold, and where the orders are.
  pub record IsAccounted (orders : List (FollowerOrder F)) (queued : ℕ) (r : Run F) : Type 0 where
    pub nothing_lost : Perm (all_orders r) orders
    pub successes : r.success_count + queued ≡ length r.taken + length r.channel
    pub errors : r.error_count ≡ length r.given_up
    pub all_counted : total r + queued ≡ length orders
    pub is_bounded : length r.channel ≤ capacity

  Step-IsAccounted :
      (orders : List (FollowerOrder F)) (queued : ℕ) (r t : Run F)
      → IsAccounted orders queued r
      → Step r t
      → IsAccounted orders queued t
  unfolding sent timed_out
  Step-IsAccounted orders queued r _ a (sends before o after p room) = record {
    nothing_lost =
        Perm.trans
          (rw (p, sym (append_assoc r.taken r.channel (o ∷ [])))
            (moved before after (r.taken ++ r.channel) r.given_up o))
          a.nothing_lost;
    successes = omega (arith, length-append r.channel (o ∷ []), a.successes);
    errors = a.errors;
    all_counted = omega (
      arith,
      a.all_counted,
      ap length p,
      length-append before after,
      length-append before (o ∷ after),
    );
    is_bounded = omega (arith, length-append r.channel (o ∷ []), room);
  }
  Step-IsAccounted orders queued r _ a (times_out before o after p) = record {
    nothing_lost =
        Perm.trans (rw (p) (moved_last before after (r.taken ++ r.channel) r.given_up o))
          a.nothing_lost;
    successes = a.successes;
    errors = omega (arith, length-append r.given_up (o ∷ []), a.errors);
    all_counted = omega (
      arith,
      a.all_counted,
      ap length p,
      length-append before after,
      length-append before (o ∷ after),
    );
    is_bounded = a.is_bounded;
  }
  Step-IsAccounted orders queued r _ a (takes o rest p) = record {
    nothing_lost = rw (append_assoc r.taken (o ∷ []) rest, sym p) a.nothing_lost;
    successes = omega (arith, ap length p, length-append r.taken (o ∷ []), a.successes);
    errors = a.errors;
    all_counted = a.all_counted;
    is_bounded = omega (arith, ap length p, a.is_bounded);
  }

  pub Reach-IsAccounted :
      (orders : List (FollowerOrder F)) (queued : ℕ) (r t : Run F)
      → IsAccounted orders queued r
      → Reach r t
      → IsAccounted orders queued t
  Reach-IsAccounted orders queued r _ a here = a
  Reach-IsAccounted orders queued r _ a (later {t = t} {u = u} reach step) =
      Step-IsAccounted orders queued t u (Reach-IsAccounted orders queued r t a reach) step

module _ {F : Type 0} ⦃fl : Float64 F⦄ where
  length-orders_of :
      (sig : Signal F) (followers : List (Follower F))
      → length (orders_of sig followers) ≡ length followers
  unfolding orders_of
  length-orders_of sig [] = refl
  length-orders_of sig (f ∷ fs) = ap suc (length-orders_of sig fs)

  start-IsAccounted :
      (sig : Signal F) (followers : List (Follower F)) (queued : List (FollowerOrder F))
      → length queued ≤ capacity
      → IsAccounted (queued ++ orders_of sig followers) (length queued) (start sig followers queued)
  unfolding start
  start-IsAccounted sig followers queued fits = record {
    nothing_lost =
        rw (append-nil (orders_of sig followers ++ queued))
          (perm_append_comm (orders_of sig followers) queued);
    successes = refl;
    errors = refl;
    all_counted = omega (arith, length-append queued (orders_of sig followers));
    is_bounded = fits;
  }

  -- When all goroutines of a distribution are done, whatever the order in which they and the workers
  -- ran, each order (and each that was in the channel before) is in the channel, with a worker or given
  -- up, once; the two counters add up to the number of followers; the errors are the orders given up;
  -- and the channel holds at most 1000 orders, as it did at first.
  pub Reach-start :
      (sig : Signal F) (followers : List (Follower F)) (queued : List (FollowerOrder F)) (r : Run F)
      → length queued ≤ capacity
      → Reach (start sig followers queued) r
      → r.pending ≡ []
      → Perm ((r.taken ++ r.channel) ++ r.given_up) (queued ++ orders_of sig followers)
        × ((r.success_count + r.error_count ≡ length followers)
            × ((r.error_count ≡ length r.given_up) × (length r.channel ≤ capacity)))
  Reach-start sig followers queued r fits reach done =
      let a =
        Reach-IsAccounted (queued ++ orders_of sig followers) (length queued)
          (start sig followers queued) r (start-IsAccounted sig followers queued fits) reach in
      let same : all_orders r ≡ r.taken ++ r.channel ++ r.given_up =
        ap (λ pending. pending ++ (r.taken ++ r.channel) ++ r.given_up) done in
      (
        rw (sym same) a.nothing_lost,
        (
          omega (
            arith,
            a.all_counted,
            ap length done,
            length-append queued (orders_of sig followers),
            length-orders_of sig followers,
          ),
          (a.errors, a.is_bounded),
        ),
      )
