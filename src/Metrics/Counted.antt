-- ===== src/Metrics/Counted.antt =====
-- What the counters say of the signals of a master.
use mt5_bridge.Prelude.{
  ℕ, suc, ◌+◌, String, ◌≡◌, refl, ◌∙◌, ap, Bool, true, false, Option, some, List, [], ◌∷◌, length,
  and_then, if◌then◌else◌, one_if, count, arith,
}
use mt5_bridge.Go.Float.{Float64}
use mt5_bridge.Distribution.{Outcome, disabled, redis_error, database_error, nobody, distributed}
use mt5_bridge.Metrics.{
  Prometheus, IsDocumented, is_counter_of, record_distribution_success, record_redis_error,
  record_database_error, record_outcome, record_signal,
}
use mt5_bridge.Metrics.Names.{
  counter, histogram, Metric, signals_received, signals_distributed, redis_errors, database_errors,
  distribution_latency, follower_count_per_master,
}
use mt5_bridge.Metrics.Totals.{
  Report, is_distributed, is_redis_error, is_database_error, marks, added, total, total-count,
  count-all, count-none, received, delivered, redis_failed, database_failed, is_one_of, untouched,
}

module _ {F : Type 0} ⦃fl : Float64 F⦄ (P : Prometheus F) where
  unfoldable pub record_signals : String → List (Report F) → P.State → Option P.State
  record_signals master_id [] s = some s
  record_signals master_id (r ∷ reports) s =
      and_then (record_signal P master_id r.success_count r.latency r.outcome s)
        (record_signals master_id reports)

  -- The call did not panic, and each counter has so many more.
  abbrev Adds : (Metric → List String → ℕ) → P.State → Option P.State → Type 0
  Adds more s o =
      (s' : P.State) × (o ≡ some s')
      × ((m : Metric) (values : List String)
          → P.count_of s' m values ≡ P.count_of s m values + more m values)

  module _ (documented : IsDocumented P) where
    inc-Adds :
        (m : Metric) (values : List String) (s : P.State)
        → m.kind ≡ counter
        → length values ≡ length m.labels
        → Adds (λ m' values'. one_if (is_counter_of m values m' values')) s (P.inc m values s)
    inc-Adds m values s k l =
        let (s', e, adds) = documented.inc-adds m values s k l in
        (s', e, λ m' values'. adds m' values' ∙ plus_one (is_counter_of m values m' values') _)
      where
        plus_one : (b : Bool) (n : ℕ) → (if b then suc n else n) ≡ n + one_if b
        plus_one b n = ground arith

    then_Adds :
        (f g : Metric → List String → ℕ) (s : P.State) (o : Option P.State)
        (k : P.State → Option P.State)
        → Adds f s o
        → ((s' : P.State) → Adds g s' (k s'))
        → Adds (λ m values. f m values + g m values) s (and_then o k)
    then_Adds f g s o k (s', e, p) q =
        let (s'', e', p') = q s' in
        (s'', rw (e) e', λ m values. omega (arith, p m values, p' m values))

    Adds-same :
        (f g : Metric → List String → ℕ) (s : P.State) (o : Option P.State)
        → ((m : Metric) (values : List String) → f m values ≡ g m values)
        → Adds f s o
        → Adds g s o
    Adds-same f g s o same (s', e, p) =
        (s', e, λ m values. omega (arith, p m values, same m values))

    observe-Adds :
        (m : Metric) (bounds : List ℕ) (x : F) (s : P.State)
        → m.kind ≡ histogram bounds
        → m.labels ≡ []
        → Adds (λ m' values'. 0) s (P.observe m x s)
    observe-Adds m bounds x s k l =
        let (s', e, keeps) = documented.observe-keeps m bounds x s k l in
        (s', e, λ m' values'. omega (arith, keeps m' values'))

    nothing-Adds : (s : P.State) → Adds (λ m' values'. 0) s (some s)
    nothing-Adds s = (s, refl, λ m' values'. omega arith)

    record_outcome-Adds :
        (master_id : String) (n : ℕ) (latency : F) (outcome : Outcome F) (s : P.State)
        → Adds
            (λ m values. one_if (marks master_id outcome m values))
            s
            (record_outcome P master_id n latency outcome s)
    unfolding record_outcome record_distribution_success record_redis_error record_database_error
    record_outcome-Adds master_id n latency disabled s = nothing-Adds s
    record_outcome-Adds master_id n latency nobody s = nothing-Adds s
    record_outcome-Adds master_id n latency redis_error s =
        inc-Adds redis_errors ("SMEMBERS" ∷ []) s refl refl
    record_outcome-Adds master_id n latency database_error s =
        inc-Adds database_errors ("SELECT" ∷ []) s refl refl
    record_outcome-Adds master_id n latency (distributed orders) s =
        Adds-same _ _ s _ (λ m values. omega arith)
          (then_Adds _ _ s _ _ (inc-Adds signals_distributed (master_id ∷ []) s refl refl) (λ s'.
            then_Adds _ _ s' _ _ (observe-Adds distribution_latency _ _ s' refl refl)
              (λ s''. observe-Adds follower_count_per_master _ _ s'' refl refl)))

    -- The signals of a master, one after the other.
    record_signals-Adds :
        (master_id : String) (reports : List (Report F)) (s : P.State)
        → Adds (λ m values. total master_id m values reports) s (record_signals master_id reports s)
    unfolding record_signals record_signal
    record_signals-Adds master_id [] s = nothing-Adds s
    record_signals-Adds master_id (r ∷ reports) s =
        Adds-same _ _ s _ (λ m values. omega arith)
          (then_Adds _ _ s _ _
            (then_Adds _ _ s _ _ (inc-Adds signals_received (master_id ∷ []) s refl refl)
              (λ s'. record_outcome-Adds master_id r.success_count r.latency r.outcome s'))
            (λ s'. record_signals-Adds master_id reports s'))

    -- Where prometheus does as it says, recording the signals of a master never panics; the counter of
    -- received signals of the master gains their number, that of distributed ones the number of those
    -- that were distributed, and the counters of Redis and database errors the number of those that
    -- failed there; no other counter changes, of whatever metric and values.
    pub record_signals-counted :
        (master_id : String) (reports : List (Report F)) (s : P.State)
        → (s' : P.State) × (record_signals master_id reports s ≡ some s')
          × (P.count_of s' signals_received (master_id ∷ [])
              ≡ P.count_of s signals_received (master_id ∷ []) + length reports)
          × (P.count_of s' signals_distributed (master_id ∷ [])
              ≡ P.count_of s signals_distributed (master_id ∷ [])
                + count (λ r. is_distributed r.outcome) reports)
          × (P.count_of s' redis_errors ("SMEMBERS" ∷ [])
              ≡ P.count_of s redis_errors ("SMEMBERS" ∷ [])
                + count (λ r. is_redis_error r.outcome) reports)
          × (P.count_of s' database_errors ("SELECT" ∷ [])
              ≡ P.count_of s database_errors ("SELECT" ∷ [])
                + count (λ r. is_database_error r.outcome) reports)
          × ((m : Metric) (values : List String)
              → is_one_of master_id m values ≡ false
              → P.count_of s' m values ≡ P.count_of s m values)
    record_signals-counted master_id reports s =
        let (s', e, p) = record_signals-Adds master_id reports s in
        let gained =
          λ (m : Metric) (values : List String) (q : Report F → Bool)
              (each : (r : Report F) → added master_id r.outcome m values ≡ one_if (q r)).
            p m values
            ∙ ap (λ k. P.count_of s m values + k) (total-count master_id m values q each reports) in
        (
          s',
          e,
          omega (
            arith,
            gained signals_received (master_id ∷ []) (λ r. true)
                (λ r. received master_id r.outcome),
            count-all reports,
          ),
          gained signals_distributed (master_id ∷ []) (λ r. is_distributed r.outcome)
              (λ r. delivered master_id r.outcome),
          gained redis_errors ("SMEMBERS" ∷ []) (λ r. is_redis_error r.outcome)
              (λ r. redis_failed master_id r.outcome),
          gained database_errors ("SELECT" ∷ []) (λ r. is_database_error r.outcome)
              (λ r. database_failed master_id r.outcome),
          λ m values other. omega (
            arith,
            gained m values (λ r. false) (λ r. untouched master_id m values r.outcome other),
            count-none reports,
          ),
        )
