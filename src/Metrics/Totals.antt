-- ===== src/Metrics/Totals.antt =====
-- What the signals of a master add to each counter.
use mt5_bridge.Prelude.{
  ℕ, suc, ◌+◌, String, ◌≡◌, refl, ap, Bool, true, false, List, [], ◌∷◌, length, one_if, count,
  arith, eq_refl, ◌||◌,
}
use mt5_bridge.Distribution.{Outcome, disabled, redis_error, database_error, nobody, distributed}
use mt5_bridge.Metrics.{is_counter_of}
use mt5_bridge.Metrics.Names.{
  Metric, signals_received, signals_distributed, redis_errors, database_errors,
}

-- How a signal of the master was distributed: to how many orders, in which time, with which outcome.
pub record Report (F : Type 0) : Type 0 where
  pub success_count : ℕ
  pub latency : F
  pub outcome : Outcome F

abbrev pub is_distributed : {F : Type 0} → Outcome F → Bool
is_distributed outcome = elim outcome [ distributed orders ↦ true | _ ↦ false ]

abbrev pub is_redis_error : {F : Type 0} → Outcome F → Bool
is_redis_error outcome = elim outcome [ redis_error ↦ true | _ ↦ false ]

abbrev pub is_database_error : {F : Type 0} → Outcome F → Bool
is_database_error outcome = elim outcome [ database_error ↦ true | _ ↦ false ]

-- Whether an outcome adds to the counter of a metric with these values.
abbrev pub marks : {F : Type 0} → String → Outcome F → Metric → List String → Bool
marks master_id disabled m values = false
marks master_id nobody m values = false
marks master_id redis_error m values = is_counter_of redis_errors ("SMEMBERS" ∷ []) m values
marks master_id database_error m values = is_counter_of database_errors ("SELECT" ∷ []) m values
marks master_id (distributed orders) m values =
    is_counter_of signals_distributed (master_id ∷ []) m values

-- The counters that the signals of the master may add to.
abbrev pub is_one_of : String → Metric → List String → Bool
is_one_of master_id m values =
    is_counter_of signals_received (master_id ∷ []) m values
    || is_counter_of signals_distributed (master_id ∷ []) m values
    || is_counter_of redis_errors ("SMEMBERS" ∷ []) m values
    || is_counter_of database_errors ("SELECT" ∷ []) m values

module _ {F : Type 0} where
  -- What a signal adds to a counter.
  abbrev pub added : String → Outcome F → Metric → List String → ℕ
  added master_id o m values =
      one_if (is_counter_of signals_received (master_id ∷ []) m values)
      + one_if (marks master_id o m values)

  -- What the signals add to it.
  abbrev pub total : String → Metric → List String → List (Report F) → ℕ
  total master_id m values [] = 0
  total master_id m values (r ∷ reports) =
      added master_id r.outcome m values + total master_id m values reports

  pub total-count :
      (master_id : String) (m : Metric) (values : List String) (p : Report F → Bool)
      → ((r : Report F) → added master_id r.outcome m values ≡ one_if (p r))
      → (reports : List (Report F)) → total master_id m values reports ≡ count p reports
  unfolding count
  total-count master_id m values p each [] = refl
  total-count master_id m values p each (r ∷ reports) =
      ground (arith, each r, total-count master_id m values p each reports)

  pub count-all : (reports : List (Report F)) → count (λ r. true) reports ≡ length reports
  unfolding count
  count-all [] = refl
  count-all (r ∷ reports) = ap suc (count-all reports)

  pub count-none : (reports : List (Report F)) → count (λ r. false) reports ≡ 0
  unfolding count
  count-none [] = refl
  count-none (r ∷ reports) = count-none reports

  pub received :
      (master_id : String) (o : Outcome F) → added master_id o signals_received (master_id ∷ []) ≡ 1
  received master_id disabled = ground (arith, eq_refl master_id)
  received master_id redis_error = ground (arith, eq_refl master_id)
  received master_id database_error = ground (arith, eq_refl master_id)
  received master_id nobody = ground (arith, eq_refl master_id)
  received master_id (distributed orders) = ground (arith, eq_refl master_id)

  pub delivered :
      (master_id : String) (o : Outcome F)
      → added master_id o signals_distributed (master_id ∷ []) ≡ one_if (is_distributed o)
  delivered master_id disabled = ground (arith, eq_refl master_id)
  delivered master_id redis_error = ground (arith, eq_refl master_id)
  delivered master_id database_error = ground (arith, eq_refl master_id)
  delivered master_id nobody = ground (arith, eq_refl master_id)
  delivered master_id (distributed orders) = ground (arith, eq_refl master_id)

  pub redis_failed :
      (master_id : String) (o : Outcome F)
      → added master_id o redis_errors ("SMEMBERS" ∷ []) ≡ one_if (is_redis_error o)
  redis_failed master_id disabled = ground (arith, eq_refl master_id)
  redis_failed master_id redis_error = ground (arith, eq_refl master_id)
  redis_failed master_id database_error = ground (arith, eq_refl master_id)
  redis_failed master_id nobody = ground (arith, eq_refl master_id)
  redis_failed master_id (distributed orders) = ground (arith, eq_refl master_id)

  pub database_failed :
      (master_id : String) (o : Outcome F)
      → added master_id o database_errors ("SELECT" ∷ []) ≡ one_if (is_database_error o)
  database_failed master_id disabled = ground (arith, eq_refl master_id)
  database_failed master_id redis_error = ground (arith, eq_refl master_id)
  database_failed master_id database_error = ground (arith, eq_refl master_id)
  database_failed master_id nobody = ground (arith, eq_refl master_id)
  database_failed master_id (distributed orders) = ground (arith, eq_refl master_id)

  -- A counter that is none of the four gains nothing.
  pub untouched :
      (master_id : String) (m : Metric) (values : List String) (o : Outcome F)
      → is_one_of master_id m values ≡ false
      → added master_id o m values ≡ 0
  untouched master_id m values disabled other = ground arith
  untouched master_id m values redis_error none_of = ground arith
  untouched master_id m values database_error other = ground arith
  untouched master_id m values nobody other = ground arith
  untouched master_id m values (distributed orders) other = ground arith
