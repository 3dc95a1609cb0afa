-- ===== src/Metrics.antt =====
-- internal/metrics/metrics.go, and what cmd/tcp/main.go records of a signal. The package prometheus is
-- an interface.
pub mod Names
pub mod Registered
pub mod Totals
pub mod Counted
use mt5_bridge.Prelude.{
  ℕ, suc, ◌*◌, String, ◌≡◌, Bool, true, false, ◌&&◌, Option, none, some, List, [], ◌∷◌, length,
  and_then, if◌then◌else◌, ◌==◌,
}
use mt5_bridge.Go.Float.{Float64}
use mt5_bridge.Distribution.{Outcome, disabled, redis_error, database_error, nobody, distributed}
use mt5_bridge.Metrics.Names.{
  counter, gauge, histogram, Metric, followers_active, active_masters, signals_received,
  signals_distributed, distribution_errors, redis_errors, database_errors, distribution_latency,
  follower_count_per_master,
}

abbrev pub same_texts : List String → List String → Bool
same_texts [] [] = true
same_texts [] (y ∷ ys) = false
same_texts (x ∷ xs) [] = false
same_texts (x ∷ xs) (y ∷ ys) = x == y && same_texts xs ys

-- `WithLabelValues(…).Inc()`, `Set` and `Observe`; a panic is no result.
pub record Prometheus (F : Type 0) : Type 1 where
  pub State : Type 0
  pub inc : Metric → List String → State → Option State
  pub set : Metric → F → State → Option State
  pub observe : Metric → F → State → Option State
  pub count_of : State → Metric → List String → ℕ
  pub value_of : State → Metric → F

abbrev pub is_counter_of : Metric → List String → Metric → List String → Bool
is_counter_of m values m' values' = m.name == m'.name && same_texts values values'

-- What the documentation says: `Inc` with as many values as the counter has labels adds one to that
-- counter and changes no other; `Observe` of a histogram without labels changes no counter; `Set` of a
-- gauge without labels changes the value of that gauge alone.
pub record IsDocumented {F : Type 0} (P : Prometheus F) : Type 0 where
  pub inc-adds :
      (m : Metric) (values : List String) (s : P.State)
      → m.kind ≡ counter
      → length values ≡ length m.labels
      → (s' : P.State) × (P.inc m values s ≡ some s')
        × ((m' : Metric) (values' : List String)
            → P.count_of s' m' values' ≡ (
                if is_counter_of m values m' values'
                then suc (P.count_of s m' values')
                else P.count_of s m' values'))
  pub observe-keeps :
      (m : Metric) (bounds : List ℕ) (x : F) (s : P.State)
      → m.kind ≡ histogram bounds
      → m.labels ≡ []
      → (s' : P.State) × (P.observe m x s ≡ some s')
        × ((m' : Metric) (values' : List String)
            → P.count_of s' m' values' ≡ P.count_of s m' values')
  pub set-sets :
      (m : Metric) (x : F) (s : P.State)
      → m.kind ≡ gauge
      → m.labels ≡ []
      → (s' : P.State) × (P.set m x s ≡ some s')
        × ((m' : Metric) → P.value_of s' m' ≡ (if m.name == m'.name then x else P.value_of s m'))

module _ {F : Type 0} ⦃fl : Float64 F⦄ where
  -- `float64(n)` of a count.
  abbrev pub float_of : ℕ → F
  float_of n = fl.hundredths (100 * n)

  module _ (P : Prometheus F) where
    -- The latency is in milliseconds.
    unfoldable pub record_distribution_success : String → ℕ → F → P.State → Option P.State
    record_distribution_success master_id follower_count latency s =
        and_then (P.inc signals_distributed (master_id ∷ []) s) λ s'.
          and_then (P.observe distribution_latency (fl.div latency (float_of 1000)) s')
            λ s''. P.observe follower_count_per_master (float_of follower_count) s''

    unfoldable pub record_distribution_error : String → P.State → Option P.State
    record_distribution_error reason s = P.inc distribution_errors (reason ∷ []) s

    unfoldable pub record_redis_error : String → P.State → Option P.State
    record_redis_error operation s = P.inc redis_errors (operation ∷ []) s

    unfoldable pub record_database_error : String → P.State → Option P.State
    record_database_error operation s = P.inc database_errors (operation ∷ []) s

    unfoldable pub update_active_followers : ℕ → P.State → Option P.State
    update_active_followers count s = P.set followers_active (float_of count) s

    unfoldable pub update_active_masters : ℕ → P.State → Option P.State
    update_active_masters count s = P.set active_masters (float_of count) s

    -- What `distributeToFollowers` records of how it came out; of a distribution, how many orders were
    -- enqueued and how long it took.
    unfoldable pub record_outcome : String → ℕ → F → Outcome F → P.State → Option P.State
    unfolding record_distribution_success record_redis_error record_database_error
    record_outcome master_id success_count latency disabled s = some s
    record_outcome master_id success_count latency redis_error s = record_redis_error "SMEMBERS" s
    record_outcome master_id success_count latency database_error s =
        record_database_error "SELECT" s
    record_outcome master_id success_count latency nobody s = some s
    record_outcome master_id success_count latency (distributed orders) s =
        record_distribution_success master_id success_count latency s

    -- The goroutine of `processSignal` for a master's signal.
    unfoldable pub record_signal : String → ℕ → F → Outcome F → P.State → Option P.State
    unfolding record_outcome
    record_signal master_id success_count latency outcome s =
        and_then (P.inc signals_received (master_id ∷ []) s)
          (record_outcome master_id success_count latency outcome)
