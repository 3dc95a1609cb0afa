-- ===== src/Tests/Metrics.antt =====
-- Examples for the metrics, with a package prometheus that keeps what it is told.
use mt5_bridge.Prelude.{
  ℕ, suc, ◌+◌, String, ◌≡◌, refl, Bool, true, false, ◌&&◌, none, some, List, [], ◌∷◌, length, arith,
  if◌then◌else◌, ◌==◌, nat_eq, count,
}
use mt5_bridge.Distribution.{redis_error, nobody, distributed}
use mt5_bridge.Metrics.{Prometheus, IsDocumented, same_texts}
use mt5_bridge.Metrics.Names.{Kind, Metric, counter}
use mt5_bridge.Metrics.Totals.{Report, is_distributed, is_redis_error, is_database_error, is_one_of}
use mt5_bridge.Metrics.Counted.{record_signals, record_signals-counted}
use mt5_bridge.Tests.Fixtures.{cents}

-- The counters that were added to, and the gauges that were set, the last first.
abbrev Log : Type 0
Log = List (String × List String) × List (String × ℕ)

abbrev is_counter : Kind → Bool
is_counter counter = true
is_counter _ = false

abbrev count_in : List (String × List String) → String → List String → ℕ
count_in [] name values = 0
count_in ((n, vs) ∷ incs) name values =
    let rest = count_in incs name values in
    if n == name && same_texts vs values then suc rest else rest

abbrev value_in : List (String × ℕ) → String → ℕ
value_in [] name = 0
value_in ((n, x) ∷ sets) name = let rest = value_in sets name in if n == name then x else rest

abbrev log : Prometheus ℕ
log = record {
  State = Log;
  inc = λ m values s.
      if is_counter m.kind && nat_eq (length values) (length m.labels)
      then some ((m.name, values) ∷ s.0, s.1)
      else none;
  set = λ m x s. some (s.0, (m.name, x) ∷ s.1);
  observe = λ m x s. some s;
  count_of = λ s m values. count_in s.0 m.name values;
  value_of = λ s m. value_in s.1 m.name;
}

log-IsDocumented : IsDocumented log
log-IsDocumented = record {
  inc-adds = λ m values s k l.
      (((m.name, values) ∷ s.0, s.1), rw (k) (ground (arith, l)), λ m' values'. refl);
  observe-keeps = λ m bounds x s k l. (s, refl, λ m' values'. refl);
  set-sets = λ m x s k l. ((s.0, (m.name, x) ∷ s.1), refl, λ m'. refl);
}

abbrev reports : List (Report ℕ)
reports =
    record { success_count = 2; latency = 900; outcome = distributed [] }
    ∷ record { success_count = 0; latency = 100; outcome = redis_error }
    ∷ record { success_count = 0; latency = 100; outcome = nobody }
    ∷ []

record_signals-counted_example :
    (s' : Log) × (record_signals log "m1" reports ([], []) ≡ some s')
    × (count_in s'.0 "signals_received_total" ("m1" ∷ []) ≡ 0 + 3)
    × (count_in s'.0 "signals_distributed_total" ("m1" ∷ [])
        ≡ 0 + count (λ r. is_distributed r.outcome) reports)
    × (count_in s'.0 "redis_errors_total" ("SMEMBERS" ∷ [])
        ≡ 0 + count (λ r. is_redis_error r.outcome) reports)
    × (count_in s'.0 "database_errors_total" ("SELECT" ∷ [])
        ≡ 0 + count (λ r. is_database_error r.outcome) reports)
    × ((m : Metric) (values : List String)
        → is_one_of "m1" m values ≡ false
        → count_in s'.0 m.name values ≡ 0)
record_signals-counted_example = record_signals-counted log log-IsDocumented "m1" reports ([], [])
