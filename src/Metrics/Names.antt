-- ===== src/Metrics/Names.antt =====
-- internal/metrics/metrics.go: the metrics that the program has.
use mt5_bridge.Prelude.{ℕ, String, List, [], ◌∷◌}

-- The upper bounds of a histogram are in thousandths.
pub data Kind : Type 0 where
  counter gauge : Kind
  histogram : List ℕ → Kind

pub record Metric : Type 0 where
  pub name : String
  pub help : String
  pub kind : Kind
  pub labels : List String

abbrev pub masters_total : Metric
masters_total = record {
  name = "masters_total";
  help = "Total number of registered master accounts";
  kind = counter;
  labels = [];
}

abbrev pub followers_total : Metric
followers_total = record {
  name = "followers_total";
  help = "Total number of registered follower accounts";
  kind = counter;
  labels = [];
}

abbrev pub followers_active : Metric
followers_active = record {
  name = "followers_active";
  help = "Current number of active followers";
  kind = gauge;
  labels = [];
}

abbrev pub active_masters : Metric
active_masters = record {
  name = "active_masters";
  help = "Current number of non-deleted masters";
  kind = gauge;
  labels = [];
}

abbrev pub signals_received : Metric
signals_received = record {
  name = "signals_received_total";
  help = "Total signals received per master";
  kind = counter;
  labels = "master_id" ∷ [];
}

abbrev pub signals_distributed : Metric
signals_distributed = record {
  name = "signals_distributed_total";
  help = "Total signals successfully distributed per master";
  kind = counter;
  labels = "master_id" ∷ [];
}

abbrev pub distribution_errors : Metric
distribution_errors = record {
  name = "distribution_errors_total";
  help = "Distribution failures by reason";
  kind = counter;
  labels = "reason" ∷ [];
}

abbrev pub redis_errors : Metric
redis_errors = record {
  name = "redis_errors_total";
  help = "Redis operation failures by operation";
  kind = counter;
  labels = "operation" ∷ [];
}

abbrev pub database_errors : Metric
database_errors = record {
  name = "database_errors_total";
  help = "Database operation failures by operation";
  kind = counter;
  labels = "operation" ∷ [];
}

abbrev pub distribution_latency : Metric
distribution_latency = record {
  name = "distribution_latency_seconds";
  help = "Time to distribute signal to all followers";
  kind = histogram (10 ∷ 25 ∷ 50 ∷ 75 ∷ 100 ∷ 250 ∷ 500 ∷ 1000 ∷ []);
  labels = [];
}

abbrev pub redis_operation_duration : Metric
redis_operation_duration = record {
  name = "redis_operation_duration_seconds";
  help = "Redis operation latency";
  kind = histogram (1 ∷ 5 ∷ 10 ∷ 25 ∷ 50 ∷ 100 ∷ 250 ∷ []);
  labels = [];
}

abbrev pub database_query_duration : Metric
database_query_duration = record {
  name = "database_query_duration_seconds";
  help = "Database query latency";
  kind = histogram (1 ∷ 5 ∷ 10 ∷ 25 ∷ 50 ∷ 100 ∷ 250 ∷ 500 ∷ []);
  labels = [];
}

abbrev pub follower_count_per_master : Metric
follower_count_per_master = record {
  name = "follower_count_per_master";
  help = "Distribution of followers across masters";
  kind = histogram (1000 ∷ 5000 ∷ 10000 ∷ 25000 ∷ 50000 ∷ 100000 ∷ 250000 ∷ 500000 ∷ []);
  labels = [];
}

abbrev pub redis_connection_pool_active : Metric
redis_connection_pool_active = record {
  name = "redis_connection_pool_active";
  help = "Active Redis connections";
  kind = gauge;
  labels = [];
}

abbrev pub database_connection_pool_active : Metric
database_connection_pool_active = record {
  name = "database_connection_pool_active";
  help = "Active database connections";
  kind = gauge;
  labels = [];
}

abbrev pub queue_size : Metric
queue_size = record {
  name = "queue_size";
  help = "Current signal queue size";
  kind = gauge;
  labels = [];
}

abbrev pub http_requests_total : Metric
http_requests_total = record {
  name = "http_requests_total";
  help = "Total HTTP requests by method and path";
  kind = counter;
  labels = "method" ∷ "path" ∷ "status" ∷ [];
}

abbrev pub http_request_duration : Metric
http_request_duration = record {
  name = "http_request_duration_seconds";
  help = "HTTP request duration";
  kind = histogram (1 ∷ 5 ∷ 10 ∷ 25 ∷ 50 ∷ 100 ∷ 250 ∷ 500 ∷ 1000 ∷ []);
  labels = "method" ∷ "path" ∷ [];
}

-- In the order in which they are registered.
abbrev pub all_metrics : List Metric
all_metrics =
    masters_total ∷ followers_total ∷ followers_active ∷ active_masters ∷ signals_received
    ∷ signals_distributed ∷ distribution_errors ∷ redis_errors ∷ database_errors
    ∷ distribution_latency ∷ redis_operation_duration ∷ database_query_duration
    ∷ follower_count_per_master ∷ redis_connection_pool_active ∷ database_connection_pool_active
    ∷ queue_size ∷ http_requests_total ∷ http_request_duration ∷ []
