-- ===== src/Metrics/Registered.antt =====
-- The registration of the metrics, which panics on a name that is taken and on bounds that do not grow.
use mt5_bridge.Prelude.{ℕ, ◌≡◌, refl, Bool, true, ◌&&◌, not, List, [], ◌∷◌, any, ltb, ◌==◌}
use mt5_bridge.Metrics.Names.{Kind, counter, gauge, histogram, Metric, all_metrics}

abbrev grows : List ℕ → Bool
grows [] = true
grows (x ∷ []) = true
grows (x ∷ y ∷ xs) = ltb x y && grows (y ∷ xs)

abbrev has_bounds : Kind → Bool
has_bounds counter = true
has_bounds gauge = true
has_bounds (histogram bounds) = grows bounds

abbrev registers : List Metric → Bool
registers [] = true
registers (m ∷ ms) = has_bounds m.kind && not (any (λ n. n.name == m.name) ms) && registers ms

-- The names of the metrics are different, and the bounds of each histogram grow.
all_metrics-registers : registers all_metrics ≡ true
unfolding any
all_metrics-registers = refl
