-- ===== src/Signal/Pipe/Panics.antt =====
-- When reading the text form runs out of range.
use mt5_bridge.Prelude.{ℕ, String, ◌≡◌, refl, ◌↔◌, List, [], ◌∷◌}
use mt5_bridge.Go.Float.{Float64}
use mt5_bridge.Signal.{Conversions}
use mt5_bridge.Signal.Pipe.{panics, read_parts}

module _ {F : Type 0} ⦃fl : Float64 F⦄ (cv : Conversions F) where
  pub read_parts-panics :
      (now : ℕ) (parts : List String)
      → (read_parts cv now parts ≡ panics) ↔ ((a : String) × (s : String) × (parts ≡ a ∷ s ∷ []))
  unfolding read_parts
  read_parts-panics now [] = (λ e. cc, λ p. cc (p.2))
  read_parts-panics now (a ∷ []) = (λ e. cc, λ p. cc (p.2))
  read_parts-panics now (a ∷ s ∷ []) = (λ e. (a, s, refl), λ p. refl)
  read_parts-panics now (a ∷ s ∷ y ∷ r) = (λ e. cc, λ p. cc (p.2))
