-- ===== src/Lot/Bounds.antt =====
-- The range of a follower's lot, and its order.
use mt5_bridge.Prelude.{arith}
use mt5_bridge.Go.Float.{Float64, IsNumber, IsOrdered, IsMonotone, ◌≼◌}
use mt5_bridge.Lot.{min_lot, max_lot, rounded_lot, clamp_lot, calculate_lot}

module _ {F : Type 0} ⦃fl : Float64 F⦄ (laws : IsOrdered F) where
  open laws use {le_literals, le_total, le_trans, lt-eq-not-le}

  literals : (min_lot {F = F} ≼ min_lot) × (min_lot {F = F} ≼ max_lot) × (max_lot {F = F} ≼ max_lot)
  literals = (
    le_literals 1 1 (omega arith) (omega arith),
    le_literals 1 10_000 (omega arith) (omega arith),
    le_literals 10_000 10_000 (omega arith) (omega arith),
  )

  clamp_lot_bounds : (x : F) → IsNumber x → (min_lot ≼ clamp_lot x) × (clamp_lot x ≼ max_lot)
  unfolding clamp_lot
  clamp_lot_bounds x n = ground (
    arith,
    literals,
    lt-eq-not-le x min_lot n literals.0,
    lt-eq-not-le max_lot x literals.2 n,
    lt-eq-not-le max_lot min_lot literals.2 literals.0,
    le_total x min_lot n literals.0,
    le_total x max_lot n literals.2,
  )

  -- A lot that is a number before it is clamped ends between 0.01 and 100.
  pub calculate_lot_bounds :
      (master_lot multiplier : F)
      → IsNumber (rounded_lot master_lot multiplier)
      → (min_lot ≼ calculate_lot master_lot multiplier)
        × (calculate_lot master_lot multiplier ≼ max_lot)
  unfolding calculate_lot
  calculate_lot_bounds master_lot multiplier n = clamp_lot_bounds _ n

  clamp_lot_mono : (x y : F) → IsNumber x → IsNumber y → x ≼ y → clamp_lot x ≼ clamp_lot y
  unfolding clamp_lot
  clamp_lot_mono x y n m h = ground (
    arith,
    literals,
    lt-eq-not-le x min_lot n literals.0,
    lt-eq-not-le max_lot x literals.2 n,
    lt-eq-not-le y min_lot m literals.0,
    lt-eq-not-le max_lot y literals.2 m,
    lt-eq-not-le max_lot min_lot literals.2 literals.0,
    le_total x min_lot n literals.0,
    le_total x max_lot n literals.2,
    le_total y min_lot m literals.0,
    le_total y max_lot m literals.2,
    le_trans x y max_lot h,
    le_trans min_lot x y,
    le_trans x y min_lot h,
  )

  -- For a master's lot that is not negative, a larger multiplier never gives a smaller lot, where
  -- the products and the rounded lots are numbers.
  pub calculate_lot_mono :
      (mono : IsMonotone F) (master_lot small large : F)
      → fl.hundredths 0 ≼ master_lot
      → small ≼ large
      → IsNumber (fl.mul master_lot small)
      → IsNumber (fl.mul master_lot large)
      → IsNumber (fl.mul (fl.mul master_lot small) (fl.hundredths 10_000))
      → IsNumber (fl.mul (fl.mul master_lot large) (fl.hundredths 10_000))
      → IsNumber (rounded_lot master_lot small)
      → IsNumber (rounded_lot master_lot large)
      → calculate_lot master_lot small ≼ calculate_lot master_lot large
  unfolding calculate_lot
  calculate_lot_mono mono master_lot small large nonneg h s l s' l' sn ln =
      let hundred : fl.hundredths 0 ≼ fl.hundredths 10_000 =
        le_literals 0 10_000 (omega arith) (omega arith) in
      let raw = mono.mul_mono_right master_lot small large nonneg h s l in
      let scaled = mono.mul_mono_left _ _ _ hundred raw s' l' in
      clamp_lot_mono _ _ sn ln (mono.div_100_mono _ _ (mono.round_mono _ _ scaled))
