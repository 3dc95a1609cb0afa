-- ===== src/Go/Float.antt =====
-- What the program does with a `float64`. The type and its operations are a parameter; the laws are
-- those of IEEE 754 that a theorem names.
use mt5_bridge.Prelude.{ℕ, ◌≡◌, ◌≤◌, ◌⊎◌, Bool, true, not, leb}

-- `hundredths n` is the float64 nearest to n / 100, by which the source's literals are written.
-- `decimal_6_2` is what a `DECIMAL(6,2)` column gives back for a value that it accepts.
pub record Float64 (F : Type 0) : Type 0 where
  pub hundredths : ℕ → F
  pub le : F → F → Bool
  pub lt : F → F → Bool
  pub float_eq : F → F → Bool
  pub mul : F → F → F
  pub div : F → F → F
  pub round : F → F
  pub decimal_6_2 : F → F

infix 4 ◌≼◌
abbrev pub ◌≼◌ : {F : Type 0} ⦃fl : Float64 F⦄ → F → F → Type 0
◌≼◌ ⦃fl⦄ x y = fl.le x y ≡ true

-- NaN is the value that is not `<=` itself.
abbrev pub IsNumber : {F : Type 0} ⦃fl : Float64 F⦄ → F → Type 0
IsNumber x = x ≼ x

-- The order is total away from NaN, and the literals up to 100 are ordered as they are written.
pub record IsOrdered (F : Type 0) ⦃fl : Float64 F⦄ : Type 0 where
  pub le_literals :
      (a b : ℕ) → a ≤ 10_000 → b ≤ 10_000 → fl.le (fl.hundredths a) (fl.hundredths b) ≡ leb a b
  pub le_total : (x y : F) → IsNumber x → IsNumber y → (x ≼ y) ⊎ (y ≼ x)
  pub le_trans : (x y z : F) → x ≼ y → y ≼ z → x ≼ z
  pub lt-eq-not-le : (x y : F) → IsNumber x → IsNumber y → fl.lt x y ≡ not (fl.le y x)

-- Multiplication by a factor that is not negative, rounding to an integer, and division by 100 are
-- monotone, on numbers.
pub record IsMonotone (F : Type 0) ⦃fl : Float64 F⦄ : Type 0 where
  pub mul_mono_right :
      (c x y : F)
      → fl.hundredths 0 ≼ c
      → x ≼ y
      → IsNumber (fl.mul c x)
      → IsNumber (fl.mul c y)
      → fl.mul c x ≼ fl.mul c y
  pub mul_mono_left :
      (x y c : F)
      → fl.hundredths 0 ≼ c
      → x ≼ y
      → IsNumber (fl.mul x c)
      → IsNumber (fl.mul y c)
      → fl.mul x c ≼ fl.mul y c
  pub round_mono : (x y : F) → x ≼ y → fl.round x ≼ fl.round y
  pub div_100_mono :
      (x y : F) → x ≼ y → fl.div x (fl.hundredths 10_000) ≼ fl.div y (fl.hundredths 10_000)
