-- ===== src/Double.antt =====
-- What the program does with a `float64`, as an interface: there are no floats to compute with.
use stream_guard.Prelude.{ℤ, ◌<ℤ◌, Bool, true, false, ◌≡◌}

pub record Double {ℓ} (W : Type ℓ) : Type ℓ where
  pub of_ℤ : ℤ → W
  pub lt : W → W → Bool
  pub le : W → W → Bool
  pub eq : W → W → Bool
  pub mul : W → W → W
  pub div : W → W → W
  pub abs : W → W
  pub ceil : W → ℤ  -- `int(math.Ceil(x))`
  pub trunc : W → ℤ  -- `int(x)`
  pub is_nan : W → Bool
  pub is_inf : W → Bool

-- What IEEE 754 says of the comparisons: NaN is not less than anything, nor anything than it, and the
-- other values are ordered, with equal ones, such as the two zeros, side by side.
pub record IsOrdered {ℓ} (W : Type ℓ) ⦃d : Double W⦄ : Type ℓ where
  pub lt_asym : (x y : W) → d.lt x y ≡ true → d.lt y x ≡ false
  pub lt_through :
      (x y z : W) → d.is_nan y ≡ false → d.lt x y ≡ false → d.lt y z ≡ false → d.lt x z ≡ false
  pub eq_refl : (x : W) → d.is_nan x ≡ false → d.eq x x ≡ true
  pub eq_of_lt : (x y : W) → d.lt x y ≡ true → (d.eq x y ≡ false) × (d.eq y x ≡ false)
  pub of_ℤ-lt : (a b : ℤ) → a <ℤ b → d.lt (d.of_ℤ a) (d.of_ℤ b) ≡ true
