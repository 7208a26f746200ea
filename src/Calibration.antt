-- ===== src/Calibration.antt =====
-- internal/calibration/calibration.go: samples by kind, percentiles, and the values derived from them.
-- Each method that holds the mutex is one step. `sort.Float64s` is insertion here: the samples hold no
-- NaN, and on other values every sort gives the same list but for the order of the two zeros.
pub mod Rank
pub mod Derived
use stream_guard.Prelude.{
  ℕ, zero, suc, ◌-◌, ℤ, pos, ◌-ℤ◌, pos_part, Bool, true, false, not, ◌||◌, List, [], ◌∷◌, ◌++◌,
  Option, none, some, String, Dict, lookup, insert, length, leb, ltb_ℤ, leb_ℤ, if◌then◌else◌,
}
use stream_guard.Double.{Double}

module _ {ℓ} {W : Type ℓ} ⦃d : Double W⦄ where
  -- A missing kind reads as the nil slice.
  abbrev pub slice_of : Option (List W) → List W
  slice_of none = []
  slice_of (some values) = values

  unfoldable pub values_of : String → Dict (List W) → List W
  values_of kind l = slice_of (lookup kind l)

  -- What `Sample` takes.
  unfoldable pub is_sample : W → Bool
  is_sample value = not (d.lt value (d.of_ℤ (pos 0)) || d.is_nan value || d.is_inf value)

  unfoldable pub sample : String → W → Dict (List W) → Dict (List W)
  unfolding is_sample values_of
  sample kind value l =
      if is_sample value then insert kind (values_of kind l ++ value ∷ []) l else l

  unfoldable pub count : String → Dict (List W) → ℕ
  unfolding values_of
  count kind l = length (values_of kind l)

  unfoldable pub place : W → List W → List W
  place x [] = x ∷ []
  place x (y ∷ ys) = let rest = place x ys in if d.lt x y then x ∷ y ∷ ys else y ∷ rest

  unfoldable pub sort : List W → List W
  unfolding place
  sort [] = []
  sort (x ∷ xs) = place x (sort xs)

  -- The index of the nearest rank, as the code rounds it, kept inside a slice of `suc n` values.
  unfoldable pub rank : W → ℕ → ℕ
  rank pct n =
      let idx = d.ceil (d.mul (d.div pct (d.of_ℤ (pos 100))) (d.of_ℤ (pos (suc n)))) -ℤ pos 1 in
      if ltb_ℤ idx (pos 0) then 0 else if leb_ℤ (pos (suc n)) idx then n else pos_part idx

  -- Where `Percentile` looks in the sorted slice of `suc n` values.
  unfoldable pub index : W → ℕ → ℕ
  unfolding rank
  index pct n =
      if d.le pct (d.of_ℤ (pos 0)) then 0 else if d.le (d.of_ℤ (pos 100)) pct then n else rank pct n

  unfoldable pub nth : W → List W → ℕ → W
  nth v [] i = v
  nth v (x ∷ xs) zero = x
  nth v (x ∷ xs) (suc i) = nth v xs i

  -- `Percentile` of the values of a kind.
  unfoldable pub percentile_of : W → List W → Option W
  unfolding index sort nth
  percentile_of pct [] = none
  percentile_of pct (v ∷ vs) = some (nth v (sort (v ∷ vs)) (index pct (length vs)))

  unfoldable pub percentile : String → W → Dict (List W) → Option W
  unfolding values_of percentile_of
  percentile kind pct l = percentile_of pct (values_of kind l)

  unfoldable pub clamp : W → W → W → W
  clamp v lo hi = if d.lt v lo then lo else if d.lt hi v then hi else v

pub record DerivedValue {ℓ} (W : Type ℓ) : Type ℓ where
  pub raw : W
  pub final : W
  pub clamped : Bool
  pub sample_count : ℕ

module _ {ℓ} {W : Type ℓ} ⦃d : Double W⦄ where
  -- The result of the two methods, from the raw value and the bounds.
  unfoldable pub derive : W → ℤ → ℤ → ℕ → DerivedValue W
  unfolding clamp
  derive raw lo hi n =
      let final = clamp raw (d.of_ℤ lo) (d.of_ℤ hi) in
      record { raw = raw; final = final; clamped = not (d.eq raw final); sample_count = n }

  abbrev pub derive_from : Option W → (W → W) → ℤ → ℤ → ℕ → Option (DerivedValue W)
  derive_from none f lo hi n = none
  derive_from (some v) f lo hi n = some (derive (f v) lo hi n)

  unfoldable pub silent_hang_deadline : W → Dict (List W) → Option (DerivedValue W)
  unfolding percentile derive count
  silent_hang_deadline multiplier l =
      let m = if d.le multiplier (d.of_ℤ (pos 0)) then d.of_ℤ (pos 5) else multiplier in
      derive_from (percentile "inter_token_gap" (d.of_ℤ (pos 99)) l) (λ p99. d.mul p99 m) (pos 1000)
        (pos 15000) (count "inter_token_gap" l)

  unfoldable pub drift_threshold : Dict (List W) → Option (DerivedValue W)
  unfolding percentile derive count
  drift_threshold l =
      derive_from (percentile "drift" (d.of_ℤ (pos 95)) l) (λ p95. p95) (pos 1) (pos 25)
        (count "drift" l)

  unfoldable pub ready_for_silent_hang_calibration : Dict (List W) → Bool
  unfolding count
  ready_for_silent_hang_calibration l = leb 1000 (count "inter_token_gap" l)

  unfoldable pub ready_for_drift_calibration : Dict (List W) → Bool
  unfolding count
  ready_for_drift_calibration l = leb 100 (count "drift" l)
