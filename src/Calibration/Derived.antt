-- ===== src/Calibration/Derived.antt =====
-- The values that internal/calibration/calibration.go derives.
use stream_guard.Prelude.{
  ℕ, ℤ, pos, ◌<ℤ◌, false, ◌||◌, List, Option, none, some, Dict, ◌≡◌, subst, ap, ◌∙◌, arith,
}
use stream_guard.Double.{Double, IsOrdered}
use stream_guard.Calibration.{
  DerivedValue, count, clamp, derive, derive_from, percentile, silent_hang_deadline,
  drift_threshold,
}

module _ {ℓ} {W : Type ℓ} ⦃d : Double W⦄ where
  -- The final value lies within the bounds, and is marked as clamped exactly if the raw one does not.
  pub record IsWithin (lo hi : ℤ) (v : DerivedValue W) : Type 0 where
    pub above : d.lt v.final (d.of_ℤ lo) ≡ false
    pub below : d.lt (d.of_ℤ hi) v.final ≡ false
    pub marked : v.clamped ≡ (d.lt v.raw (d.of_ℤ lo) || d.lt (d.of_ℤ hi) v.raw)

  derive-IsWithin :
      (o : IsOrdered W) (raw : W) (lo hi : ℤ) (n : ℕ)
      → lo <ℤ hi
      → d.is_nan raw ≡ false
      → IsWithin lo hi (derive raw lo hi n)
  unfolding derive clamp
  derive-IsWithin o raw lo hi n h number = ground (
    arith,
    o.of_ℤ-lt lo hi h,
    o.lt_asym (d.of_ℤ lo) (d.of_ℤ hi),
    o.lt_asym raw (d.of_ℤ lo),
    o.lt_asym (d.of_ℤ lo) (d.of_ℤ lo),
    o.lt_asym (d.of_ℤ hi) (d.of_ℤ hi),
    o.eq_of_lt raw (d.of_ℤ lo),
    o.eq_of_lt (d.of_ℤ hi) raw,
    o.eq_refl raw number,
  )

  derive_from-IsWithin :
      (o : IsOrdered W) (x : Option W) (f : W → W) (lo hi : ℤ) (n : ℕ) (v : DerivedValue W)
      → lo <ℤ hi
      → derive_from x f lo hi n ≡ some v
      → d.is_nan v.raw ≡ false
      → IsWithin lo hi v
  unfolding derive
  derive_from-IsWithin o none f lo hi n v h e number = cc
  derive_from-IsWithin o (some p) f lo hi n v h e number =
      let same : derive (f p) lo hi n ≡ v = cc in
      subst (IsWithin lo hi) same (
        derive-IsWithin o (f p) lo hi n h
          (ap (λ (x : DerivedValue W). d.is_nan x.raw) same ∙ number))

-- The two derivations, as one.
pub data Quantity {ℓ} (W : Type ℓ) : Type ℓ where
  deadline : W → Quantity W
  threshold : Quantity W

module _ {ℓ} {W : Type ℓ} ⦃d : Double W⦄ where
  abbrev pub derived : Quantity W → Dict (List W) → Option (DerivedValue W)
  derived (deadline multiplier) l = silent_hang_deadline multiplier l
  derived threshold l = drift_threshold l

  abbrev bounds : Quantity W → ℤ × ℤ
  bounds (deadline multiplier) = (pos 1000, pos 15000)
  bounds threshold = (pos 1, pos 25)

  -- Let the comparisons be those of IEEE 754. A silent-hang deadline that is derived lies between 1000
  -- and 15000, and a drift threshold between 1 and 25, and each is marked as clamped exactly if the
  -- raw value, not NaN, lies outside.
  pub derived-IsWithin :
      (o : IsOrdered W) (q : Quantity W) (l : Dict (List W)) (v : DerivedValue W)
      → derived q l ≡ some v
      → d.is_nan v.raw ≡ false
      → IsWithin (bounds q).0 (bounds q).1 v
  unfolding silent_hang_deadline drift_threshold
  derived-IsWithin o (deadline multiplier) l v h n =
      derive_from-IsWithin o (percentile "inter_token_gap" (d.of_ℤ (pos 99)) l) _ (pos 1000)
        (pos 15000) (count "inter_token_gap" l) v (omega arith) h n
  derived-IsWithin o threshold l v h n =
      derive_from-IsWithin o (percentile "drift" (d.of_ℤ (pos 95)) l) (λ p95. p95) (pos 1) (pos 25)
        (count "drift" l) v (omega arith) h n
