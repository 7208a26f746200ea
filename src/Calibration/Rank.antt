-- ===== src/Calibration/Rank.antt =====
-- What the percentiles of internal/calibration/calibration.go mean.
use stream_guard.Prelude.{
  ℕ, zero, suc, ◌≤◌, ◌<◌, Bool, true, false, not, List, [], ◌∷◌, ◌++◌, some, String, ◌==◌, eq_iff,
  Dict, lookup, lookup-insert, length, subst, All, All-append, if◌then◌else◌, ◌≡◌, refl, ap, arith,
  Bool-cases, inl, inr,
}
use stream_guard.Double.{Double, IsOrdered}
use stream_guard.Calibration.{
  slice_of, values_of, is_sample, sample, place, sort, rank, index, nth, percentile_of,
}

-- How many elements pass a test.
abbrev pub count_if {ℓ} : {A : Type ℓ} → (A → Bool) → List A → ℕ
count_if p [] = 0
count_if p (x ∷ xs) = if p x then suc (count_if p xs) else count_if p xs

module _ {ℓ} {W : Type ℓ} ⦃d : Double W⦄ where
  abbrev pub AreNumbers : List W → Type 0
  AreNumbers = All λ x. d.is_nan x ≡ false

  -- No element is less than an earlier one.
  abbrev IsSorted : List W → Type 0
  IsSorted [] = Unit
  IsSorted (x ∷ xs) = All (λ y. d.lt y x ≡ false) xs × IsSorted xs

  count_if-place :
      (p : W → Bool) (x : W) (ys : List W) → count_if p (place x ys) ≡ count_if p (x ∷ ys)
  unfolding place
  count_if-place p x [] = refl
  count_if-place p x (y ∷ ys) = ground (arith, count_if-place p x ys)

  count_if-sort : (p : W → Bool) (xs : List W) → count_if p (sort xs) ≡ count_if p xs
  unfolding sort
  count_if-sort p [] = refl
  count_if-sort p (x ∷ xs) = ground (arith, count_if-place p x (sort xs), count_if-sort p xs)

  length-place : (x : W) (ys : List W) → length (place x ys) ≡ suc (length ys)
  unfolding place
  length-place x [] = refl
  length-place x (y ∷ ys) = ground (arith, length-place x ys)

  length-sort : (xs : List W) → length (sort xs) ≡ length xs
  unfolding sort
  length-sort [] = refl
  length-sort (x ∷ xs) = ground (arith, length-place x (sort xs), length-sort xs)

  All-place {κ} : (P : W → Type κ) (x : W) (ys : List W) → P x → All P ys → All P (place x ys)
  unfolding place
  All-place P x [] px pys = (px, tt)
  All-place P x (y ∷ ys) px pys = elim (Bool-cases (d.lt x y)) [
    | inl e ↦ rw e (px, pys)
    | inr e ↦ rw e (pys.0, All-place P x ys px pys.1)
  ]

  AreNumbers-sort : (xs : List W) → AreNumbers xs → AreNumbers (sort xs)
  unfolding sort
  AreNumbers-sort [] h = tt
  AreNumbers-sort (x ∷ xs) h = All-place _ x (sort xs) h.0 (AreNumbers-sort xs h.1)

  module _ (o : IsOrdered W) where
    All-through :
        (x y : W) (zs : List W)
        → d.is_nan y ≡ false
        → d.lt y x ≡ false
        → All (λ z. d.lt z y ≡ false) zs
        → All (λ z. d.lt z x ≡ false) zs
    All-through x y [] n h hs = tt
    All-through x y (z ∷ zs) n h hs = (o.lt_through z y x n hs.0 h, All-through x y zs n h hs.1)

    place-IsSorted : (x : W) (ys : List W) → AreNumbers ys → IsSorted ys → IsSorted (place x ys)
    unfolding place
    place-IsSorted x [] n s = (tt, tt)
    place-IsSorted x (y ∷ ys) n s = elim (Bool-cases (d.lt x y)) [
      | inl e ↦ rw e (let h = o.lt_asym x y e in ((h, All-through x y ys n.0 h s.0), s))
      | inr e ↦ rw e (All-place _ x ys e s.0, place-IsSorted x ys n.1 s.1)
    ]

    sort-IsSorted : (xs : List W) → AreNumbers xs → IsSorted (sort xs)
    unfolding sort
    sort-IsSorted [] n = tt
    sort-IsSorted (x ∷ xs) n =
        place-IsSorted x (sort xs) (AreNumbers-sort xs n.1) (sort-IsSorted xs n.1)

    lt_irrefl : (x : W) → d.lt x x ≡ false
    lt_irrefl x = ground (arith, o.lt_asym x x)

    none_below :
        (x : W) (ys : List W) → All (λ y. d.lt y x ≡ false) ys → count_if (λ y. d.lt y x) ys ≡ 0
    none_below x [] h = refl
    none_below x (y ∷ ys) h = rw h.0 (none_below x ys h.1)

    nth-All :
        (v x : W) (ys : List W) (i : ℕ)
        → i < length ys
        → All (λ y. d.lt y x ≡ false) ys
        → d.lt (nth v ys i) x ≡ false
    unfolding nth
    nth-All v x [] i h hs = elim h [ ]
    nth-All v x (y ∷ ys) zero h hs = hs.0
    nth-All v x (y ∷ ys) (suc i) h hs = nth-All v x ys i (omega arith) hs.1

    -- At index `i` of a sorted slice stands a value with at most `i` values below it, and more than
    -- `i` that are not above it.
    nth_rank :
        (v : W) (xs : List W) (i : ℕ)
        → IsSorted xs
        → i < length xs
        → (count_if (λ x. d.lt x (nth v xs i)) xs ≤ i)
          × (i < count_if (λ x. not (d.lt (nth v xs i) x)) xs)
    unfolding nth
    nth_rank v [] i s h = elim h [ ]
    nth_rank v (x ∷ xs) zero s h = rw (lt_irrefl x, none_below x xs s.0) (omega arith, omega arith)
    nth_rank v (x ∷ xs) (suc i) s h =
        let (low, high) = nth_rank v xs i s.1 (omega arith) in
        rw (nth-All v x xs i (omega arith) s.0) (ground arith, omega arith)

    index-le : (pct : W) (n : ℕ) → index pct n ≤ n
    unfolding index rank
    index-le pct n = ground arith

    -- Counted in any order, the value at an index of the sorted slice.
    sorted_rank :
        (v : W) (xs : List W) (i : ℕ)
        → AreNumbers xs
        → i < length xs
        → (count_if (λ x. d.lt x (nth v (sort xs) i)) xs ≤ i)
          × (i < count_if (λ x. not (d.lt (nth v (sort xs) i) x)) xs)
    sorted_rank v xs i n h =
        let w = nth v (sort xs) i in
        let (low, high) =
          nth_rank v (sort xs) i (sort-IsSorted xs n) (omega (arith, length-sort xs)) in
        (
          subst (λ k. k ≤ i) (count_if-sort (λ x. d.lt x w) xs) low,
          subst (λ k. i < k) (count_if-sort (λ x. not (d.lt w x)) xs) high,
        )

    -- Let the comparisons be those of IEEE 754. The percentile of values without NaN is the value at
    -- `index`, in order: at most so many of the values are less than it, and more than so many are not
    -- greater.
    pub percentile_of_rank :
        (pct w v : W) (vs : List W)
        → AreNumbers (v ∷ vs)
        → percentile_of pct (v ∷ vs) ≡ some w
        → (count_if (λ x. d.lt x w) (v ∷ vs) ≤ index pct (length vs))
          × (index pct (length vs) < count_if (λ x. not (d.lt w x)) (v ∷ vs))
    unfolding percentile_of
    percentile_of_rank pct w v vs n h =
        let e : nth v (sort (v ∷ vs)) (index pct (length vs)) ≡ w = cc in
        subst
          (λ w.
            (count_if (λ x. d.lt x w) (v ∷ vs) ≤ index pct (length vs))
            × (index pct (length vs) < count_if (λ x. not (d.lt w x)) (v ∷ vs)))
          e
          (sorted_rank v (v ∷ vs) (index pct (length vs)) n
            (omega (arith, index-le pct (length vs))))

  -- The samples of every kind are numbers.
  abbrev pub IsClean : Dict (List W) → Type 0
  IsClean l = (kind : String) → AreNumbers (values_of kind l)

  values_of-sample :
      (kind k : String) (value : W) (l : Dict (List W))
      → values_of k (sample kind value l) ≡ (
          if kind == k
          then if is_sample value then values_of k l ++ value ∷ [] else values_of k l
          else values_of k l)
  unfolding sample values_of
  values_of-sample kind k value l = elim (Bool-cases (is_sample value)) [
    | inr skipped ↦ rw skipped (ground arith)
    | inl taken ↦
        rw (taken, lookup-insert kind k (slice_of (lookup kind l) ++ value ∷ []) l)
          (elim (Bool-cases (kind == k)) [
            | inl e ↦ rw (e, ap (λ j. lookup j l) ((eq_iff kind k).0 e)) refl
            | inr e ↦ rw e refl
          ])
  ]

  is_sample-number : (value : W) → is_sample value ≡ true → d.is_nan value ≡ false
  unfolding is_sample
  is_sample-number value h = ground arith

  grown_AreNumbers :
      (value : W) (own : Bool) (values : List W)
      → AreNumbers values
      → AreNumbers
          (if own then if is_sample value then values ++ value ∷ [] else values else values)
  grown_AreNumbers value false values h = h
  grown_AreNumbers value true values h = elim (Bool-cases (is_sample value)) [
    | inl taken ↦ rw taken (All-append _ values (value ∷ []) h (is_sample-number value taken, tt))
    | inr skipped ↦ rw skipped h
  ]

  -- Whatever is sampled, samples without NaN stay so; a value that is below zero, NaN or infinite
  -- changes nothing, and any other is added, last, to its own kind only.
  pub sample-IsClean :
      (kind : String) (value : W) (l : Dict (List W))
      → IsClean l
      → IsClean (sample kind value l)
        × ((k : String)
            → values_of k (sample kind value l) ≡ (
                if kind == k
                then if is_sample value then values_of k l ++ value ∷ [] else values_of k l
                else values_of k l))
  sample-IsClean kind value l clean = (
    λ k.
        rw (values_of-sample kind k value l)
          (grown_AreNumbers value (kind == k) (values_of k l) (clean k)),
    λ k. values_of-sample kind k value l,
  )
