-- ===== src/Parser/Next/Silence.antt =====
-- When the reader of internal/parser/parser.go takes an upstream for hanging.
use stream_guard.Prelude.{
  ℤ, ◌+ℤ◌, ◌≤ℤ◌, ◌<ℤ◌, Bool, true, false, ◌&&◌, if◌then◌else◌, List, [], ◌∷◌, ◌++◌, Option, none,
  some, leb_ℤ, ◌≡◌, ◌≢◌, refl, ap, arith, Bool-cases, inl, inr,
}
use stream_guard.Double.{Double}
use stream_guard.Parser.Next.{
  Event, canceled, active, frame, failed, Look, silent_hang, Ending, Reader, wait, next,
}

module _ {ℓ} {A : Type ℓ} where
  -- When the upstream was last active, in a look or before the looks.
  abbrev pub last_active : ℤ → List (Look A) → ℤ
  last_active since [] = since
  last_active since ((now, some active, draws_timer) ∷ looks) = last_active now looks
  last_active since ((now, ready, draws_timer) ∷ looks) = last_active since looks

  -- Nothing but activity is found.
  abbrev pub IsWaiting : List (Look A) → Type 0
  IsWaiting [] = Unit
  IsWaiting ((now, none, draws_timer) ∷ looks) = IsWaiting looks
  IsWaiting ((now, some active, draws_timer) ∷ looks) = IsWaiting looks
  IsWaiting ((now, some e, draws_timer) ∷ looks) = ⊥

  -- Every look of the call comes less than the deadline after the last activity.
  abbrev pub IsLively : ℤ → ℤ → List (Look A) → Type 0
  IsLively deadline since [] = Unit
  IsLively deadline since ((now, none, draws_timer) ∷ looks) =
      (now <ℤ (since +ℤ deadline)) × IsLively deadline since looks
  IsLively deadline since ((now, some active, draws_timer) ∷ looks) =
      (now <ℤ (since +ℤ deadline)) × IsLively deadline now looks
  IsLively deadline since ((now, some e, draws_timer) ∷ looks) = now <ℤ (since +ℤ deadline)

  -- Where among the looks a call that began at `since` takes the upstream for hanging at `at`: a look
  -- before which only activity was found, at least the deadline after the last of it.
  pub record Hangs (deadline since at : ℤ) (looks : List (Look A)) : Type ℓ where
    pub before : List (Look A)
    pub ready : Option (Event A)
    pub draws_timer : Bool
    pub after : List (Look A)
    pub split : looks ≡ before ++ (at, ready, draws_timer) ∷ after
    pub waited : IsWaiting before
    pub passed : (last_active since before +ℤ deadline) ≤ℤ at

  here :
      (deadline since now at : ℤ) (ready : Option (Event A)) (draws_timer : Bool)
      (looks : List (Look A))
      → now ≡ at
      → (since +ℤ deadline) ≤ℤ now
      → Hangs deadline since at ((now, ready, draws_timer) ∷ looks)
  here deadline since now at ready draws_timer looks same due = record {
    before = [];
    ready = ready;
    draws_timer = draws_timer;
    after = looks;
    split = ap (λ x. (x, ready, draws_timer) ∷ looks) same;
    waited = tt;
    passed = rw (← same) due;
  }

  later :
      (deadline since since' at : ℤ) (look : Look A) (looks : List (Look A))
      (k : Hangs deadline since' at looks)
      → IsWaiting (look ∷ k.before)
      → (last_active since (look ∷ k.before) +ℤ deadline) ≤ℤ at
      → Hangs deadline since at (look ∷ looks)
  later deadline since since' at look looks k waited passed = record {
    before = look ∷ k.before;
    ready = k.ready;
    draws_timer = k.draws_timer;
    after = k.after;
    split = ap (λ l. look ∷ l) k.split;
    waited = waited;
    passed = passed;
  }

  module _ {κ} {W : Type κ} ⦃d : Double W⦄ where
    -- A call that hangs where something else would end it has drawn the timer.
    drawn :
        (due b : Bool) (r r' : Reader W) (now at : ℤ) (other : Ending A × ℤ)
        → other ≢ (silent_hang, at)
        → let o : Reader W × (Ending A × ℤ) =
            if due && b then (r, (silent_hang, now)) else (r', other) in
          o.1 ≡ (silent_hang, at) → (due ≡ true) × (now ≡ at)
    drawn true true r r' now at other apart h = (refl, ap (λ o. o.1) h)
    drawn true false r r' now at other apart h = absurd (apart h)
    drawn false b r r' now at other apart h = absurd (apart h)

    wait-Hangs :
        (deadline since at : ℤ) (looks : List (Look A)) (r : Reader W)
        → (wait deadline (since +ℤ deadline) looks r).1 ≡ (silent_hang, at)
        → Hangs deadline since at looks
    unfolding wait
    wait-Hangs deadline since at [] r h = cc
    wait-Hangs deadline since at ((now, none, b) ∷ looks) r h =
        elim (Bool-cases (leb_ℤ (since +ℤ deadline) now)) [
          | inl due ↦
              here deadline since now at none b looks (ap (λ o. o.1) (rw due at h)) (ground arith)
          | inr early ↦
              let k = wait-Hangs deadline since at looks r (rw early at h) in
              later deadline since since at (now, none, b) looks k k.waited k.passed
        ]
    wait-Hangs deadline since at ((now, some active, b) ∷ looks) r h =
        elim (Bool-cases (leb_ℤ (since +ℤ deadline) now && b)) [
          | inl due ↦
              here deadline since now at (some active) b looks (ap (λ o. o.1) (rw due at h))
                (ground arith)
          | inr early ↦
              let k = wait-Hangs deadline now at looks r (rw early at h) in
              later deadline since now at (now, some active, b) looks k k.waited k.passed
        ]
    wait-Hangs deadline since at ((now, some canceled, b) ∷ looks) r h =
        let (due, same) = drawn (leb_ℤ (since +ℤ deadline) now) b r _ now at _ (λ e. cc) h in
        here deadline since now at (some canceled) b looks same (ground arith)
    wait-Hangs deadline since at ((now, some (frame a), b) ∷ looks) r h =
        let (due, same) = drawn (leb_ℤ (since +ℤ deadline) now) b r _ now at _ (λ e. cc) h in
        here deadline since now at (some (frame a)) b looks same (ground arith)
    wait-Hangs deadline since at ((now, some failed, b) ∷ looks) r h =
        let (due, same) = drawn (leb_ℤ (since +ℤ deadline) now) b r _ now at _ (λ e. cc) h in
        here deadline since now at (some failed) b looks same (ground arith)

    lively_looks :
        (deadline since at : ℤ) (looks : List (Look A)) (r : Reader W)
        → IsLively deadline since looks
        → (wait deadline (since +ℤ deadline) looks r).1 ≢ (silent_hang, at)
    unfolding wait
    lively_looks deadline since at [] r l e = cc
    lively_looks deadline since at ((now, none, b) ∷ looks) r l e =
        ground (arith, lively_looks deadline since at looks r l.1)
    lively_looks deadline since at ((now, some active, b) ∷ looks) r l e =
        ground (arith, lively_looks deadline now at looks r l.1)
    lively_looks deadline since at ((now, some canceled, b) ∷ looks) r l e = ground arith
    lively_looks deadline since at ((now, some (frame a), b) ∷ looks) r l e = ground arith
    lively_looks deadline since at ((now, some failed, b) ∷ looks) r l e = ground arith

    hang_noticed :
        (deadline since at : ℤ) (before after : List (Look A)) (draws_timer : Bool) (r : Reader W)
        → IsWaiting before
        → IsLively deadline since before
        → (last_active since before +ℤ deadline) ≤ℤ at
        → (wait deadline (since +ℤ deadline) (before ++ (at, none, draws_timer) ∷ after) r).1
          ≡ (silent_hang, at)
    unfolding wait
    hang_noticed deadline since at [] after b r w l due = ground arith
    hang_noticed deadline since at ((now, none, b') ∷ looks) after b r w l due =
        ground (arith, hang_noticed deadline since at looks after b r w l.1 due)
    hang_noticed deadline since at ((now, some active, b') ∷ looks) after b r w l due =
        ground (arith, hang_noticed deadline now at looks after b r w l.1 due)
    hang_noticed deadline since at ((now, some canceled, b') ∷ looks) after b r w l due = elim w [ ]
    hang_noticed deadline since at ((now, some (frame _), b') ∷ looks) after b r w l due =
        elim w [ ]
    hang_noticed deadline since at ((now, some failed, b') ∷ looks) after b r w l due = elim w [ ]

    -- A call takes the upstream for hanging only at a look before which nothing but activity was found,
    -- and which comes at least the deadline after the last activity, or after the call's start, if
    -- there was none. No call does so each of whose looks comes less than the deadline after the
    -- activity before it, however long the frame takes. And a call does so that has had only such looks
    -- and activity, at a look that comes at least the deadline after the last of it and finds nothing.
    pub next-silence :
        (deadline start at : ℤ) (looks : List (Look A)) (r : Reader W)
        → ((next deadline start looks r).1 ≡ (silent_hang, at) → Hangs deadline start at looks)
          × (IsLively deadline start looks → (next deadline start looks r).1 ≢ (silent_hang, at))
          × ((after : List (Look A)) (draws_timer : Bool)
              → IsWaiting looks
              → IsLively deadline start looks
              → (last_active start looks +ℤ deadline) ≤ℤ at
              → (next deadline start (looks ++ (at, none, draws_timer) ∷ after) r).1
                ≡ (silent_hang, at))
    unfolding next
    next-silence deadline start at looks r = (
      wait-Hangs deadline start at looks r,
      lively_looks deadline start at looks r,
      λ after draws_timer. hang_noticed deadline start at looks after draws_timer r,
    )
