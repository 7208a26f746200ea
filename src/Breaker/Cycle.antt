-- ===== src/Breaker/Cycle.antt =====
-- The breaker's cycle: it trips, refuses, lets one probe through, and recovers or relapses.
use stream_guard.Prelude.{
  ℕ, suc, ◌+◌, ◌≤◌, ℤ, pos, ◌-ℤ◌, ◌<ℤ◌, ◌≡◌, refl, ◌⊎◌, inl, inr, Bool, true, false, arith, List,
  [], ◌∷◌, if◌then◌else◌, All, length, ◌≢◌,
}
use stream_guard.Breaker.{
  closed, open_, half_open, ProviderCircuitState, try_claim_probe, allow_attempt, record_success,
  record_failure,
}
use stream_guard.Breaker.Invariant.{
  Call, get_state, claim, allow, success, failure, snap, step, run,
}

-- In the open state before the timeout, both kinds of attempt are refused and change nothing.
open-refuses :
    (now : ℤ) (s : ProviderCircuitState)
    → s.state ≡ open_
    → now -ℤ s.last_state_change <ℤ s.cfg.open_timeout
    → (allow_attempt now s ≡ (s, false)) × (try_claim_probe now s ≡ (s, false))
unfolding allow_attempt try_claim_probe
open-refuses now s o early = ground arith

-- The calls that record no outcome.
abbrev is_asking : Call → Bool
is_asking success = false
is_asking failure = false
is_asking _ = true

-- How many attempts a sequence of calls is granted.
unfoldable pub grants : ProviderCircuitState → List (ℤ × Call) → ℕ
grants s [] = 0
grants s ((now, c) ∷ cs) =
    let rest = grants (step now c s).0 cs in if (step now c s).1 then suc rest else rest

-- Calls that record no outcome.
abbrev IsAsking : List (ℤ × Call) → Type 0
IsAsking = All λ c. is_asking c.1 ≡ true

claimed-step :
    (now : ℤ) (c : Call) (s : ProviderCircuitState)
    → s.state ≡ half_open
    → s.probing ≡ true
    → is_asking c ≡ true
    → step now c s ≡ (s, false)
unfolding step
claimed-step now get_state s h p a = ground arith
claimed-step now claim s h p a = ground arith
claimed-step now allow s h p a = ground arith
claimed-step now success s h p a = cc
claimed-step now failure s h p a = cc
claimed-step now snap s h p a = ground arith

-- While a probe is out in the half-open state, calls that record no outcome, at any times, are granted
-- nothing and change nothing.
pub claimed_blocks :
    (s : ProviderCircuitState) (cs : List (ℤ × Call))
    → s.state ≡ half_open
    → s.probing ≡ true
    → IsAsking cs
    → (grants s cs ≡ 0) × (run s cs ≡ s)
unfolding grants run
claimed_blocks s [] h p a = (refl, refl)
claimed_blocks s ((now, c) ∷ cs) h p a =
    rw (claimed-step now c s h p a.0) (claimed_blocks s cs h p a.1)

asking-step :
    (now : ℤ) (c : Call) (s : ProviderCircuitState)
    → s.state ≢ closed
    → is_asking c ≡ true
    → (((step now c s).1 ≡ false) × ((step now c s).0.state ≢ closed))
      ⊎ (((step now c s).1 ≡ true)
          × ((step now c s).0.state ≡ half_open)
          × ((step now c s).0.probing ≡ true))
unfolding step
asking-step now get_state s h a = ground arith
asking-step now claim s h a = ground arith
asking-step now allow s h a = ground arith
asking-step now success s h a = cc
asking-step now failure s h a = cc
asking-step now snap s h a = ground arith

-- From a breaker that is not closed, any calls that record no outcome, at any times, are granted one
-- attempt at most.
pub probe_exclusive :
    (s : ProviderCircuitState) (cs : List (ℤ × Call))
    → s.state ≢ closed
    → IsAsking cs
    → grants s cs ≤ 1
unfolding grants
probe_exclusive s [] h a = omega arith
probe_exclusive s ((now, c) ∷ cs) h a = elim (asking-step now c s h a.0) [
  | inl refused ↦ rw refused.0 (probe_exclusive (step now c s).0 cs refused.1 a.1)
  | inr (given, half, out) ↦
      rw (given, (claimed_blocks (step now c s).0 cs half out a.1).0) (omega arith)
]

-- Failures, or successes, reported one after another at the listed times.
unfoldable pub failures : ProviderCircuitState → List ℤ → ProviderCircuitState
failures s [] = s
failures s (now ∷ times) = failures (record_failure now s) times

unfoldable successes : ProviderCircuitState → List ℤ → ProviderCircuitState
successes s [] = s
successes s (now ∷ times) = successes (record_success now s) times

failure-stays :
    (now : ℤ) (s : ProviderCircuitState)
    → s.state ≡ closed
    → pos (s.consecutive_failures + 1) <ℤ s.cfg.failure_threshold
    → ((record_failure now s).state ≡ closed)
      × ((record_failure now s).consecutive_failures ≡ s.consecutive_failures + 1)
      × ((record_failure now s).cfg ≡ s.cfg)
unfolding record_failure
failure-stays now s c h = ground arith

failure-trips :
    (now : ℤ) (s : ProviderCircuitState)
    → s.state ≡ closed
    → pos (s.consecutive_failures + 1) ≡ s.cfg.failure_threshold
    → ((record_failure now s).state ≡ open_) × ((record_failure now s).last_state_change ≡ now)
unfolding record_failure
failure-trips now s c h = ground arith

-- A closed breaker stays closed under failures whose number, with those before, stays one below the
-- threshold, and the next failure opens it at its time.
failures-open :
    (s : ProviderCircuitState) (times : List ℤ) (now : ℤ)
    → s.state ≡ closed
    → pos (s.consecutive_failures + length times + 1) ≡ s.cfg.failure_threshold
    → ((failures s times).state ≡ closed)
      × ((record_failure now (failures s times)).state ≡ open_)
      × ((record_failure now (failures s times)).last_state_change ≡ now)
unfolding failures
failures-open s [] now c h = let (o, t) = failure-trips now s c (ground arith) in (c, o, t)
failures-open s (t ∷ times) now c h =
    let (c', f, k) = failure-stays t s c (ground arith) in
    failures-open (record_failure t s) times now c' (ground (arith, f, k))

success-half :
    (now : ℤ) (s : ProviderCircuitState)
    → s.state ≡ half_open
    → pos (s.consecutive_success + 1) <ℤ s.cfg.half_open_success_threshold
    → ((record_success now s).state ≡ half_open)
      × ((record_success now s).consecutive_success ≡ s.consecutive_success + 1)
      × ((record_success now s).probing ≡ false)
      × ((record_success now s).cfg ≡ s.cfg)
unfolding record_success
success-half now s c h = ground arith

success-closes :
    (now : ℤ) (s : ProviderCircuitState)
    → s.state ≡ half_open
    → pos (s.consecutive_success + 1) ≡ s.cfg.half_open_success_threshold
    → ((record_success now s).state ≡ closed)
      × ((record_success now s).consecutive_failures ≡ 0)
      × ((record_success now s).probing ≡ false)
unfolding record_success
success-closes now s c h = ground arith

-- A half-open breaker stays so under successes whose number, with those before, stays one below the
-- threshold, and the next success closes it and forgets the failures.
successes-close :
    (s : ProviderCircuitState) (times : List ℤ) (now : ℤ)
    → s.state ≡ half_open
    → pos (s.consecutive_success + length times + 1) ≡ s.cfg.half_open_success_threshold
    → ((successes s times).state ≡ half_open)
      × ((record_success now (successes s times)).state ≡ closed)
      × ((record_success now (successes s times)).consecutive_failures ≡ 0)
unfolding successes
successes-close s [] now c h = let (o, f, p) = success-closes now s c (ground arith) in (c, o, f)
successes-close s (t ∷ times) now c h =
    let (c', n, p, k) = success-half t s c (ground arith) in
    successes-close (record_success t s) times now c' (ground (arith, n, k))
