-- ===== src/Tests/Breakers.antt =====
-- A breaker that opens at the second failure, waits one second and closes after two successes.
use stream_guard.Prelude.{ℤ, pos, ◌≤◌, ◌-ℤ◌, List, [], ◌∷◌, true, false, ◌≡◌, refl}
use stream_guard.Breaker.{State, closed, open_, half_open, Config, ProviderCircuitState, new}
use stream_guard.Breaker.Invariant.{
  Call, allow, claim, failure, success, get_state, snap, IsSound, run, step, new-run-IsSound,
  new-IsSound, Edge, call, invoke, invoke-Edge,
}
use stream_guard.Breaker.Cycle.{grants, claimed_blocks, probe_exclusive}

abbrev second : ℤ
second = pos 1000000000

abbrev settings : Config
settings = record {
  failure_threshold = pos 2;
  open_timeout = second;
  half_open_success_threshold = pos 2;
}

abbrev in_state : State → ProviderCircuitState
in_state s = record {
  state = s;
  consecutive_failures = 0;
  consecutive_success = 0;
  last_state_change = pos 5;
  probing = false;
  cfg = settings;
}

abbrev tripped : ProviderCircuitState
tripped = in_state open_

abbrev waiting : ProviderCircuitState
waiting = record (in_state half_open) { probing = true }

-- It trips, is asked too early, is probed, and recovers after two probes.
abbrev life : List (ℤ × Call)
life =
    (pos 1, failure)
    ∷ (pos 2, failure)
    ∷ (pos 3, allow)
    ∷ (pos 1000000002, allow)
    ∷ (pos 1000000003, claim)
    ∷ (pos 1000000004, success)
    ∷ (pos 1000000005, claim)
    ∷ (pos 1000000006, success)
    ∷ []

lifetime : (run (new settings (pos 0)) life).state ≡ closed
unfolding run step new ◌-ℤ◌
lifetime = refl

two_granted : grants (new settings (pos 0)) life ≡ 2
unfolding grants step new ◌-ℤ◌
two_granted = refl

new-run-IsSound_example : IsSound (run (new settings (pos 0)) life)
new-run-IsSound_example = new-run-IsSound settings (pos 0) life

fresh-IsSound : IsSound (new settings (pos 0))
fresh-IsSound = new-IsSound settings (pos 0)

invoke-Edge_example :
    Edge
      (pos 1000000005)
      tripped
      (call allow)
      open_
      (invoke (pos 1000000005) (call allow) tripped).state
invoke-Edge_example = invoke-Edge (pos 1000000005) (call allow) tripped

abbrev asking : List (ℤ × Call)
asking =
    (pos 1000000005, get_state)
    ∷ (pos 1000000006, claim)
    ∷ (pos 1000000007, allow)
    ∷ (pos 1000000008, snap)
    ∷ (pos 1000000009, claim)
    ∷ []

claimed_blocks_example : (grants waiting asking ≡ 0) × (run waiting asking ≡ waiting)
claimed_blocks_example =
    claimed_blocks waiting asking refl refl (refl, (refl, (refl, (refl, (refl, tt)))))

one_granted : grants tripped asking ≡ 1
unfolding grants step ◌-ℤ◌
one_granted = refl

probe_exclusive_example : grants tripped asking ≤ 1
probe_exclusive_example =
    probe_exclusive tripped asking (λ e. cc) (refl, (refl, (refl, (refl, (refl, tt)))))
