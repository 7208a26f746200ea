-- ===== src/Breaker/Invariant.antt =====
-- What holds of a breaker (internal/breaker/breaker.go) between two calls, and its state diagram.
use stream_guard.Prelude.{
  ◌<◌, ℤ, pos, ◌-ℤ◌, ◌≤ℤ◌, ◌<ℤ◌, ◌≡◌, Bool, true, false, arith, List, [], ◌∷◌,
}
use stream_guard.Breaker.{
  State, closed, open_, half_open, Config, ProviderCircuitState, new, current_state, force_state,
  try_claim_probe, allow_attempt, record_success, record_failure, snapshot,
}

pub record IsSound (s : ProviderCircuitState) : Type 0 where
  pub threshold_pos : pos 1 ≤ℤ s.cfg.failure_threshold
  pub timeout_pos : pos 0 <ℤ s.cfg.open_timeout
  pub success_pos : pos 1 ≤ℤ s.cfg.half_open_success_threshold
  pub closed_below : s.state ≡ closed → pos s.consecutive_failures <ℤ s.cfg.failure_threshold
  pub probe_half_open : s.probing ≡ true → s.state ≡ half_open
  pub success_half_open : 0 < s.consecutive_success → s.state ≡ half_open
  pub half_open_below : pos s.consecutive_success <ℤ s.cfg.half_open_success_threshold

-- The methods that a request uses, as one type.
pub data Call : Type 0 where
  get_state claim allow success failure snap : Call

-- A call at a time, with the answer of the two that grant an attempt.
unfoldable pub step : ℤ → Call → ProviderCircuitState → ProviderCircuitState × Bool
unfolding current_state try_claim_probe allow_attempt record_success record_failure snapshot
step now get_state s = ((current_state now s).0, false)
step now claim s = try_claim_probe now s
step now allow s = allow_attempt now s
step now success s = (record_success now s, false)
step now failure s = (record_failure now s, false)
step now snap s = ((snapshot now s).0, false)

unfoldable pub run : ProviderCircuitState → List (ℤ × Call) → ProviderCircuitState
run s [] = s
run s ((now, c) ∷ cs) = run (step now c s).0 cs

pub new-IsSound : (c : Config) (now : ℤ) → IsSound (new c now)
unfolding new
new-IsSound c now = ground arith

-- Forcing a sound breaker into any state at any time leaves it sound.
force_state-IsSound :
    (to : State) (now : ℤ) (s : ProviderCircuitState) → IsSound s → IsSound (force_state to now s)
unfolding force_state
force_state-IsSound to now s v = ground arith

step-IsSound :
    (now : ℤ) (c : Call) (s : ProviderCircuitState) → IsSound s → IsSound (step now c s).0
unfolding step
step-IsSound now get_state s v = ground arith
step-IsSound now claim s v = ground arith
step-IsSound now allow s v = ground arith
step-IsSound now success s v = ground arith
step-IsSound now failure s v = ground arith
step-IsSound now snap s v = ground arith

run-IsSound : (s : ProviderCircuitState) (cs : List (ℤ × Call)) → IsSound s → IsSound (run s cs)
unfolding run
run-IsSound s [] v = v
run-IsSound s ((now, c) ∷ cs) v = run-IsSound (step now c s).0 cs (step-IsSound now c s v)

-- Whatever its settings, a new breaker satisfies the invariant `IsSound` after any calls at any times.
pub new-run-IsSound : (c : Config) (now : ℤ) (cs : List (ℤ × Call)) → IsSound (run (new c now) cs)
new-run-IsSound c now cs = run-IsSound (new c now) cs (new-IsSound c now)

-- Every method: the calls of a request, and `ForceState`.
pub data Method : Type 0 where
  call : Call → Method
  force : State → Method

unfoldable pub invoke : ℤ → Method → ProviderCircuitState → ProviderCircuitState
unfolding step force_state
invoke now (call c) s = (step now c s).0
invoke now (force to) s = force_state to now s

-- The state diagram, with the method that may take each edge, the time, and the breaker before it.
pub data Edge (now : ℤ) (s : ProviderCircuitState) : Method → State → State → Type 0 where
  stay : {c : Call} {a : State} → Edge now s (call c) a a
  trip : Edge now s (call failure) closed open_
  cool :
      {c : Call}
      → s.cfg.open_timeout ≤ℤ (now -ℤ s.last_state_change)
      → Edge now s (call c) open_ half_open
  recover : Edge now s (call success) half_open closed
  relapse : Edge now s (call failure) half_open open_
  forced : {a to : State} → Edge now s (force to) a to

-- A method moves a breaker along one edge of the state diagram, or leaves its state: it opens from
-- closed or half-open by a failure only, half-opens from open only when the timeout has passed since
-- the last change, and closes from half-open by a success only. `ForceState` takes it from any state
-- to the one that is asked for, and nothing else does.
pub invoke-Edge :
    (now : ℤ) (m : Method) (s : ProviderCircuitState) → Edge now s m s.state (invoke now m s).state
unfolding invoke
invoke-Edge now (call get_state) s = grind (arith, stay, cool)
invoke-Edge now (call claim) s = grind (arith, stay, cool)
invoke-Edge now (call allow) s = grind (arith, stay, cool)
invoke-Edge now (call success) s = grind (arith, stay, cool, recover)
invoke-Edge now (call failure) s = grind (arith, stay, cool, trip, relapse)
invoke-Edge now (call snap) s = grind (arith, stay, cool)
invoke-Edge now (force to) s = forced
