-- ===== src/Breaker.antt =====
-- internal/breaker/breaker.go: the circuit breaker of one provider. Each method holds the mutex, so
-- it is one step, and returns the new breaker. `now` is the clock (`s.now`) during that step, in
-- nanoseconds; counters are exact numbers (they would need 2^63 calls to wrap).
pub mod Invariant
pub mod Cycle
use stream_guard.Prelude.{
  ℕ, ◌+◌, ℤ, pos, ◌-ℤ◌, Bool, true, false, not, ◌&&◌, ◌||◌, ltb_ℤ, leb_ℤ, if◌then◌else◌,
}

pub data State : Type 0 where
  closed open_ half_open : State

pub record Config : Type 0 where
  pub failure_threshold : ℤ
  pub open_timeout : ℤ  -- nanoseconds
  pub half_open_success_threshold : ℤ

pub record ProviderCircuitState : Type 0 where
  pub state : State
  pub consecutive_failures : ℕ
  pub consecutive_success : ℕ
  pub last_state_change : ℤ
  pub probing : Bool
  pub cfg : Config

unfoldable pub new : Config → ℤ → ProviderCircuitState
new cfg now = record {
  state = closed;
  consecutive_failures = 0;
  consecutive_success = 0;
  last_state_change = now;
  probing = false;
  cfg = record {
    failure_threshold =
        if ltb_ℤ cfg.failure_threshold (pos 1) then pos 3 else cfg.failure_threshold;
    open_timeout = if leb_ℤ cfg.open_timeout (pos 0) then pos 30000000000 else cfg.open_timeout;
    half_open_success_threshold =
        if ltb_ℤ cfg.half_open_success_threshold (pos 1)
        then pos 1
        else cfg.half_open_success_threshold;
  };
}

abbrev is_half_open : State → Bool
is_half_open half_open = true
is_half_open _ = false

abbrev is_open : State → Bool
is_open open_ = true
is_open _ = false

abbrev is_closed : State → Bool
is_closed closed = true
is_closed _ = false

unfoldable pub transition : State → ℤ → ProviderCircuitState → ProviderCircuitState
transition to now s = record s {
  state = to;
  probing = false;
  consecutive_success = 0;
  consecutive_failures = if is_closed to then 0 else s.consecutive_failures;
  last_state_change = now;
}

unfoldable pub refresh : ℤ → ProviderCircuitState → ProviderCircuitState
unfolding transition
refresh now s =
    if is_open s.state && leb_ℤ s.cfg.open_timeout (now -ℤ s.last_state_change)
    then transition half_open now s
    else s

-- `State()`.
unfoldable pub current_state : ℤ → ProviderCircuitState → ProviderCircuitState × State
unfolding refresh
current_state now s = let s' = refresh now s in (s', s'.state)

unfoldable pub force_state : State → ℤ → ProviderCircuitState → ProviderCircuitState
force_state to now s = record s {
  state = to;
  probing = false;
  consecutive_failures = 0;
  consecutive_success = 0;
  last_state_change = now;
}

unfoldable pub try_claim_probe : ℤ → ProviderCircuitState → ProviderCircuitState × Bool
unfolding refresh
try_claim_probe now s =
    let s' = refresh now s in
    if not (is_half_open s'.state) || s'.probing
    then (s', false)
    else (record s' { probing = true }, true)

-- The `switch` of `AllowAttempt`.
abbrev allow_in : State → ProviderCircuitState → ProviderCircuitState × Bool
allow_in closed s = (s, true)
allow_in open_ s = (s, false)
allow_in half_open s = if s.probing then (s, false) else (record s { probing = true }, true)

unfoldable pub allow_attempt : ℤ → ProviderCircuitState → ProviderCircuitState × Bool
unfolding refresh
allow_attempt now s = let s' = refresh now s in allow_in s'.state s'

unfoldable pub record_success : ℤ → ProviderCircuitState → ProviderCircuitState
unfolding transition
record_success now s =
    if is_half_open s.state
    then (let t = record s {
      consecutive_failures = 0;
      consecutive_success = s.consecutive_success + 1;
      probing = false;
    } in
        if leb_ℤ t.cfg.half_open_success_threshold (pos t.consecutive_success)
        then transition closed now t
        else t)
    else record s { consecutive_failures = 0; probing = false }

unfoldable pub record_failure : ℤ → ProviderCircuitState → ProviderCircuitState
unfolding transition
record_failure now s =
    let t = record s { probing = false; consecutive_success = 0 } in
    if is_half_open s.state
    then transition open_ now t
    else (let u = record t { consecutive_failures = t.consecutive_failures + 1 } in
        if leb_ℤ u.cfg.failure_threshold (pos u.consecutive_failures)
        then transition open_ now u
        else u)

-- The snapshot's three entries.
pub record Snapshot : Type 0 where
  pub state : State
  pub consecutive_failures : ℕ
  pub last_state_change : ℤ

unfoldable pub snapshot : ℤ → ProviderCircuitState → ProviderCircuitState × Snapshot
unfolding refresh
snapshot now s =
    let s' = refresh now s in
    (
      s',
      record {
        state = s'.state;
        consecutive_failures = s'.consecutive_failures;
        last_state_change = s'.last_state_change;
      },
    )
