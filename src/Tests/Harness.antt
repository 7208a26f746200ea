-- ===== src/Tests/Harness.antt =====
-- A run of the fault-injection harness with fifty streams.
use stream_guard.Prelude.{
  All, arith, ℕ, ℤ, pos, ◌%◌, List, [], some, none, String, lookup, map, ◌≡◌, refl, if◌then◌else◌,
}
use stream_guard.Text.{Bytes, codes}
use stream_guard.Chaos.{scenarios, Config, Scenario, with_defaults}
use stream_guard.Breaker
use stream_guard.Server.{Counter}
use stream_guard.Chaos.Expected.{IsBilled, scenarios-IsBilled}
use stream_guard.Tests.Requests.{shared, session, one_period, key-IsBudgeted}
use stream_guard.Chaos.Run.{Answer, Result, Outcome, finished, run}
use stream_guard.Chaos.Counts.{IsAccounted, run-IsAccounted}
use stream_guard.Tests.Hundredths.{Hundredths, hundredths_double}
use stream_guard.Tests.Reconciling.{threshold, providers, answers, state}

abbrev settings : Config
settings = record { streams = pos 5; seed = pos 1; reconciliation_runs = pos 1 }

abbrev switched_on : String → Bytes
switched_on name = codes "true"

-- The scenarios in turn.
abbrev draw : ℕ → ℕ
draw i = i % 5

-- Every stream fails over and is cut in the end.
abbrev body : Bytes
body = codes "\"reason\":\"dead_socket\" gateway_truncated"

abbrev answer : ℕ → Scenario → Answer
answer i s = some (body, pos 2000000)

-- Every second stream is overtaken by the next one.
abbrev place : ℕ → ℕ
place i = i % 2

abbrev the_run : Outcome Hundredths
the_run =
    run threshold providers (λ i. (pos 9, answers)) "a1" "sg_*" switched_on (λ raw. raw) (pos 1)
      settings draw answer place state

abbrev result_or : Result Hundredths → Outcome Hundredths → Result Hundredths
result_or r (finished r') = r'
result_or r other = r

abbrev no_result : Result Hundredths
no_result = record {
  streams = pos 0;
  expected_billed = pos 0;
  actual_billed = pos 0;
  truncated_requests = pos 0;
  failures = [];
  inter_token_gap_samples = 0;
  drift_samples = 0;
  silent_hang_ready = mathlib.Core.Bool.false;
  drift_ready = mathlib.Core.Bool.false;
  silent_hang_raw_ms = none;
  silent_hang_final_ms = none;
  silent_hang_clamped = mathlib.Core.Bool.false;
  drift_raw_pct = none;
  drift_final_pct = none;
  drift_clamped = mathlib.Core.Bool.false;
  detection_ms = [];
}

abbrev result : Result Hundredths
result = result_or no_result the_run

the_run_ends : the_run ≡ finished result
unfolding run
the_run_ends = refl

result_run : (result.expected_billed ≡ pos 370) × (lookup "dead_socket" result.failures ≡ some 50)
unfolding run lookup stream_guard.Prelude.wrap64 stream_guard.Prelude.◌+ℤ◌
    stream_guard.Prelude.insert
result_run = (refl, refl)

run-IsAccounted_example : IsAccounted (with_defaults (pos 1) settings) draw answer result
run-IsAccounted_example =
    run-IsAccounted threshold providers (λ i. (pos 9, answers)) "a1" "sg_*" draw answer place state
      switched_on (λ raw. raw) (pos 1) settings result the_run_ends

-- Every text is one token.
abbrev ones : Counter
ones name model hint text = pos 1

scenarios-IsBilled_example :
    All
      (IsBilled Hundredths codes ones
        (λ i k. pos 20)
        (λ i. pos 20)
        (λ i. pos 20)
        []
        one_period
        (pos 50)
        []
        []
        shared
        session)
      scenarios
unfolding Breaker.new
scenarios-IsBilled_example =
    scenarios-IsBilled Hundredths codes ones (λ i k. pos 20) (λ i. pos 20) (λ i. pos 20) []
      one_period (pos 50) [] [] shared session (λ name model text. omega arith) (λ name model. refl)
      key-IsBudgeted (omega arith) refl refl
