-- ===== src/Tests/Budgets.antt =====
-- Budget keys, one call at a time and interleaved.
use stream_guard.Prelude.{
  ℤ, pos, Bool, List, [], ◌∷◌, true, false, ◌≡◌, refl, arith, ◌+ℤ◌, ◌-◌, ◌<ℤ◌, All,
}
use stream_guard.Budget.{ApiKeyRecord, try_reserve}
use stream_guard.Budget.Bounds.{IsBudgeted, try_reserve_overflow}
use stream_guard.Budget.Interleaving.Machine.{
  Op, reserve, idle, before_load, Event, call, advance, World, run, log, act, step,
}
use stream_guard.Budget.Interleaving.{Replays, IsModest, run-Replays, run-IsBudgeted, solo_returns}

abbrev key : ApiKeyRecord
key = record {
  key_hash = "a1";
  provider_allowlist = "primary" ∷ "backup" ∷ [];
  token_budget = pos 100;
  tokens_used = pos 40;
  budget_period = pos 3600000000000;
  budget_period_start = pos 1000;
}

key-IsBudgeted : IsBudgeted key
key-IsBudgeted = record {
  budget_fits = omega arith;
  used_nonneg = omega arith;
  used_within = omega arith;
}

reserve_run : try_reserve key (pos 60) ≡ (record key { tokens_used = pos 100 }, true)
unfolding try_reserve stream_guard.Prelude.wrap64 ◌+ℤ◌
reserve_run = refl

reserve_too_much_run : try_reserve key (pos 61) ≡ (key, false)
unfolding try_reserve stream_guard.Prelude.wrap64 ◌+ℤ◌
reserve_too_much_run = refl

-- A usage of 2^63 - 1 tokens passes.
try_reserve_overflow_example :
    ((try_reserve key (pos 9223372036854775807)).1 ≡ true)
    × ((try_reserve key (pos 9223372036854775807)).0.tokens_used <ℤ pos 0)
unfolding ◌+ℤ◌
try_reserve_overflow_example =
    try_reserve_overflow key (pos 9223372036854775807) key-IsBudgeted (omega arith) (omega arith)

reserve_ok : (try_reserve key (pos 25)).1 ≡ true
unfolding try_reserve stream_guard.Prelude.wrap64 ◌+ℤ◌
reserve_ok = refl

-- Everybody is idle.
abbrev start : World
start = record { key = key; at = λ i. idle }

-- Callers 1 and 2 both read 40; 2 swaps first, so 1 goes round once more and is refused.
abbrev race : List Event
race =
    call 1 (reserve (pos 50))
    ∷ call 2 (reserve (pos 20))
    ∷ advance 1
    ∷ advance 2
    ∷ advance 2
    ∷ advance 1
    ∷ advance 1
    ∷ []

abbrev race_log : List (Op × Bool)
race_log = (reserve (pos 20), true) ∷ (reserve (pos 50), false) ∷ []

race_log_run : log start race ≡ race_log
unfolding log act step stream_guard.Prelude.wrap64 ◌+ℤ◌
race_log_run = refl

outcome_of_race : (run start race).key ≡ record key { tokens_used = pos 60 }
unfolding run step act stream_guard.Prelude.wrap64 ◌+ℤ◌
outcome_of_race = refl

run-Replays_example : Replays key (log start race) (run start race).key
run-Replays_example = run-Replays start race (λ i. tt)

race-IsModest : All (λ r. IsModest (pos 100) r.0) (log start race)
race-IsModest = rw race_log_run (omega arith, (omega arith, tt))

run-IsBudgeted_example : IsBudgeted (run start race).key
run-IsBudgeted_example = run-IsBudgeted start race (λ i. tt) key-IsBudgeted race-IsModest

abbrev entered : World
entered = record { key = key; at = λ i. before_load (reserve (pos 5)) }

solo_returns_example : (run entered (advance 3 ∷ advance 3 ∷ [])).at 3 ≡ idle
solo_returns_example = solo_returns entered 3 (reserve (pos 5)) refl
