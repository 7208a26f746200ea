-- ===== src/Tests/Reconciling.antt =====
-- Reconciliations of two entries, with a fetcher that answers and with one that fails.
use stream_guard.Prelude.{
  ◌-ℤ◌, ℤ, pos, true, false, List, [], ◌∷◌, none, some, String, Dict, lookup, All, if◌then◌else◌,
  ◌≡◌, ◌≢◌, refl,
}
use stream_guard.Text.{codes}
use stream_guard.Tests.Hundredths.{Hundredths, hundredths_double}
use stream_guard.Ledger.{Entry, entry_key, get}
use stream_guard.Config.{Provider}
use stream_guard.Reconcile.{
  State, Result, Fetcher, provider_by_name, drift_of, reconcile_entry, run,
}
use stream_guard.Reconcile.Flags.{AreDistinct, Reconciled, run-Reconciled, reconcile_entry-unknown}

abbrev entry : String → Dict ℤ → Entry
entry h tokens = record {
  api_key_hash = h;
  billing_period = "p1";
  tokens_billed = pos 150;
  truncated_requests = pos 1;
  last_reconciled_at = none;
  drift_flag = true;
  provider_tokens = tokens;
}

abbrev used : Entry
used = entry "a1" (("OpenAI", pos 110) ∷ ("gone", pos 40) ∷ [])

abbrev left_over : Entry
left_over = entry "b2" (("gone", pos 40) ∷ [])

abbrev pub state : State Hundredths
state = record {
  ledger = record { entries = ("a1|p1", used) ∷ ("b2|p1", left_over) ∷ []; interval = pos 3600 };
  samples = [];
  registry = [];
}

abbrev pub providers : List Provider
providers =
    record {
      name = "openai";
      kind = codes "openai";
      priority = pos 0;
      base_url = [];
      circuit_breaker = none;
    }
    ∷ []

abbrev pub answers : Fetcher
answers p h period = some (pos 100)

abbrev pub fails : Fetcher
fails p h period = none

abbrev pub threshold : Hundredths
threshold = hundredths_double.of_ℤ (pos 5)

abbrev pub entries : List Entry
entries = used ∷ left_over ∷ []

entries-AreDistinct : AreDistinct entries
entries-AreDistinct = ((refl, tt), (tt, tt))

-- Ten tokens of a hundred.
drift_run : drift_of (pos 110) (pos 100) ≡ hundredths_double.of_ℤ (pos 10)
unfolding drift_of stream_guard.Prelude.wrap64 ◌-ℤ◌
drift_run = refl

abbrev pub final : State Hundredths
final = (run threshold (pos 9) (some answers) providers entries state).0

abbrev results : List (Result Hundredths)
results =
    record {
      api_key_hash = "a1";
      billing_period = "p1";
      provider = "OpenAI";
      local_tokens = pos 110;
      provider_tokens = pos 100;
      drift_pct = hundredths_double.of_ℤ (pos 10);
      drift_flag = true;
      last_reconciled_at = pos 9;
    }
    ∷ []

run_ends : run threshold (pos 9) (some answers) providers entries state ≡ (final, some results)
unfolding run stream_guard.Prelude.wrap64 ◌-ℤ◌
run_ends = refl

run-Reconciled_example : All (λ e. Reconciled threshold (pos 9) answers providers e final) entries
run-Reconciled_example =
    run-Reconciled threshold (pos 9) answers providers entries results state final
      entries-AreDistinct run_ends

some_tokens : left_over.provider_tokens ≢ []
some_tokens e = cc

gone : All (λ (t : String × ℤ). provider_by_name providers t.0 ≡ none) left_over.provider_tokens
unfolding provider_by_name
gone = (refl, tt)

reconcile_entry-unknown_example :
    ((reconcile_entry threshold (pos 9) fails providers left_over [] state).1 ≡ some [])
    × (lookup
          (entry_key "b2" "p1")
          (reconcile_entry threshold (pos 9) fails providers left_over [] state).0.ledger.entries
        ≡ some (record (get "b2" "p1" state.ledger) {
          last_reconciled_at = some (pos 9);
          drift_flag = false;
        }))
reconcile_entry-unknown_example =
    reconcile_entry-unknown threshold (pos 9) fails providers left_over [] state some_tokens gone
