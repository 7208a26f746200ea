-- ===== src/Tests/Stores.antt =====
-- The limiter, the ledger, the session, the key store and the settings.
use Prim.Native.String.{◌++◌ as ◌<>◌}
use mathlib.Core.Option
use stream_guard.Prelude.{
  lookup, ◌↔◌, ◌==◌, ℤ, pos, ◌+ℤ◌, List, [], ◌∷◌, true, false, ◌||◌, Option, none, some, String,
  ◌≡◌, ◌≢◌, refl, arith, add64, if◌then◌else◌, ltb_ℤ, leb_ℤ,
}
use stream_guard.Text.{codes}
use stream_guard.RateLimit
use stream_guard.RateLimit.Window.{Call, admits, adds, answers, expected, new-answers}
use stream_guard.Ledger
use stream_guard.Ledger.Totals.{IsKeyed, record_in-IsKeyed, summary-record_in}
use stream_guard.Cascade.{Session, new_session}
use stream_guard.Auth.{Store, stored, add, new_store, lookup_raw, lookup_hash, reset_expired}
use stream_guard.Auth.Keys.{IsAcceptable, lookup_raw-add, lookup_hash-reset_expired}
use stream_guard.Config.{Provider, Config, Environment, validate}

-- A window of ten and a limit of 100 tokens.
abbrev traffic : List (ℤ × Call)
traffic =
    (pos 20, admits "k")
    ∷ (pos 21, adds "k" (pos 60))
    ∷ (pos 22, adds "k" (pos 50))
    ∷ (pos 23, admits "k")
    ∷ (pos 23, admits "other")
    ∷ (pos 31, admits "k")
    ∷ []

traffic_run : answers (RateLimit.new (pos 10) (pos 100)) traffic ≡ true ∷ false ∷ true ∷ true ∷ []
unfolding answers RateLimit.admit RateLimit.total_from RateLimit.events_of
    stream_guard.Prelude.lookup RateLimit.new RateLimit.add stream_guard.Prelude.insert
    stream_guard.Prelude.◌-ℤ◌ stream_guard.Prelude.wrap64 ◌+ℤ◌
traffic_run = refl

new-answers_example :
    answers (RateLimit.new (pos 10) (pos 100)) traffic
    ≡ expected
        (RateLimit.new (pos 10) (pos 100)).window
        (RateLimit.new (pos 10) (pos 100)).limit
        (λ k. [])
        traffic
new-answers_example =
    new-answers (pos 10) (pos 100) (pos 20) traffic
      (omega arith, (omega arith, (omega arith, (omega arith, (omega arith, (omega arith, tt))))))

-- Two periods of one key and one of another, under hashes of two characters.
abbrev books : Ledger.Store
books =
    Ledger.record_in "a1" "primary" "p1" (pos 10) false
      (Ledger.record_in "b2" "backup" "p1" (pos 7) true (Ledger.new (pos 0)))

none-IsKeyed : IsKeyed 2 (Ledger.new (pos 0)).entries
unfolding Ledger.new
none-IsKeyed = tt

books-IsKeyed : IsKeyed 2 books.entries
books-IsKeyed =
    record_in-IsKeyed 2 "a1" "primary" "p1" (pos 10) false
      (Ledger.record_in "b2" "backup" "p1" (pos 7) true (Ledger.new (pos 0))) refl
      (record_in-IsKeyed 2 "b2" "backup" "p1" (pos 7) true (Ledger.new (pos 0)) refl none-IsKeyed)

summary-record_in_example :
    let before = Ledger.summary "a1" "a1" books in
    let after =
      Ledger.summary "a1" "a1" (Ledger.record_in "a1" "primary" "p2" (pos 5) true books) in
    (after.tokens_billed ≡ add64 before.tokens_billed (pos 5))
    × (after.truncated_requests ≡ add64 before.truncated_requests (pos 1))
summary-record_in_example =
    summary-record_in 2 "a1" "primary" "p2" "a1" "a1" (pos 5) true books refl books-IsKeyed

summary_run :
    (Ledger.summary "a1" "a1"
      (Ledger.record_in "a1" "primary" "p2" (pos 5) true books)).tokens_billed
    ≡ pos 15
unfolding Ledger.summary Ledger.record_in stream_guard.Prelude.insert Ledger.new
    stream_guard.Prelude.lookup stream_guard.Prelude.wrap64 ◌+ℤ◌
summary_run = refl

abbrev fresh_session : Session
fresh_session = new_session "sg-1" "a1"

-- A toy hash, to run the store.
abbrev toy_hash : String → String
toy_hash raw = "#" <> raw

abbrev keys : Store
keys = record {
  by_hash =
      (
        "#sg-a",
        record {
          key_hash = "#sg-a";
          provider_allowlist = "primary" ∷ [];
          token_budget = pos 100;
          tokens_used = pos 0;
          budget_period = pos 50;
          budget_period_start = pos 7;
        },
      )
      ∷ [];
  raw_hash = ("sg-a", "#sg-a") ∷ [];
  period = pos 50;
}

keys_run :
    add toy_hash "sg-a" ("primary" ∷ []) (pos 100) (pos 0) (pos 7) (new_store (pos 50))
    ≡ stored keys
unfolding add new_store stream_guard.Prelude.insert
keys_run = refl

lookup_raw-add_example :
    (((s' : Store) × (add toy_hash "sg-a"
            ("primary" ∷ [])
            (pos 100)
            (pos 0)
            (pos 7)
            (new_store (pos 50))
          ≡ stored s'))
      ↔ IsAcceptable "sg-a" ("primary" ∷ []) (pos 100))
    × ((s' : Store)
        → add toy_hash "sg-a" ("primary" ∷ []) (pos 100) (pos 0) (pos 7) (new_store (pos 50))
          ≡ stored s'
        → lookup_raw toy_hash "sg-a" s' ≡ (
            if "#sg-a" == "#sg-a"
            then some (record {
              key_hash = "#sg-a";
              provider_allowlist = "primary" ∷ [];
              token_budget = pos 100;
              tokens_used = pos 0;
              budget_period = pos 50;
              budget_period_start = pos 7;
            })
            else none))
unfolding new_store lookup_raw lookup
lookup_raw-add_example =
    lookup_raw-add toy_hash "sg-a" "sg-a" ("primary" ∷ []) (pos 100) (pos 0) (pos 7)
      (new_store (pos 50))

sixty_not_zero : pos 60 ≢ pos 0
sixty_not_zero e = cc

lookup_hash-reset_expired_example :
    lookup_hash "#sg-a" (reset_expired (pos 0) (pos 60) keys).0
    ≡ Option.map
        (λ k.
          if leb_ℤ k.budget_period (pos 0)
            || ltb_ℤ (pos 60) (k.budget_period_start +ℤ k.budget_period)
          then k
          else record k { tokens_used = pos 0; budget_period_start = pos 60 })
        (lookup_hash "#sg-a" keys)
lookup_hash-reset_expired_example =
    lookup_hash-reset_expired (pos 0) (pos 60) "#sg-a" keys sixty_not_zero

abbrev provider : String → ℤ → Provider
provider name priority = record {
  name = name;
  kind = codes "OpenAI ";
  priority = priority;
  base_url = codes "https://example.org";
  circuit_breaker = none;
}

abbrev good : Config
good = record {
  circuit_breaker = record {
    failure_threshold = pos 3;
    open_timeout_seconds = pos 30;
    half_open_success_threshold = pos 1;
  };
  providers = provider "primary" (pos 1) ∷ provider "backup" (pos 2) ∷ [];
  silent_hang_deadline_ms = pos 5000;
  reconciliation_interval = pos 3600000000000;
  window_seconds = pos 60;
  max_tokens = pos 1000;
  default_period = pos 3600000000000;
  keys_file = codes "keys.yaml";
  drain_timeout_seconds = pos 30;
  operator_token = [];
}

abbrev accepting : Environment
accepting = record { url_accepted = λ p. true; file_exists = λ f. true }

good_run : validate accepting good ≡ none
unfolding validate stream_guard.Prelude.wrap64
good_run = refl
