-- ===== src/Chaos.antt =====
-- chaos/harness.go: the harness that runs a gateway against two demo providers which fail on purpose,
-- and compares what is billed with what it expects. Here is what it sets up.

pub mod Run
pub mod Answers
pub mod Counts
pub mod Expected
use stream_guard.Prelude.{
  ℕ, zero, suc, ℤ, pos, Bool, true, false, List, [], ◌∷◌, Option, none, some, String, Dict,
  get_elem?, ltb_ℤ, leb_ℤ, eqb_ℤ, if◌then◌else◌,
}
use stream_guard.Text.{Bytes, codes, eq_bytes}
use stream_guard.Double.{Double}
use stream_guard.Config.{Provider}
use stream_guard.Config.{Config as GatewayConfig}
use stream_guard.Config.Load.{defaults}
use stream_guard.MockUpstream
use stream_guard.MockUpstream.{
  FailureMode, no_failure, dead_socket, silent_hang, malformed, Options,
}

unfoldable pub enabled : (String → Bytes) → Bool
unfolding eq_bytes
enabled get_env = eq_bytes (get_env "STREAMGUARD_CHAOS_ENABLED") (codes "true")

pub record Config : Type 0 where
  pub streams : ℤ
  pub seed : ℤ
  pub reconciliation_runs : ℤ

-- The defaults of `Run`; `clock` is the time in nanoseconds.
unfoldable pub with_defaults : ℤ → Config → Config
with_defaults clock cfg = record {
  streams = if ltb_ℤ cfg.streams (pos 50) then pos 50 else cfg.streams;
  seed = if eqb_ℤ cfg.seed (pos 0) then clock else cfg.seed;
  reconciliation_runs =
      if leb_ℤ cfg.reconciliation_runs (pos 0) then pos 60 else cfg.reconciliation_runs;
}

pub record Scenario : Type 0 where
  pub model : String
  pub expected_billed : ℤ
  pub truncated : Bool
  pub failures : List String

abbrev pub scenario : String → ℤ → Bool → List String → Scenario
scenario model expected truncated failures = record {
  model = model;
  expected_billed = expected;
  truncated = truncated;
  failures = failures;
}

abbrev pub scenarios : List Scenario
scenarios =
    scenario "sg-success" (pos 10) false []
    ∷ scenario "sg-dead-socket" (pos 6) false ("dead_socket" ∷ [])
    ∷ scenario "sg-silent-hang" (pos 8) false ("silent_hang" ∷ [])
    ∷ scenario "sg-malformed" (pos 7) false ("malformed" ∷ [])
    ∷ scenario "sg-exhausted" (pos 6) true ("dead_socket" ∷ [])
    ∷ []

abbrev pub tokens : ℕ → List Bytes
tokens zero = []
tokens (suc n) = codes "x " ∷ tokens n

module _ {ℓ} {W : Type ℓ} ⦃d : Double W⦄ where
  -- The options that a literal leaves out are zero.
  abbrev pub options : ℕ → FailureMode → ℤ → Options W
  options n failure fail_after = record {
    provider = "";
    tokens = tokens n;
    delay_min = pos 0;
    delay_max = pos 0;
    failure = failure;
    fail_after_tokens = fail_after;
    split_frames = false;
    usage_offset_pct = d.of_ℤ (pos 0);
    random_failure_pct = pos 0;
  }

  abbrev upstream : String → ℤ → Dict (Options W) → (String → Bytes) → MockUpstream.Server W
  upstream name offset per_model text =
      MockUpstream.new text
        (record (options 10 no_failure (pos 0)) {
          provider = name;
          delay_min = pos 2000000;
          delay_max = pos 4000000;
          usage_offset_pct = d.of_ℤ offset;
        })
        per_model

  -- The two providers; `text` is the bytes of a text.
  unfoldable pub primary : (String → Bytes) → MockUpstream.Server W
  unfolding MockUpstream.new
  primary text =
      upstream "openai" (pos 0)
        (("sg-success", options 10 no_failure (pos 0))
          ∷ ("sg-dead-socket", options 10 dead_socket (pos 4))
          ∷ ("sg-silent-hang", options 10 silent_hang (pos 5))
          ∷ ("sg-malformed", options 10 malformed (pos 3))
          ∷ ("sg-exhausted", options 10 dead_socket (pos 4))
          ∷ [])
        text

  unfoldable pub secondary : (String → Bytes) → MockUpstream.Server W
  unfolding MockUpstream.new
  secondary text =
      upstream "anthropic" (pos 25)
        (("sg-success", options 10 no_failure (pos 0))
          ∷ ("sg-dead-socket", options 6 no_failure (pos 0))
          ∷ ("sg-silent-hang", options 8 no_failure (pos 0))
          ∷ ("sg-malformed", options 7 no_failure (pos 0))
          ∷ ("sg-exhausted", options 6 malformed (pos 6))
          ∷ [])
        text

abbrev pub provider : String → ℤ → Bytes → Provider
provider name priority url = record {
  name = name;
  kind = [];
  priority = priority;
  base_url = url;
  circuit_breaker = none;
}

-- The settings of the gateway, for the addresses of the two providers.
unfoldable gateway_config : Bytes → Bytes → GatewayConfig
gateway_config primary_url secondary_url = record defaults {
  circuit_breaker = record defaults.circuit_breaker { failure_threshold = pos 1000 };
  silent_hang_deadline_ms = pos 15;
  providers =
      provider "openai" (pos 0) primary_url ∷ provider "anthropic" (pos 1) secondary_url ∷ [];
}

abbrev pub cons_each : Option Scenario → Option (List Scenario) → Option (List Scenario)
cons_each (some s) (some rest) = some (s ∷ rest)
cons_each _ _ = none

-- One scenario for each stream, from the round `i` on; `draw i` is the number that the random source
-- gives. It is below their number; `none` is the panic of an index out of range.
unfoldable pub select : (ℕ → ℕ) → ℕ → ℕ → Option (List Scenario)
select draw i zero = some []
select draw i (suc n) = cons_each (get_elem? scenarios (draw i)) (select draw (suc i) n)
