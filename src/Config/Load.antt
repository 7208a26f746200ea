-- ===== src/Config/Load.antt =====
-- `Defaults` and `Load` of internal/config/config.go. `sort.Slice` is insertion here: the settings have
-- been validated, so no two priorities are equal and every sort gives the same list. The two
-- keys of providers, which `Load` takes from the environment, are the record `Keys` of Server/Dialing.
pub mod Ranked
pub mod Nameless
pub mod Lost
use stream_guard.Prelude.{
  ℤ, pos, Bool, true, false, List, [], ◌∷◌, Option, none, some, ltb_ℤ, if◌then◌else◌,
}
use stream_guard.Text.{Bytes, codes, is_empty}
use stream_guard.Config.{BreakerConfig, Provider, Config, Environment, Invalid, Check, validate}
use stream_guard.Config.File.{Parsers, Scan, Outcome, next, failed, panicked, parse_lines}

abbrev pub defaults : Config
defaults = record {
  circuit_breaker = record {
    failure_threshold = pos 3;
    open_timeout_seconds = pos 30;
    half_open_success_threshold = pos 1;
  };
  providers = [];
  silent_hang_deadline_ms = pos 1000;
  reconciliation_interval = pos 3600000000000;
  window_seconds = pos 60;
  max_tokens = pos 1000000;
  default_period = pos 86400000000000;
  keys_file = codes "./keys.yaml";
  drain_timeout_seconds = pos 30;
  operator_token = [];
}

-- The file: its lines, and whether reading ends with an error; `none` if it cannot be opened.
abbrev pub File : Type 0
File = Option (List Bytes × Bool)

pub data Loaded {ℓ} (W : Type ℓ) : Type ℓ where
  loaded : Config → W → Loaded W
  invalid : Invalid → Loaded W
  unreadable : Loaded W
  panicked_reading : Loaded W

unfoldable pub place : Provider → List Provider → List Provider
place p [] = p ∷ []
place p (q ∷ qs) =
    let rest = place p qs in if ltb_ℤ p.priority q.priority then p ∷ q ∷ qs else q ∷ rest

unfoldable pub sort : List Provider → List Provider
unfolding place
sort [] = []
sort (p ∷ ps) = place p (sort ps)

abbrev pub or_token : Bytes → Bytes
or_token token = if is_empty token then codes "dev-operator-token" else token

module _ {ℓ} {W : Type ℓ} (parse : Parsers W) (env : Environment) where
  abbrev pub accept : Config → W → Check → Loaded W
  accept c drift (some e) = invalid e
  accept c drift none = loaded (record c { providers = sort c.providers }) drift

  abbrev pub finish : Bytes → Bool → Outcome W → Loaded W
  finish token scan_error failed = unreadable
  finish token scan_error panicked = panicked_reading
  finish token true (next s) = unreadable
  finish token false (next s) =
      let c = record s.cfg { operator_token = or_token token } in
      accept c s.drift_threshold_pct (validate env c)

  -- The scan that `parseFile` starts with, `drift` the default threshold.
  abbrev pub start : W → Scan W
  start drift = record {
    cfg = defaults;
    drift_threshold_pct = drift;
    section = [];
    current = false;
    provider_override = false;
  }

  abbrev load_file : W → Bytes → File → Loaded W
  load_file drift token none = unreadable
  load_file drift token (some (lines, scan_error)) =
      finish token scan_error (parse_lines parse lines (start drift))

  -- `Load`; `token` is the environment's OPERATOR_TOKEN.
  unfoldable pub load : W → Bytes → File → Loaded W
  unfolding parse_lines sort validate
  load drift token file = load_file drift token file
