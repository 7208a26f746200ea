-- ===== src/Config.antt =====
-- internal/config/config.go: the settings and their validation. A file's text, the environment, the
-- file system and the network are not modelled: `Environment` says what the checks learn from them.
pub mod File
pub mod Load
pub mod Url
pub mod Validation
use stream_guard.Prelude.{
  ℕ, suc, ◌*◌, ◌-◌, ℤ, pos, negsuc, wrap64, Bool, true, false, not, ◌||◌, List, [], ◌∷◌, Option,
  none, some, String, ◌==◌, ltb_ℤ, leb_ℤ, eqb_ℤ, if◌then◌else◌,
}
use stream_guard.Text.{Bytes, codes, eq_bytes, is_empty, trim_space, to_lower}
use stream_guard.Breaker

pub record BreakerConfig : Type 0 where
  pub failure_threshold : ℤ
  pub open_timeout_seconds : ℤ
  pub half_open_success_threshold : ℤ

pub record Provider : Type 0 where
  pub name : String
  pub kind : Bytes  -- `Type`
  pub priority : ℤ
  pub base_url : Bytes
  pub circuit_breaker : Option BreakerConfig

unfoldable pub provider_type : Provider → Bytes
unfolding to_lower trim_space
provider_type p =
    let typ = to_lower (trim_space p.kind) in if is_empty typ then codes "mock" else typ

pub record Config : Type 0 where
  pub circuit_breaker : BreakerConfig
  pub providers : List Provider
  pub silent_hang_deadline_ms : ℤ
  pub reconciliation_interval : ℤ
  pub window_seconds : ℤ
  pub max_tokens : ℤ
  pub default_period : ℤ
  pub keys_file : Bytes
  pub drain_timeout_seconds : ℤ
  pub operator_token : Bytes

-- A number of seconds as a `time.Duration`; the product wraps.
abbrev scaled : ℤ → ℕ → ℤ
scaled (pos n) k = pos (n * k)
scaled (negsuc n) k = negsuc (suc n * k - 1)

abbrev pub seconds : ℤ → ℤ
seconds n = wrap64 (scaled n 1000000000)

abbrev or_default : ℤ → ℤ → ℤ
or_default value default = if eqb_ℤ value (pos 0) then default else value

abbrev overridden : BreakerConfig → Option BreakerConfig → BreakerConfig
overridden bc none = bc
overridden bc (some o) = record {
  failure_threshold = or_default o.failure_threshold bc.failure_threshold;
  open_timeout_seconds = or_default o.open_timeout_seconds bc.open_timeout_seconds;
  half_open_success_threshold =
      or_default o.half_open_success_threshold bc.half_open_success_threshold;
}

unfoldable pub breaker_config_for : Config → Option BreakerConfig → Breaker.Config
breaker_config_for c override =
    let bc = overridden c.circuit_breaker override in
    record {
      failure_threshold = bc.failure_threshold;
      open_timeout = seconds bc.open_timeout_seconds;
      half_open_success_threshold = bc.half_open_success_threshold;
    }

-- What `Validate` can refuse.
pub data Invalid : Type 0 where
  no_providers empty_name duplicate_name bad_type negative_priority duplicate_priority : Invalid
  bad_url bad_threshold bad_timeout bad_success_threshold : Invalid
  bad_window bad_max_tokens bad_interval bad_drain no_keys_file keys_file_missing : Invalid

-- `none` is success.
abbrev pub Check : Type 0
Check = Option Invalid

unfoldable pub validate_breaker : Breaker.Config → Check
validate_breaker cfg =
    if ltb_ℤ cfg.failure_threshold (pos 1)
    then some bad_threshold
    else if ltb_ℤ cfg.open_timeout (pos 1000000000)
    then some bad_timeout
    else if ltb_ℤ cfg.half_open_success_threshold (pos 1)
    then some bad_success_threshold
    else none

-- What the checks ask of the world: whether `validateProviderURL` accepts a provider, and whether
-- the keys file is there.
pub record Environment : Type 0 where
  pub url_accepted : Provider → Bool
  pub file_exists : Bytes → Bool

unfoldable pub is_known_type : Bytes → Bool
unfolding eq_bytes
is_known_type t =
    eq_bytes t (codes "mock") || (eq_bytes t (codes "openai") || eq_bytes t (codes "anthropic"))

unfoldable pub has_name : List Provider → String → Bool
has_name [] name = false
has_name (p ∷ ps) name = p.name == name || has_name ps name

unfoldable pub has_priority : List Provider → ℤ → Bool
has_priority [] n = false
has_priority (p ∷ ps) n = eqb_ℤ p.priority n || has_priority ps n

-- One round of the loop of `Validate`; `seen` are the providers of the earlier rounds.
unfoldable pub validate_provider : Environment → Config → List Provider → Provider → Check
unfolding has_name has_priority is_known_type validate_breaker breaker_config_for provider_type
validate_provider env c seen p =
    if p.name == ""
    then some empty_name
    else if has_name seen p.name
    then some duplicate_name
    else if not (is_known_type (provider_type p))
    then some bad_type
    else if ltb_ℤ p.priority (pos 0)
    then some negative_priority
    else if has_priority seen p.priority
    then some duplicate_priority
    else if not (env.url_accepted p)
    then some bad_url
    else validate_breaker (breaker_config_for c p.circuit_breaker)

abbrev pub and_then : Check → Check → Check
and_then none next = next
and_then (some e) next = some e

unfoldable pub validate_providers : Environment → Config → List Provider → List Provider → Check
unfolding validate_provider
validate_providers env c seen [] = none
validate_providers env c seen (p ∷ ps) =
    and_then (validate_provider env c seen p) (validate_providers env c (p ∷ seen) ps)

unfoldable pub validate_rest : Environment → Config → Check
unfolding validate_breaker breaker_config_for
validate_rest env c = and_then (validate_breaker (breaker_config_for c none)) (
    if ltb_ℤ c.window_seconds (pos 1)
    then some bad_window
    else if ltb_ℤ c.max_tokens (pos 1)
    then some bad_max_tokens
    else if leb_ℤ c.reconciliation_interval (pos 0)
    then some bad_interval
    else if ltb_ℤ c.drain_timeout_seconds (pos 0)
    then some bad_drain
    else if is_empty c.keys_file
    then some no_keys_file
    else if not (env.file_exists c.keys_file)
    then some keys_file_missing
    else none)

abbrev pub is_nil : List Provider → Bool
is_nil [] = true
is_nil (p ∷ ps) = false

unfoldable pub validate : Environment → Config → Check
unfolding validate_providers validate_rest
validate env c =
    if is_nil c.providers
    then some no_providers
    else and_then (validate_providers env c [] c.providers) (validate_rest env c)
