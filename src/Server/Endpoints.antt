-- ===== src/Server/Endpoints.antt =====
-- The endpoints of internal/server/server.go but the stream's: `handleUsage`, `handleHealth` and
-- `handleLivez`, and what `New` makes of the settings.
pub mod Access
use stream_guard.Prelude.{
  ℤ, pos, Bool, true, false, not, List, [], ◌∷◌, Option, none, some, String, Dict, insert,
  if◌then◌else◌,
}
use stream_guard.Text.{Bytes, codes, eq_bytes, trim_prefix}
use stream_guard.Budget.{ApiKeyRecord}
use stream_guard.Breaker.{ProviderCircuitState, Snapshot}
use stream_guard.Breaker
use stream_guard.RateLimit
use stream_guard.RateLimit.{Limiter}
use stream_guard.Ledger
use stream_guard.Auth
use stream_guard.Tokenizer.{Registry, register_known}
use stream_guard.Config.{Config, Provider, breaker_config_for, seconds}
use stream_guard.Server.Handler.{bearer}

pub record Server : Type 0 where
  pub auth : Auth.Store
  pub ledger : Ledger.Store
  pub limit : Limiter
  pub breakers : Dict ProviderCircuitState
  pub registry : Registry

unfoldable pub new_breakers :
    ℤ → Config → List Provider → Dict ProviderCircuitState → Dict ProviderCircuitState
unfolding breaker_config_for Breaker.new
new_breakers now cfg [] breakers = breakers
new_breakers now cfg (p ∷ ps) breakers =
    new_breakers now cfg ps
      (insert p.name (Breaker.new (breaker_config_for cfg p.circuit_breaker) now) breakers)

unfoldable pub new : ℤ → Config → Auth.Store → Server
unfolding new_breakers Ledger.new RateLimit.new register_known
new now cfg keys = record {
  auth = keys;
  ledger = Ledger.new cfg.reconciliation_interval;
  limit = RateLimit.new (seconds cfg.window_seconds) cfg.max_tokens;
  breakers = new_breakers now cfg cfg.providers [];
  registry = register_known [];
}

-- A response; the first two have the codes 404 and 403.
pub data Reply : Type 0 where
  not_found unauthorized : Reply
  usage : Ledger.Summary → Reply
  health : List (String × Snapshot) → Reply

-- `hash` is SHA-256 and `text` the conversion of bytes to text.
module _ (hash : String → String) (text : Bytes → String) where
  abbrev usage_of : Bytes → Option ApiKeyRecord → Ledger.Store → Reply
  usage_of raw none l = unauthorized
  usage_of raw (some key) l = usage (Ledger.summary key.key_hash (text (Auth.redact raw)) l)

  abbrev usage_for : Bytes → Option Bytes → Server → Reply
  usage_for path_key none s = unauthorized
  usage_for path_key (some raw) s =
      if eq_bytes raw path_key
      then usage_of raw (Auth.lookup_raw hash (text raw) s.auth) s.ledger
      else unauthorized

  unfoldable pub handle_usage : Bool → Bytes → Bytes → Server → Reply
  unfolding trim_prefix bearer
  handle_usage is_get path authorization s =
      if not is_get
      then not_found
      else usage_for (trim_prefix (codes "/usage/") path) (bearer authorization) s

abbrev is_operator : Bytes → Option Bytes → Bool
is_operator operator_token none = false
is_operator operator_token (some raw) = eq_bytes raw operator_token

-- The loop over the breakers, each asked at a time of its own, in the order of the list.
unfoldable pub snapshot_all :
    (String → ℤ) → Dict ProviderCircuitState → Dict ProviderCircuitState × List (String × Snapshot)
unfolding Breaker.snapshot
snapshot_all clock [] = ([], [])
snapshot_all clock ((name, br) ∷ rest) =
    let (br', snap) = Breaker.snapshot (clock name) br in
    let (rest', snaps) = snapshot_all clock rest in ((name, br') ∷ rest', (name, snap) ∷ snaps)

unfoldable pub handle_health : (String → ℤ) → Bytes → Bool → Bytes → Server → Server × Reply
unfolding snapshot_all bearer
handle_health clock operator_token is_get authorization s =
    if not is_get
    then (s, not_found)
    else if not (is_operator operator_token (bearer authorization))
    then (s, unauthorized)
    else let (breakers, snaps) = snapshot_all clock s.breakers in
      (record s { breakers = breakers }, health snaps)
