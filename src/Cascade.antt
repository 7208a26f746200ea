-- ===== src/Cascade.antt =====
-- internal/cascade/cascade.go: the session of one request and its attempts. Times are nanoseconds.
pub mod Attempts
use stream_guard.Prelude.{
  ℕ, zero, suc, ℤ, pos, Bool, ◌||◌, List, [], ◌∷◌, ◌++◌, Option, none, some, String, length, leb_ℤ,
  ltb_ℤ, if◌then◌else◌, sub_ℕ, pos_part,
}

pub data Status : Type 0 where
  streaming failover truncated complete shutdown : Status

pub record ProviderAttempt : Type 0 where
  pub provider : String
  pub started_at : ℤ
  pub ended_at : Option ℤ  -- `none` for the zero time
  pub outcome : String
  pub tokens_delivered_before_failure : ℤ

pub record Session : Type 0 where
  pub id : String
  pub api_key_hash : String
  pub tokens_delivered : ℤ
  pub status : Status
  pub provider_attempts : List ProviderAttempt
  pub final_attempt_tokens : ℤ
  pub final_provider : String

unfoldable pub new_session : String → String → Session
new_session id api_key_hash = record {
  id = id;
  api_key_hash = api_key_hash;
  tokens_delivered = pos 0;
  status = streaming;
  provider_attempts = [];
  final_attempt_tokens = pos 0;
  final_provider = "";
}

abbrev pub new_attempt : String → ℤ → ProviderAttempt
new_attempt provider now = record {
  provider = provider;
  started_at = now;
  ended_at = none;
  outcome = "";
  tokens_delivered_before_failure = pos 0;
}

-- The session, and the index of the new attempt.
unfoldable pub start_attempt : String → ℤ → Session → Session × ℤ
start_attempt provider now s =
    let attempts = s.provider_attempts ++ new_attempt provider now ∷ [] in
    (record s { provider_attempts = attempts }, sub_ℕ (length attempts) 1)

-- The three writes to the attempt at an index.
unfoldable pub finish_at : ℕ → String → ℤ → ℤ → List ProviderAttempt → List ProviderAttempt
finish_at i outcome tokens ended_at [] = []
finish_at zero outcome tokens ended_at (a ∷ rest) =
    record a {
      outcome = outcome;
      ended_at = some ended_at;
      tokens_delivered_before_failure = tokens;
    }
    ∷ rest
finish_at (suc i) outcome tokens ended_at (a ∷ rest) = a ∷ finish_at i outcome tokens ended_at rest

unfoldable pub finish_attempt : ℤ → String → ℤ → ℤ → Session → Session
unfolding finish_at
finish_attempt index outcome tokens ended_at s =
    if ltb_ℤ index (pos 0) || leb_ℤ (pos (length s.provider_attempts)) index then s else record s {
      provider_attempts = finish_at (pos_part index) outcome tokens ended_at s.provider_attempts;
    }
