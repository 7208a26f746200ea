-- ===== src/Server/Relay/Closed.antt =====
-- The failover loop of `handleStream` in internal/server/server.go while breakers are closed: the words
-- of its story, and which provider is admitted and found next.
use stream_guard.Prelude.{
  IsInt64, Bool, ℕ, ◌+◌, ℤ, pos, true, false, List, [], ◌∷◌, some, String, ◌==◌, eq_iff, All, ◌≡◌,
  arith,
}
use stream_guard.Text.{codes}
use stream_guard.Breaker.{ProviderCircuitState, closed}
use stream_guard.Breaker
use stream_guard.Config.{Provider}
use stream_guard.Protocol.{
  truncated, truncated_text, all_providers_exhausted, Payload, FailoverReason, failover,
  regenerating, failover_text,
}
use stream_guard.Server.{Err, err_malformed, err_silent_hang, err_other, Shared, set_breaker}
use stream_guard.Server.Stream.{
  Turn, Progress, admit_provider, search_next, is_claimed, next_attemptable,
}

-- The errors after which another provider is tried.
abbrev pub IsRetried : Err → Type 0
IsRetried err_malformed = Unit
IsRetried err_silent_hang = Unit
IsRetried err_other = Unit
IsRetried _ = ⊥

-- Who served the request last, with how many tokens, when it was billed, and whether it was cut.
pub record Served : Type 0 where
  pub provider : Provider
  pub tokens : ℕ
  pub at : ℤ
  pub cut : Bool

-- What the client sees between a provider that failed and the next one.
abbrev pub switch : Provider → Provider → FailoverReason → ℤ → ℕ → List Payload
switch p q reason tokens n =
    failover (record {
      reason = failover_text reason;
      tokens_delivered_before_failure = tokens;
      provider_from = codes p.name;
      provider_to = codes q.name;
      attempt = pos (n + 1);
    })
    ∷ regenerating (record { keep_partial_visible = true })
    ∷ []

-- The announcement of the end.
abbrev pub ending : ℤ → List Payload
ending delivered =
    truncated (record {
      reason = truncated_text all_providers_exhausted;
      tokens_delivered = delivered;
      final = true;
    })
    ∷ []

abbrev pub IsQuiet : Turn → Type 0
IsQuiet t = ((s : Shared) → t.before s ≡ s) × ((s : Shared) → t.after s ≡ s)

abbrev pub AreClosed : (String → ProviderCircuitState) → List Provider → Type 0
AreClosed breakers = All λ p. (breakers p.name).state ≡ closed

-- No name stands twice.
abbrev pub HasOwnNames : List Provider → Type 0
HasOwnNames [] = Unit
HasOwnNames (p ∷ rest) = All (λ q. p.name == q.name ≡ false) rest × HasOwnNames rest

-- Where the loop stands between two rounds, with `sent` tokens sent so far: everything is given back.
pub record IsFresh (s₀ : Shared) (n : ℕ) (sent : ℤ) (providers : List Provider) (h : Progress)
    : Type 0 where
  pub key : h.shared.key ≡ s₀.key
  pub ledger : h.shared.ledger ≡ s₀.ledger
  pub unclaimed : h.claimed_probes ≡ []
  pub failovers : h.failovers ≡ n
  pub delivered : h.total_delivered ≡ sent
  pub delivered_fits : IsInt64 sent
  pub closed_left : AreClosed h.shared.breakers providers

pub admit_closed :
    (now : ℤ) (p : Provider) (h : Progress)
    → h.claimed_probes ≡ []
    → (h.shared.breakers p.name).state ≡ closed
    → admit_provider now p h ≡ (
      record h {
        shared = record h.shared {
          breakers = set_breaker p.name (h.shared.breakers p.name) h.shared.breakers;
        };
      },
      true,
    )
unfolding admit_provider is_claimed Breaker.allow_attempt Breaker.refresh
admit_closed now p h u c = rw (u, c)

pub search_closed :
    (now : ℤ) (q : Provider) (rest : List Provider) (h : Progress)
    → (h.shared.breakers q.name).state ≡ closed
    → search_next now (q ∷ rest) h ≡ (
      record h {
        shared = record h.shared {
          breakers = set_breaker q.name (h.shared.breakers q.name) h.shared.breakers;
        };
      },
      some q,
    )
unfolding search_next next_attemptable Breaker.current_state Breaker.refresh
search_closed now q rest h c = ground (arith, c)

pub set_same-AreClosed :
    (name : String) (breakers : String → ProviderCircuitState) (ps : List Provider)
    → AreClosed breakers ps
    → AreClosed (set_breaker name (breakers name) breakers) ps
unfolding set_breaker
set_same-AreClosed name breakers [] c = c
set_same-AreClosed name breakers (p ∷ ps) c =
    (ground (arith, c.0, eq_iff name p.name), set_same-AreClosed name breakers ps c.1)

pub set_other-AreClosed :
    (name : String) (br : ProviderCircuitState) (breakers : String → ProviderCircuitState)
    (ps : List Provider)
    → All (λ q. name == q.name ≡ false) ps
    → AreClosed breakers ps
    → AreClosed (set_breaker name br breakers) ps
unfolding set_breaker
set_other-AreClosed name br breakers [] other c = c
set_other-AreClosed name br breakers (p ∷ ps) other c =
    (rw other.0 c.0, set_other-AreClosed name br breakers ps other.1 c.1)
