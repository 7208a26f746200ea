-- ===== src/Cascade/Attempts.antt =====
-- Attempts of internal/cascade/cascade.go: started at the end, finished once by their index.
use stream_guard.Prelude.{
  ℤ, pos, List, [], ◌∷◌, ◌++◌, some, String, length, ◌≡◌, refl, arith, ap, length-snoc,
}
use stream_guard.Cascade.{
  Session, new_attempt, ProviderAttempt, start_attempt, finish_at, finish_attempt,
}

-- The attempt just started is finished in place: the earlier ones stay as they are.
finish_at-last :
    (xs : List ProviderAttempt) (a : ProviderAttempt) (outcome : String) (tokens ended : ℤ)
    → finish_at (length xs) outcome tokens ended (xs ++ a ∷ [])
      ≡ xs
        ++ record a {
          outcome = outcome;
          ended_at = some ended;
          tokens_delivered_before_failure = tokens;
        }
          ∷ []
unfolding finish_at
finish_at-last [] a outcome tokens ended = refl
finish_at-last (x ∷ xs) a outcome tokens ended =
    ap (◌∷◌ x) (finish_at-last xs a outcome tokens ended)

start-index :
    (s : Session) (provider : String) (now : ℤ)
    → (start_attempt provider now s).1 ≡ pos (length s.provider_attempts)
unfolding start_attempt
start-index s provider now =
    ground (arith, length-snoc s.provider_attempts (new_attempt provider now))

finish-started :
    (s : Session) (provider outcome : String) (now tokens ended : ℤ)
    → finish_attempt
        (pos (length s.provider_attempts))
        outcome
        tokens
        ended
        (start_attempt provider now s).0
      ≡ record s {
        provider_attempts =
            finish_at
              (length s.provider_attempts)
              outcome
              tokens
              ended
              (s.provider_attempts ++ new_attempt provider now ∷ []);
      }
unfolding start_attempt finish_attempt
finish-started s provider outcome now tokens ended =
    ground (arith, length-snoc s.provider_attempts (new_attempt provider now))

-- Starting an attempt and finishing it by the index returned adds one complete attempt at the end
-- and changes nothing else of the session.
finish_attempt-start_attempt :
    (s : Session) (provider outcome : String) (now tokens ended : ℤ)
    → finish_attempt
        (start_attempt provider now s).1
        outcome
        tokens
        ended
        (start_attempt provider now s).0
      ≡ record s {
        provider_attempts =
            s.provider_attempts
            ++ record {
              provider = provider;
              started_at = now;
              ended_at = some ended;
              outcome = outcome;
              tokens_delivered_before_failure = tokens;
            }
              ∷ [];
      }
finish_attempt-start_attempt s provider outcome now tokens ended =
    rw (start-index s provider now, finish-started s provider outcome now tokens ended)
      (ap (λ (xs : List ProviderAttempt). record s { provider_attempts = xs })
        (finish_at-last s.provider_attempts (new_attempt provider now) outcome tokens ended))
