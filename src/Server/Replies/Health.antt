-- ===== src/Server/Replies/Health.antt =====
-- Who learns the state of the breakers from `handleHealth` of internal/server/server.go, and what asking
-- does to them.
use stream_guard.Prelude.{
  ℕ, ℤ, eq_iff, ◌≢◌, Option-cases, sym, ◌∙◌, Bool, true, false, List, [], ◌∷◌, Option, none, some,
  String, ◌==◌, Dict, lookup, ◌≡◌, refl, ap, Bool-cases, inl, inr,
}
use stream_guard.Text.{Bytes, eq_bytes}
use stream_guard.Breaker.{ProviderCircuitState, Snapshot, refresh}
use stream_guard.Breaker
use stream_guard.Text.Laws.{eq_bytes_iff}
use stream_guard.Server.Endpoints.{
  Server, Reply, not_found, unauthorized, health, snapshot_all, handle_health,
}
use stream_guard.Server.Handler.{bearer}
use stream_guard.Server.Replies.{write_reply, write_json, write_error}

abbrev refreshed : ℤ → Option ProviderCircuitState → Option ProviderCircuitState
refreshed now none = none
refreshed now (some br) = some (refresh now br)

lookup-snapshot_all :
    (clock : String → ℤ) (name : String) (breakers : Dict ProviderCircuitState)
    → lookup name (snapshot_all clock breakers).0 ≡ refreshed (clock name) (lookup name breakers)
unfolding snapshot_all lookup Breaker.snapshot
lookup-snapshot_all clock name [] = refl
lookup-snapshot_all clock name ((k, br) ∷ rest) = elim (Bool-cases (k == name)) [
  | inl own ↦ rw own (ap (λ x. some (refresh (clock x) br)) ((eq_iff k name).0 own))
  | inr other ↦ rw other (lookup-snapshot_all clock name rest)
]

-- What the answer is to say of a breaker: its state and failures after the time has worked on it, and
-- when it last changed.
abbrev told : ℤ → Option ProviderCircuitState → Option Snapshot
told now none = none
told now (some br) =
    let after = refresh now br in
    some (record {
      state = after.state;
      consecutive_failures = after.consecutive_failures;
      last_state_change = after.last_state_change;
    })

lookup-told :
    (clock : String → ℤ) (name : String) (breakers : Dict ProviderCircuitState)
    → lookup name (snapshot_all clock breakers).1 ≡ told (clock name) (lookup name breakers)
unfolding snapshot_all lookup Breaker.snapshot
lookup-told clock name [] = refl
lookup-told clock name ((k, br) ∷ rest) = elim (Bool-cases (k == name)) [
  | inl own ↦ rw own (ap (λ x. told (clock x) (some br)) ((eq_iff k name).0 own))
  | inr other ↦ rw other (lookup-told clock name rest)
]

-- Each breaker is told of once, in the order of the map.
abbrev names_of {ℓ} : {A : Type ℓ} → List (String × A) → List String
names_of [] = []
names_of ((name, a) ∷ rest) = name ∷ names_of rest

names_of-told :
    (clock : String → ℤ) (breakers : Dict ProviderCircuitState)
    → names_of (snapshot_all clock breakers).1 ≡ names_of breakers
unfolding snapshot_all Breaker.snapshot
names_of-told clock [] = refl
names_of-told clock ((k, br) ∷ rest) = ap (λ ns. k ∷ ns) (names_of-told clock rest)

not_some : (token : Bytes) → none ≢ some token
not_some token e = cc

not_equal : (raw token : Bytes) → eq_bytes raw token ≡ false → some raw ≢ some token
not_equal raw token other e =
    let same : raw ≡ token = cc in let yes = (eq_bytes_iff raw token).1 same in cc

-- What a request for the state of the breakers comes to: the server after it, the answer, and its HTTP
-- status.
pub data Outcome (clock : String → ℤ) (operator_token : Bytes) (is_get : Bool)
    (authorization : Bytes) (s : Server) : Server → Reply → ℕ → Type 0 where
  shown :
      (breakers : Dict ProviderCircuitState) (snaps : List (String × Snapshot))
      → is_get ≡ true
      → bearer authorization ≡ some operator_token
      → ((name : String) → lookup name breakers ≡ refreshed (clock name) (lookup name s.breakers))
      → ((name : String) → lookup name snaps ≡ told (clock name) (lookup name s.breakers))
      → names_of snaps ≡ names_of s.breakers
      → Outcome clock operator_token is_get authorization s
          (record s { breakers = breakers })
          (health snaps)
          200
  no_page : is_get ≡ false → Outcome clock operator_token is_get authorization s s not_found 404
  denied :
      is_get ≡ true
      → bearer authorization ≢ some operator_token
      → Outcome clock operator_token is_get authorization s s unauthorized 403

-- /healthz answers a GET request that bears the operator's token with the status 200 and, for each
-- breaker once and no other, its state, its failures and its last change, as the time makes them; it
-- does to each breaker what the time would do to it, and nothing else. Any other request gets 404 if
-- it is not a GET and 403 otherwise, is told of no breaker, and changes nothing.
pub handle_health_cases :
    (clock : String → ℤ) (operator_token message : Bytes) (is_get : Bool) (authorization : Bytes)
    (s : Server)
    → let (s', reply) = handle_health clock operator_token is_get authorization s in
      Outcome clock operator_token is_get authorization s s' reply
        (write_reply message reply).status
unfolding handle_health write_reply write_json write_error
handle_health_cases clock operator_token message false authorization s = no_page refl
handle_health_cases clock operator_token message true authorization s =
    elim (Option-cases (bearer authorization)) [
      | inl nobody ↦ rw nobody (denied refl λ e. not_some operator_token (sym nobody ∙ e))
      | inr (raw, found) ↦ elim (Bool-cases (eq_bytes raw operator_token)) [
        | inl own ↦
            rw (found, own)
              (shown (snapshot_all clock s.breakers).0 (snapshot_all clock s.breakers).1 refl
                (found ∙ ap some ((eq_bytes_iff raw operator_token).0 own))
                (λ name. lookup-snapshot_all clock name s.breakers)
                (λ name. lookup-told clock name s.breakers) (names_of-told clock s.breakers))
        | inr other ↦
            rw (found, other) (denied refl λ e. not_equal raw operator_token other (sym found ∙ e))
      ]
    ]
