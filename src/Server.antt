-- ===== src/Server.antt =====
-- internal/server/server.go: one request's way through the providers. What other requests do to the
-- shared objects while this one waits is part of the script that stands for the outside world.
pub mod Endpoints
pub mod Replies
pub mod Dialing
pub mod Handler
pub mod Stream
pub mod Rounds
pub mod Sessions
pub mod Output
pub mod Accounting
pub mod Billing
pub mod Relay
use stream_guard.Prelude.{
  ℕ, ◌+◌, suc, ℤ, pos, add64, sub64, Bool, true, false, not, ◌&&◌, ◌||◌, List, [], ◌∷◌, ◌++◌,
  Option, none, some, String, ◌==◌, ltb_ℤ, leb_ℤ, eqb_ℤ, eqb, leb, if◌then◌else◌,
}
use stream_guard.Text.{Bytes, codes, eq_bytes, is_empty}
use stream_guard.Budget.{ApiKeyRecord}
use stream_guard.Budget
use stream_guard.Breaker.{ProviderCircuitState}
use stream_guard.Breaker
use stream_guard.RateLimit.{Limiter}
use stream_guard.RateLimit
use stream_guard.Ledger
use stream_guard.Cascade.{Session, Status, streaming, shutdown, complete}
use stream_guard.Cascade
use stream_guard.Config.{Provider}
use stream_guard.Parser.{Frame}
use stream_guard.Protocol.{
  Payload, status, failover, regenerating, truncated, content, FailoverReason, dead_socket,
  silent_hang, malformed, TruncatedReason, all_providers_exhausted, budget_exceeded, failover_text,
  truncated_text,
}

-- The errors that the code tells apart by `errors.Is`.
pub data Err : Type 0 where
  err_malformed err_silent_hang err_canceled err_forced_shutdown err_budget_exceeded err_other : Err

-- What requests share: the caller's key record, the breakers (one for each provider of the
-- configuration, so a lookup never misses), the limiter and the ledger.
pub record Shared : Type 0 where
  pub key : ApiKeyRecord
  pub breakers : String → ProviderCircuitState
  pub limiter : Limiter
  pub ledger : Ledger.Store

unfoldable pub set_breaker :
    String → ProviderCircuitState → (String → ProviderCircuitState) → String → ProviderCircuitState
set_breaker name br breakers other = if name == other then br else breakers other

-- A frame, with the error of writing it to the client, if any; or an error of `Next`, with whether
-- the context's cause is the forced shutdown.
pub data Incoming : Type 0 where
  frame : Frame → Option Err → Incoming
  fault : Err → Bool → Incoming

-- What `Next` returns, when, and what others did until then.
pub record Arrival : Type 0 where
  pub meanwhile : Shared → Shared
  pub at : ℤ
  pub what : Incoming

-- What comes of the upstream request: it cannot be built, it fails, or it is answered with a status,
-- the tokenizer header and a stream. A stream that ends is an error of `Next` (EOF).
pub data Upstream : Type 0 where
  unsent : Err → Upstream
  unreached : Err → Bool → Upstream
  answered : ℕ → Bytes → List Arrival → Upstream

-- An attempt so far.
pub record Attempt : Type 0 where
  pub shared : Shared
  pub out : List Payload
  pub total : ℤ  -- int, `*total`
  pub tokens : ℤ  -- int, `attemptTokens`

pub data Verdict : Type 0 where
  go_on : Verdict
  stop : Option Err → Verdict

abbrev is_canceled : Err → Bool
is_canceled err_canceled = true
is_canceled _ = false

-- The cause of the context decides what a cancellation means.
abbrev pub resolve : Err → Bool → Err
resolve e forced = if is_canceled e && forced then err_forced_shutdown else e

-- A reservation of the key, followed by the entry in the limiter if it succeeds.
unfoldable pub reserve : ℤ → ℤ → Shared → Shared × Bool
reserve at n s =
    let (key, ok) = Budget.try_reserve s.key n in
    if ok
    then (record s { key = key; limiter = RateLimit.add s.key.key_hash n at s.limiter }, true)
    else (record s { key = key }, false)

-- A usage frame: only a rise is reserved.
unfoldable pub take_usage : ℤ → ℤ → Attempt → Attempt × Verdict
take_usage at usage m =
    let delta = sub64 usage m.tokens in
    let (s, ok) = reserve at delta m.shared in
    if ltb_ℤ (pos 0) delta
    then if ok
      then (record m { shared = s; total = add64 m.total delta; tokens = usage }, go_on)
      else (record m { shared = s }, stop (some err_budget_exceeded))
    else (record m { total = add64 m.total delta; tokens = usage }, go_on)

abbrev pub at_least_one : ℤ → ℤ
at_least_one n = if eqb_ℤ n (pos 0) then pos 1 else n

-- A content frame of `n` tokens.
unfoldable pub take_content : ℤ → ℤ → Bytes → Option Err → Attempt → Attempt × Verdict
take_content at n text write_error m =
    let (s, ok) = reserve at n m.shared in
    if ok
    then elim write_error [
      | some e ↦ (record m { shared = s }, stop (some e))
      | none ↦ (
        record m {
          shared = s;
          out = m.out ++ content text ∷ [];
          tokens = add64 m.tokens n;
          total = add64 m.total n;
        },
        go_on,
      )
    ]
    else (record m { shared = s }, stop (some err_budget_exceeded))

-- `count` is the tokenizer, at the provider, the model and the header at hand.
module _ (count : Bytes → ℤ) where
  unfoldable pub take_frame : ℤ → Frame → Option Err → Attempt → Attempt × Verdict
  take_frame at f write_error m =
      if eq_bytes f.event (codes "done")
      then (m, stop none)
      else if f.has_usage
      then take_usage at f.usage_tokens m
      else if not (is_empty f.event)
      then (m, go_on)
      else take_content at (at_least_one (count f.text)) f.text write_error m

  unfoldable pub take : ℤ → Incoming → Attempt → Attempt × Verdict
  take at (fault e forced) m = (m, stop (some (resolve e forced)))
  take at (frame f write_error) m = take_frame at f write_error m

  -- The loop of `runAttempt`.
  unfoldable pub run_frames : List Arrival → Attempt → Attempt × Option Err
  run_frames [] m = (m, some err_other)
  run_frames (a ∷ rest) m =
      let (m', verdict) = take a.at a.what (record m { shared = a.meanwhile m.shared }) in
      elim verdict [ stop result ↦ (m', result) | go_on ↦ run_frames rest m' ]

-- The tokenizer: provider, model, header, text.
abbrev pub Counter : Type 0
Counter = String → Bytes → Bytes → Bytes → ℤ

unfoldable pub run_attempt : Counter → Bytes → Provider → Upstream → Attempt → Attempt × Option Err
run_attempt count model p (unsent e) m = (m, some e)
run_attempt count model p (unreached e forced) m = (m, some (resolve e forced))
run_attempt count model p (answered status_code hint arrivals) m =
    if leb 400 status_code
    then (m, some err_malformed)
    else run_frames (count p.name model hint) arrivals m
