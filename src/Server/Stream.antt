-- ===== src/Server/Stream.antt =====
-- The failover loop of `handleStream` in internal/server/server.go, from the first provider to the
-- final event. Its HTTP checks come before it.
use stream_guard.Prelude.{
  ℕ, ◌+◌, ℤ, pos, Bool, true, false, ◌||◌, List, [], ◌∷◌, ◌++◌, Option, none, some, String, ◌==◌,
  if◌then◌else◌,
}
use stream_guard.Text.{Bytes, codes}
use stream_guard.Budget
use stream_guard.Breaker.{ProviderCircuitState, State, closed, open_, half_open}
use stream_guard.Breaker
use stream_guard.Ledger
use stream_guard.Cascade.{Session}
use stream_guard.Cascade
use stream_guard.Config.{Provider}
use stream_guard.Protocol.{
  Payload, FailoverData, status, failover, regenerating, FailoverReason, dead_socket, silent_hang,
  malformed, TruncatedReason, all_providers_exhausted, failover_name, failover_text,
}
use stream_guard.Server.{
  Err, err_malformed, err_silent_hang, Shared, Upstream, Counter, set_breaker, run_attempt,
}

-- The outside of one round: what others do before the provider's turn, the clock then, the upstream,
-- what others do before the outcome is recorded, and the clock then.
pub record Turn : Type 0 where
  pub before : Shared → Shared
  pub started : ℤ
  pub upstream : Upstream
  pub after : Shared → Shared
  pub ended : ℤ

-- The variables of `handleStream`.
pub record Progress : Type 0 where
  pub shared : Shared
  pub session : Session
  pub out : List Payload
  pub total_delivered : ℤ  -- int
  pub final_attempt_tokens : ℤ  -- int
  pub status_sent : Bool
  pub failovers : ℕ
  pub attempted : ℕ
  pub claimed_probes : List String

-- How the loop is left: by `return`, or by its end or a `break`, then with the reason if the stream
-- counts as truncated.
pub data Exit : Type 0 where
  returned : Exit
  left : Option TruncatedReason → Exit

pub data Next : Type 0 where
  again : Next
  exit : Exit → Next

unfoldable pub is_claimed : String → List String → Bool
is_claimed name [] = false
is_claimed name (n ∷ ns) = n == name || is_claimed name ns

unfoldable pub unclaim : String → List String → List String
unclaim name [] = []
unclaim name (n ∷ ns) = if n == name then unclaim name ns else n ∷ unclaim name ns

unfoldable pub classify : Err → FailoverReason
classify err_malformed = malformed
classify err_silent_hang = silent_hang
classify _ = dead_socket

-- The breakers, the claimed probes and the provider found.
abbrev Search : Type 0
Search = (String → ProviderCircuitState) × List String × Option Provider

-- `nextAttemptableProvider` from a place in the list on.
unfoldable pub next_attemptable :
    ℤ → List Provider → (String → ProviderCircuitState) → List String → Search
next_attemptable now [] breakers claimed = (breakers, claimed, none)
next_attemptable now (p ∷ ps) breakers claimed =
    let (br, st) = Breaker.current_state now (breakers p.name) in
    let (br', ok) = Breaker.try_claim_probe now br in
    elim st [
      | closed ↦ (set_breaker p.name br breakers, claimed, some p)
      | open_ ↦ next_attemptable now ps (set_breaker p.name br breakers) claimed
      | half_open ↦ elim ok [
        | true ↦ (set_breaker p.name br' breakers, p.name ∷ claimed, some p)
        | false ↦ next_attemptable now ps (set_breaker p.name br' breakers) claimed
      ]
    ]

-- Whether the provider may be tried: by a probe claimed for it before, or by its breaker.
unfoldable pub admit_provider : ℤ → Provider → Progress → Progress × Bool
admit_provider now p h =
    if is_claimed p.name h.claimed_probes
    then (record h { claimed_probes = unclaim p.name h.claimed_probes }, true)
    else let (br, ok) = Breaker.allow_attempt now (h.shared.breakers p.name) in
      (
        record h {
          shared = record h.shared { breakers = set_breaker p.name br h.shared.breakers };
        },
        ok,
      )

-- From `attempted++` to the status event; with the index of the attempt.
unfoldable pub open_attempt : ℤ → Provider → Progress → Progress × ℤ
open_attempt now p h =
    let (s, index) = Cascade.start_attempt p.name now h.session in
    (
      record h {
        attempted = h.attempted + 1;
        session = record s { final_provider = p.name };
        out =
            if h.status_sent
            then h.out
            else h.out ++ status (record { state = codes "healthy"; provider = codes p.name }) ∷ [];
        status_sent = true;
      },
      index,
    )

-- The call of `runAttempt` and the two assignments after it.
unfoldable pub perform : Counter → Bytes → Provider → Upstream → Progress → Progress × Option Err
perform count model p u h =
    let (m, result) =
      run_attempt count model p u
        (record { shared = h.shared; out = h.out; total = h.total_delivered; tokens = pos 0 }) in
    (
      record h {
        shared = m.shared;
        out = m.out;
        total_delivered = m.total;
        final_attempt_tokens = m.tokens;
        session = record h.session { final_attempt_tokens = m.tokens };
      },
      result,
    )

abbrev pub on_breaker :
    (ProviderCircuitState → ProviderCircuitState) → Provider → Progress → Progress
on_breaker f p h = record h {
  shared = record h.shared {
    breakers = set_breaker p.name (f (h.shared.breakers p.name)) h.shared.breakers;
  };
}

abbrev pub on_session : (Session → Session) → Progress → Progress
on_session f h = record h { session = f h.session }

abbrev pub with_status : Cascade.Status → Session → Session
with_status st s = record s { status = st }

-- `period` names the billing period of a time.
abbrev pub Periods : Type 0
Periods = ℤ → Ledger.Store → String

abbrev pub bill : Periods → String → ℤ → ℤ → Bool → Progress → Progress
bill period provider now tokens cut h = record h {
  shared = record h.shared {
    ledger =
        Ledger.record_in h.shared.key.key_hash provider (period now h.shared.ledger) tokens cut
          h.shared.ledger;
  };
}

-- The breaker and the session of a provider that failed.
unfoldable pub note_failure : ℤ → Provider → ℤ → FailoverReason → Progress → Progress
note_failure now p index reason h =
    on_session
      (λ s.
        Cascade.finish_attempt index (failover_name reason) h.final_attempt_tokens now
          (with_status Cascade.failover s))
      (on_breaker (Breaker.record_failure now) p h)

-- The call of `nextAttemptableProvider`.
unfoldable pub search_next : ℤ → List Provider → Progress → Progress × Option Provider
search_next now rest h =
    let (breakers, claimed, found) = next_attemptable now rest h.shared.breakers h.claimed_probes in
    (record h { shared = record h.shared { breakers = breakers }; claimed_probes = claimed }, found)

-- The announcement of the next provider.
abbrev pub failover_event : Provider → FailoverReason → Progress → Provider → FailoverData
failover_event p reason h next = record {
  reason = failover_text reason;
  tokens_delivered_before_failure = h.final_attempt_tokens;
  provider_from = codes p.name;
  provider_to = codes next.name;
  attempt = pos (h.failovers + 1);
}

-- The two ends of the loop's body after a failure.
unfoldable pub hand_on : Provider → FailoverReason → Progress → Option Provider → Progress × Next
hand_on p reason h none = (h, exit (left (some all_providers_exhausted)))
hand_on p reason h (some next) = (
  record h {
    failovers = h.failovers + 1;
    shared = record h.shared { key = Budget.release h.shared.key h.final_attempt_tokens };
    out =
        h.out
        ++ failover (failover_event p reason h next)
          ∷ regenerating (record { keep_partial_visible = true })
          ∷ [];
  },
  again,
)

-- A failure of the provider: the rest of the loop's body, for the providers left.
unfoldable pub fail_over : ℤ → Provider → List Provider → ℤ → Err → Progress → Progress × Next
fail_over now p rest index e h =
    let (h', found) = search_next now rest (note_failure now p index (classify e) h) in
    hand_on p (classify e) h' found

-- The variables before the loop.
unfoldable pub begin : Shared → Session → Progress
begin s session = record {
  shared = s;
  session = with_status Cascade.streaming session;
  out = [];
  total_delivered = pos 0;
  final_attempt_tokens = pos 0;
  status_sent = false;
  failovers = 0;
  attempted = 0;
  claimed_probes = [];
}
