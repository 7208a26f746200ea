-- ===== src/Server/Rounds.antt =====
-- The rounds of the failover loop of `handleStream` in internal/server/server.go, and its end.
use stream_guard.Prelude.{
  ℕ, suc, ℤ, pos, true, false, List, [], ◌∷◌, ◌++◌, Option, none, some, eqb, if◌then◌else◌,
}
use stream_guard.Text.{Bytes}
use stream_guard.Breaker
use stream_guard.Cascade
use stream_guard.Config.{Provider}
use stream_guard.Protocol.{
  truncated, TruncatedReason, all_providers_exhausted, budget_exceeded, truncated_text,
}
use stream_guard.Server.{
  Err, err_malformed, err_silent_hang, err_canceled, err_forced_shutdown, err_budget_exceeded,
  err_other, Counter,
}
use stream_guard.Server.Stream.{
  Turn, Progress, Exit, returned, left, Next, again, exit, Periods, bill, on_breaker, on_session,
  with_status, fail_over, perform, open_attempt, admit_provider,
}

module _ (period : Periods) where
  -- What follows `runAttempt`, by its error.
  unfoldable pub settle : ℤ → Provider → List Provider → ℤ → Option Err → Progress → Progress × Next
  settle now p rest index none h = (
    bill period p.name now h.final_attempt_tokens false (
        on_session
          (λ s. Cascade.finish_attempt index "success" (pos 0) now (with_status Cascade.complete s))
          (on_breaker (Breaker.record_success now) p h)),
    exit returned,
  )
  settle now p rest index (some err_forced_shutdown) h = (
    bill period p.name now h.final_attempt_tokens true (
        on_session
          (λ s.
            Cascade.finish_attempt index "shutdown" h.final_attempt_tokens now
              (with_status Cascade.shutdown s))
          h),
    exit returned,
  )
  settle now p rest index (some err_canceled) h = (
    on_session (Cascade.finish_attempt index "client_cancelled" h.final_attempt_tokens now) h,
    exit returned,
  )
  settle now p rest index (some err_budget_exceeded) h = (
    on_session
        (λ s.
          Cascade.finish_attempt index "budget_exceeded" h.final_attempt_tokens now
            (with_status Cascade.truncated s))
        (on_breaker (Breaker.record_success now) p h),
    exit (left (some budget_exceeded)),
  )
  settle now p rest index (some err_malformed) h = fail_over now p rest index err_malformed h
  settle now p rest index (some err_silent_hang) h = fail_over now p rest index err_silent_hang h
  settle now p rest index (some err_other) h = fail_over now p rest index err_other h

  -- An admitted provider's round.
  unfoldable pub attempt_provider :
      Counter → Bytes → Turn → Provider → List Provider → Progress → Progress × Next
  attempt_provider count model t p rest h =
      let (opened, index) = open_attempt t.started p h in
      let (done, result) = perform count model p t.upstream opened in
      settle t.ended p rest index result (record done { shared = t.after done.shared })

  -- One round of the loop.
  unfoldable pub round :
      Counter → Bytes → Turn → Provider → List Provider → Progress → Progress × Next
  round count model t p rest h =
      let (h', allowed) = admit_provider t.started p (record h { shared = t.before h.shared }) in
      elim allowed [ true ↦ attempt_provider count model t p rest h' | false ↦ (h', again) ]

  -- The loop, with the round's number.
  unfoldable pub rounds :
      Counter → Bytes → (ℕ → Turn) → ℕ → List Provider → Progress → Progress × Exit
  rounds count model turns i [] h = (h, left none)
  rounds count model turns i (p ∷ rest) h =
      let (h', next) = round count model (turns i) p rest h in
      elim next [ exit e ↦ (h', e) | again ↦ rounds count model turns (suc i) rest h' ]

  -- The truncation: status, event and ledger.
  unfoldable pub truncate : ℤ → TruncatedReason → Progress → Progress
  truncate now reason h =
      bill period h.session.final_provider now h.final_attempt_tokens true (record h {
        session = with_status Cascade.truncated h.session;
        out =
            h.out
            ++ truncated (record {
              reason = truncated_text reason;
              tokens_delivered = h.total_delivered;
              final = true;
            })
              ∷ [];
      })

  -- What follows the loop.
  unfoldable pub conclude : ℤ → Exit → Progress → Progress
  conclude now returned h = h
  conclude now (left (some reason)) h = truncate now reason h
  conclude now (left none) h =
      if eqb h.attempted 0 then truncate now all_providers_exhausted h else h

  -- From `totalDelivered := 0` to the end of `handleStream`.
  unfoldable pub stream : Counter → Bytes → (ℕ → Turn) → ℤ → List Provider → Progress → Progress
  stream count model turns now providers h =
      let (h', e) = rounds count model turns 0 providers h in conclude now e h'
