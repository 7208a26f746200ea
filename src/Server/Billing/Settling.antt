-- ===== src/Server/Billing/Settling.antt =====
-- What the outcome of an attempt (`handleStream` in internal/server/server.go, after `runAttempt`) does
-- to the accounts.
use stream_guard.Prelude.{
  ◌+◌, ℤ, pos, pos_part, IsInt64, Bool, true, false, List, Option, none, some, String, ◌≡◌, ◌≢◌,
  ◌⊎◌, inl, refl, ap, ap₂, ◌∙◌, arith,
}
use stream_guard.Budget.{release}
use stream_guard.Budget.Bounds.{release_exact, release-IsBudgeted}
use stream_guard.Ledger
use stream_guard.Cascade.{
  Session, Status, complete, shutdown, truncated, finish_attempt, start_attempt,
}
use stream_guard.Cascade
use stream_guard.Config.{Provider}
use stream_guard.Protocol.{FailoverReason, failover_name}
use stream_guard.Server.{
  Err, err_malformed, err_silent_hang, err_other, err_canceled, err_forced_shutdown,
  err_budget_exceeded, Shared,
}
use stream_guard.Server.Stream.{
  Progress, returned, left, Next, again, exit, Periods, fail_over, hand_on, search_next,
  note_failure, classify, bill, with_status,
}
use stream_guard.Server.Rounds.{settle}
use stream_guard.Server.Accounting.{Holds}

-- Whether a request of this status was billed, and then, whether as a cut one.
abbrev pub billing_of : Status → Option Bool
billing_of complete = some false
billing_of shutdown = some true
billing_of truncated = some true
billing_of _ = none

-- How a request leaves the account: the tokens of its last attempt are in use and billed under one
-- ledger entry, as the final status says; or, with a status that is not final, nothing is billed,
-- and the tokens of the last attempt, or none, are in use.
pub data Settled (s₀ : Shared) (h : Progress) : Type 0 where
  billed :
      (provider period : String) (cut : Bool)
      → billing_of h.session.status ≡ some cut
      → pos_part h.shared.key.tokens_used
        ≡ pos_part s₀.key.tokens_used + pos_part h.final_attempt_tokens
      → h.shared.ledger
        ≡ Ledger.record_in s₀.key.key_hash provider period h.final_attempt_tokens cut s₀.ledger
      → Settled s₀ h
  unbilled :
      (tokens : ℤ)
      → billing_of h.session.status ≡ none
      → (tokens ≡ h.final_attempt_tokens) ⊎ (tokens ≡ pos 0)
      → pos_part h.shared.key.tokens_used ≡ pos_part s₀.key.tokens_used + pos_part tokens
      → h.shared.ledger ≡ s₀.ledger
      → Settled s₀ h

-- The accounts between two rounds: everything has been given back.
pub record IsClear (s₀ : Shared) (h : Progress) : Type 0 where
  pub account : Holds s₀ h.shared (pos 0)
  pub untouched : h.attempted ≡ 0 → h.final_attempt_tokens ≡ pos 0
  pub unsettled : billing_of h.session.status ≡ none

-- And after an attempt.
pub record IsOpen (s₀ : Shared) (h : Progress) : Type 0 where
  pub account : Holds s₀ h.shared h.final_attempt_tokens
  pub tried : h.attempted ≢ 0

-- And after an attempt, its status still open.
pub record IsTried (s₀ : Shared) (h : Progress) : Type 0 where
  pub opened : IsOpen s₀ h
  pub unsettled : billing_of h.session.status ≡ none

-- What `settle` and a round leave: the loop goes on with clear accounts, or the request ends.
unfoldable pub After : Shared → (Progress × Next) → Type 0
After s₀ (h, again) = IsClear s₀ h
After s₀ (h, exit returned) = Settled s₀ h
After s₀ (h, exit (left none)) = ⊥
After s₀ (h, exit (left (some r))) = IsOpen s₀ h

pub tokens_fit : (s₀ s : Shared) (t : ℤ) → Holds s₀ s t → IsInt64 t
tokens_fit s₀ s t v = ground arith

pub release-clear :
    (s₀ s : Shared) (t : ℤ) → Holds s₀ s t → Holds s₀ (record s { key = release s.key t }) (pos 0)
release-clear s₀ s t v =
    let fits = tokens_fit s₀ s t v in
    let e = release_exact s.key t v.budgeted fits v.nonneg in
    record {
      budgeted = release-IsBudgeted s.key t v.budgeted fits;
      same_budget = rw e v.same_budget;
      same_hash = rw e v.same_hash;
      same_ledger = v.same_ledger;
      nonneg = omega arith;
      held = rw e (omega (arith, v.held));
    }

-- The accounts see the key and the ledger only.
pub same_account :
    (s₀ s s' : Shared) (t : ℤ)
    → s'.key ≡ s.key
    → s'.ledger ≡ s.ledger
    → Holds s₀ s t
    → Holds s₀ s' t
same_account s₀ s s' t k l v = record {
  budgeted = rw k v.budgeted;
  same_budget = rw k v.same_budget;
  same_hash = rw k v.same_hash;
  same_ledger = l ∙ v.same_ledger;
  nonneg = v.nonneg;
  held = rw k v.held;
}

pub hand_on-After :
    (s₀ : Shared) (p : Provider) (reason : FailoverReason) (h : Progress) (found : Option Provider)
    → IsTried s₀ h
    → After s₀ (hand_on p reason h found)
unfolding hand_on After
hand_on-After s₀ p reason h none v = v.opened
hand_on-After s₀ p reason h (some next) v = record {
  account = release-clear s₀ h.shared h.final_attempt_tokens v.opened.account;
  untouched = λ e. absurd (v.opened.tried e);
  unsettled = v.unsettled;
}

-- Finishing an attempt leaves the status.
pub finish_attempt-status :
    (index : ℤ) (outcome : String) (tokens ended : ℤ) (s : Session)
    → (finish_attempt index outcome tokens ended s).status ≡ s.status
unfolding finish_attempt
finish_attempt-status index outcome tokens ended s = ground arith

pub fail_over-After :
    (s₀ : Shared) (now index : ℤ) (p : Provider) (rest : List Provider) (e : Err) (h : Progress)
    → IsOpen s₀ h
    → After s₀ (fail_over now p rest index e h)
unfolding fail_over search_next note_failure
fail_over-After s₀ now index p rest e h v = hand_on-After s₀ p (classify e) _ _ (record {
  opened = record {
    account = same_account s₀ h.shared _ h.final_attempt_tokens refl refl v.account;
    tried = v.tried;
  };
  unsettled = ap billing_of (
      finish_attempt-status index (failover_name (classify e)) h.final_attempt_tokens now
        (with_status Cascade.failover h.session));
})

pub bill-Settled :
    (s₀ : Shared) (period : Periods) (provider : String) (now : ℤ) (cut : Bool) (h : Progress)
    → billing_of h.session.status ≡ some cut
    → Holds s₀ h.shared h.final_attempt_tokens
    → Settled s₀ (bill period provider now h.final_attempt_tokens cut h)
bill-Settled s₀ period provider now cut h e v =
    billed provider (period now s₀.ledger) cut e v.held (
      ap₂ (λ k l. Ledger.record_in k provider (period now l) h.final_attempt_tokens cut l)
        v.same_hash v.same_ledger)

pub settle-After :
    (s₀ : Shared) (period : Periods) (now index : ℤ) (p : Provider) (rest : List Provider)
    (e : Option Err) (h : Progress)
    → IsTried s₀ h
    → After s₀ (settle period now p rest index e h)
unfolding settle After
settle-After s₀ period now index p rest none h v =
    bill-Settled s₀ period p.name now false _
      (ap billing_of
        (finish_attempt-status index "success" (pos 0) now (with_status complete h.session)))
      (same_account s₀ h.shared _ h.final_attempt_tokens refl refl v.opened.account)
settle-After s₀ period now index p rest (some err_malformed) h v =
    fail_over-After s₀ now index p rest err_malformed h v.opened
settle-After s₀ period now index p rest (some err_silent_hang) h v =
    fail_over-After s₀ now index p rest err_silent_hang h v.opened
settle-After s₀ period now index p rest (some err_other) h v =
    fail_over-After s₀ now index p rest err_other h v.opened
settle-After s₀ period now index p rest (some err_forced_shutdown) h v =
    bill-Settled s₀ period p.name now true _
      (ap billing_of (
        finish_attempt-status index "shutdown" h.final_attempt_tokens now
          (with_status shutdown h.session)))
      v.opened.account
settle-After s₀ period now index p rest (some err_canceled) h v =
    unbilled h.final_attempt_tokens
      (ap billing_of
          (finish_attempt-status index "client_cancelled" h.final_attempt_tokens now h.session)
        ∙ v.unsettled)
      (inl refl) v.opened.account.held v.opened.account.same_ledger
settle-After s₀ period now index p rest (some err_budget_exceeded) h v = record {
  account = same_account s₀ h.shared _ h.final_attempt_tokens refl refl v.opened.account;
  tried = v.opened.tried;
}
