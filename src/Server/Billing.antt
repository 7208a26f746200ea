-- ===== src/Server/Billing.antt =====
-- The accounts of a whole stream (`handleStream` in internal/server/server.go): what stays in use of
-- the key's budget is what is billed, and failed attempts are given back.
pub mod Settling
use stream_guard.Prelude.{
  ℕ, ◌+◌, suc, ℤ, pos, pos_part, IsInt64, Bool, true, false, List, [], ◌∷◌, Option, none, some,
  String, eqb, eqb_iff, ◌≡◌, ◌≢◌, ◌⊎◌, inl, inr, refl, ap, ap₂, ◌∙◌, arith, Bool-cases,
}
use stream_guard.Text.{Bytes}
use stream_guard.Budget.{release}
use stream_guard.Budget.Bounds.{IsBudgeted, release_exact, release-IsBudgeted}
use stream_guard.Ledger
use stream_guard.Cascade.{
  Session, Status, complete, shutdown, truncated, finish_attempt, start_attempt,
}
use stream_guard.Cascade
use stream_guard.Config.{Provider}
use stream_guard.Protocol.{FailoverReason, all_providers_exhausted, TruncatedReason, failover_name}
use stream_guard.Server.{
  Err, err_malformed, err_silent_hang, err_other, err_canceled, err_forced_shutdown,
  err_budget_exceeded, Shared, Counter,
}
use stream_guard.Server.Stream.{
  Turn, Progress, Exit, returned, left, Next, again, exit, Periods, begin, open_attempt,
  admit_provider, perform, fail_over, hand_on, search_next, note_failure, classify, bill,
  with_status, is_claimed,
}
use stream_guard.Server.Rounds.{settle, attempt_provider, round, rounds, truncate, conclude, stream}
use stream_guard.Server.Accounting.{Holds, IsHonestUpstream, run_attempt-Holds}
use stream_guard.Server.Billing.Settling.{
  billing_of, unbilled, Settled, IsClear, IsOpen, IsTried, After, tokens_fit, release-clear,
  same_account, hand_on-After, finish_attempt-status, fail_over-After, bill-Settled, settle-After,
}

-- No other request between, and an honest upstream.
pub record IsAlone (s₀ : Shared) (count : Bytes → Bytes → ℤ) (t : Turn) : Type 0 where
  pub quiet_before : (s : Shared) → t.before s ≡ s
  pub quiet_after : (s : Shared) → t.after s ≡ s
  pub honest : IsHonestUpstream s₀ count t.upstream

admit-Holds :
    (s₀ : Shared) (now : ℤ) (p : Provider) (h : Progress)
    → IsClear s₀ h
    → IsClear s₀ (admit_provider now p h).0
unfolding admit_provider
admit-Holds s₀ now p h v = elim (Bool-cases (is_claimed p.name h.claimed_probes)) [
  | inl e ↦
      rw (e, admit_provider)
        (record { account = v.account; untouched = v.untouched; unsettled = v.unsettled })
  | inr e ↦
      rw (e, admit_provider)
        (record {
          account = same_account s₀ h.shared _ (pos 0) refl refl v.account;
          untouched = v.untouched;
          unsettled = v.unsettled;
        })
]

attempt_provider-After :
    (s₀ : Shared) (period : Periods) (count : Counter) (model : Bytes) (t : Turn) (p : Provider)
    (rest : List Provider) (h : Progress)
    → IsAlone s₀ (count p.name model) t
    → IsClear s₀ h
    → After s₀ (attempt_provider period count model t p rest h)
unfolding attempt_provider open_attempt perform start_attempt
attempt_provider-After s₀ period count model t p rest h alone v =
    let opened = open_attempt t.started p h in
    let performed = perform count model p t.upstream opened.0 in
    settle-After s₀ period t.ended opened.1 p rest performed.1
      (record performed.0 { shared = t.after performed.0.shared })
      (record {
        opened = record {
          account =
              rw (alone.quiet_after performed.0.shared)
                (run_attempt-Holds count model p t.upstream s₀ _ refl v.account alone.honest);
          tried = λ e. omega arith;
        };
        unsettled = v.unsettled;
      })

round-After :
    (s₀ : Shared) (period : Periods) (count : Counter) (model : Bytes) (t : Turn) (p : Provider)
    (rest : List Provider) (h : Progress)
    → IsAlone s₀ (count p.name model) t
    → IsClear s₀ h
    → After s₀ (round period count model t p rest h)
unfolding round After
round-After s₀ period count model t p rest h alone v =
    let h₀ = record h { shared = t.before h.shared } in
    let admitted = admit_provider t.started p h₀ in
    let i = admit-Holds s₀ t.started p h₀ (record {
      account = rw (alone.quiet_before h.shared) v.account;
      untouched = v.untouched;
      unsettled = v.unsettled;
    }) in
    elim (Bool-cases admitted.1) [
      | inl e ↦
          rw (e, round) (attempt_provider-After s₀ period count model t p rest admitted.0 alone i)
      | inr e ↦ rw (e, round) i
    ]

-- Every turn of the list is undisturbed.
abbrev pub AllAlone : Shared → Counter → Bytes → (ℕ → Turn) → ℕ → List Provider → Type 0
AllAlone s₀ count model turns i [] = Unit
AllAlone s₀ count model turns i (p ∷ rest) =
    IsAlone s₀ (count p.name model) (turns i) × AllAlone s₀ count model turns (suc i) rest

-- How the loop leaves the accounts.
Left : Shared → (Progress × Exit) → Type 0
Left s₀ (h, returned) = Settled s₀ h
Left s₀ (h, left none) = IsClear s₀ h
Left s₀ (h, left (some r)) = IsOpen s₀ h

Next-cases : (n : Next) → ((e : Exit) × (n ≡ exit e)) ⊎ (n ≡ again)
Next-cases (exit e) = inl (e, refl)
Next-cases again = inr refl

After-exit : (s₀ : Shared) (h : Progress) (e : Exit) → After s₀ (h, exit e) → Left s₀ (h, e)
unfolding After Left
After-exit s₀ h returned v = v
After-exit s₀ h (left none) v = absurd v
After-exit s₀ h (left (some r)) v = v

rounds-Left :
    (s₀ : Shared) (period : Periods) (count : Counter) (model : Bytes) (turns : ℕ → Turn) (i : ℕ)
    (providers : List Provider) (h : Progress)
    → AllAlone s₀ count model turns i providers
    → IsClear s₀ h
    → Left s₀ (rounds period count model turns i providers h)
unfolding rounds Left
rounds-Left s₀ period count model turns i [] h alone v = v
rounds-Left s₀ period count model turns i (p ∷ rest) h alone v =
    let r = round period count model (turns i) p rest h in
    let a = round-After s₀ period count model (turns i) p rest h alone.0 v in
    elim (Next-cases r.1) [
      | inl (e, eq) ↦ rw (eq, rounds) (After-exit s₀ r.0 e (rw eq at a))
      | inr eq ↦
          rw (eq, rounds)
            (rounds-Left s₀ period count model turns (suc i) rest r.0 alone.1
              (unfold After in (rw eq at a)))
    ]

truncate-Settled :
    (s₀ : Shared) (period : Periods) (now : ℤ) (r : TruncatedReason) (h : Progress)
    → Holds s₀ h.shared h.final_attempt_tokens
    → Settled s₀ (truncate period now r h)
unfolding truncate
truncate-Settled s₀ period now r h v =
    bill-Settled s₀ period h.session.final_provider now true _ refl v

conclude-Settled :
    (s₀ : Shared) (period : Periods) (now : ℤ) (h : Progress) (e : Exit)
    → Left s₀ (h, e)
    → Settled s₀ (conclude period now e h)
unfolding conclude Left
conclude-Settled s₀ period now h returned v = v
conclude-Settled s₀ period now h (left (some r)) v = truncate-Settled s₀ period now r h v.account
conclude-Settled s₀ period now h (left none) v = elim (Bool-cases (eqb h.attempted 0)) [
  | inl e ↦ rw e (
      truncate-Settled s₀ period now all_providers_exhausted h
        (rw (v.untouched ((eqb_iff h.attempted 0).0 e)) v.account))
  | inr e ↦ rw e (unbilled (pos 0) v.unsettled (inr refl) v.account.held v.account.same_ledger)
]

-- Let the key's count lie within the budget, let no other request disturb this one, and let every
-- upstream be honest. Then `stream` settles the account: with the status complete, the tokens of
-- the last attempt, and only those, are in use and billed by one ledger entry that is not cut; with
-- truncated or shutdown the same with an entry that is cut; with any other status (the client went
-- away, or an announced provider was skipped) the ledger is untouched, and the tokens of the last
-- attempt, or none, are in use.
pub stream-Settled :
    (s : Shared) (period : Periods) (count : Counter) (model : Bytes) (turns : ℕ → Turn) (now : ℤ)
    (providers : List Provider) (session : Session)
    → IsBudgeted s.key
    → AllAlone s count model turns 0 providers
    → Settled s (stream period count model turns now providers (begin s session))
unfolding stream begin
stream-Settled s period count model turns now providers session b alone =
    let r = rounds period count model turns 0 providers (begin s session) in
    conclude-Settled s period now r.0 r.1 (
      rounds-Left s period count model turns 0 providers (begin s session) alone (record {
        account = record {
          budgeted = b;
          same_budget = refl;
          same_hash = refl;
          same_ledger = refl;
          nonneg = omega arith;
          held = omega arith;
        };
        untouched = λ e. refl;
        unsettled = refl;
      }))
