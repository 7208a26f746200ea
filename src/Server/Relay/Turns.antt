-- ===== src/Server/Relay/Turns.antt =====
-- One round of the failover loop of `handleStream` in internal/server/server.go, with a closed breaker
-- and an upstream whose course is known.
use stream_guard.Prelude.{
  add64, wrap64-IsInt64, ◌+ℤ◌, Bool, String, ℕ, ◌+◌, ◌≤◌, ℤ, pos, pos_part, true, false, List, [],
  ◌∷◌, ◌++◌, Option, none, some, ◌==◌, if◌then◌else◌, ◌≡◌, refl, sym, ap, ap₂, subst, ◌∙◌, arith,
}
use stream_guard.Text.{Bytes, codes}
use stream_guard.Budget.{release}
use stream_guard.Budget.Bounds.{IsBudgeted, release_exact}
use stream_guard.Breaker.{closed}
use stream_guard.Ledger
use stream_guard.Cascade.{Session, Status, truncated, finish_attempt, complete, start_attempt}
use stream_guard.Cascade
use stream_guard.Config.{Provider}
use stream_guard.Protocol.{failover_name, all_providers_exhausted, Payload, status}
use stream_guard.Server.{
  Err, err_malformed, err_silent_hang, err_other, err_canceled, err_forced_shutdown,
  err_budget_exceeded, Shared, Counter, set_breaker,
}
use stream_guard.Server.Stream.{
  Turn, Progress, returned, Next, again, exit, Periods, open_attempt, admit_provider, perform,
  fail_over, hand_on, note_failure, classify, with_status, search_next, next_attemptable, left,
}
use stream_guard.Server.Rounds.{settle, attempt_provider, round, truncate}
use stream_guard.Server.Billing.Settling.{finish_attempt-status}
use stream_guard.Server.Relay.Texts.{Plays, run_attempt-Plays, spent}
use stream_guard.Server.Relay.Closed.{
  IsRetried, Served, switch, ending, IsQuiet, AreClosed, HasOwnNames, IsFresh, admit_closed,
  search_closed, set_same-AreClosed, set_other-AreClosed,
}

-- What is sent before the texts of a provider.
abbrev pub announced : Provider → Progress → List Payload
announced p h =
    if h.status_sent
    then h.out
    else h.out ++ status (record { state = codes "healthy"; provider = codes p.name }) ∷ []

abbrev pub announced_first : List Provider → Progress → List Payload
announced_first [] h = h.out
announced_first (p ∷ rest) h = announced p h

-- The variables once a provider has been tried.
pub record IsTried (s₀ : Shared) (n : ℕ) (sent : ℤ) (tokens : ℕ) (p : Provider)
    (shown : List Payload) (h h' : Progress) : Type 0 where
  pub key : h'.shared.key ≡ spent s₀.key tokens
  pub ledger : h'.shared.ledger ≡ s₀.ledger
  pub breakers :
      h'.shared.breakers ≡ set_breaker p.name (h.shared.breakers p.name) h.shared.breakers
  pub unclaimed : h'.claimed_probes ≡ []
  pub failovers : h'.failovers ≡ n
  pub status_sent : h'.status_sent ≡ true
  pub out : h'.out ≡ announced p h ++ shown
  pub own_tokens : h'.final_attempt_tokens ≡ pos tokens
  pub delivered : h'.total_delivered ≡ add64 sent (pos tokens)
  pub final : h'.session.final_provider ≡ p.name

from_zero : (n : ℕ) → pos (0 + n) ≡ pos n
from_zero n = ap pos (omega arith)

-- The count of the key, and that so much more fits.
pub record HasSpace (s₀ : Shared) (room : ℕ) : Type 0 where
  pub budgeted : IsBudgeted s₀.key
  pub fits : pos_part s₀.key.tokens_used + room ≤ pos_part s₀.key.token_budget

abbrev pub final_status : Bool → Status
final_status true = truncated
final_status false = complete

-- How a request leaves the program.
pub record EndedBy (period : Periods) (s₀ : Shared) (shown : List Payload) (w : Served)
    (h : Progress) : Type 0 where
  pub status : h.session.status ≡ final_status w.cut
  pub key : h.shared.key ≡ spent s₀.key w.tokens
  pub out : h.out ≡ shown
  pub billed :
      h.shared.ledger
      ≡ Ledger.record_in s₀.key.key_hash w.provider.name
          (period w.at s₀.ledger)
          (pos w.tokens)
          w.cut
          s₀.ledger

finish_attempt-final_provider :
    (index : ℤ) (outcome : String) (tokens ended : ℤ) (s : Session)
    → (finish_attempt index outcome tokens ended s).final_provider ≡ s.final_provider
unfolding finish_attempt
finish_attempt-final_provider index outcome tokens ended s = ground arith

module _ (period : Periods) (count : Counter) (model : Bytes) (s₀ : Shared) where
  abbrev pub opened : Turn → Provider → Progress → Progress × ℤ
  opened t p h = open_attempt t.started p (record h {
    shared = record h.shared {
      breakers = set_breaker p.name (h.shared.breakers p.name) h.shared.breakers;
    };
  })

  abbrev pub tried : Turn → Provider → Progress → Progress × Option Err
  tried t p h = perform count model p t.upstream (opened t p h).0

  try-IsTried :
      (n : ℕ) (sent : ℤ) (t : Turn) (p : Provider) (rest : List Provider) (h : Progress)
      (tokens room : ℕ) (shown : List Payload) (result : Option Err)
      → IsFresh s₀ n sent (p ∷ rest) h
      → HasSpace s₀ room
      → tokens ≤ room
      → Plays (count p.name model) t.upstream tokens shown result
      → ((tried t p h).1 ≡ result) × IsTried s₀ n sent tokens p shown h (tried t p h).0
  unfolding open_attempt perform start_attempt
  try-IsTried n sent t p rest h tokens room shown result v f le plays =
      let (e, heard) =
        run_attempt-Plays count model p t.upstream tokens shown result _ plays refl (record {
          budgeted = rw v.key f.budgeted;
          room = rw v.key (omega (arith, f.fits, le));
          nonneg = omega arith;
          counted = omega arith;
          total_fits = rw v.delivered v.delivered_fits;
        }) in
      (
        e,
        record {
          key = heard.key ∙ ap (λ k. spent k tokens) v.key;
          ledger = heard.ledger ∙ v.ledger;
          breakers = heard.breakers;
          unclaimed = v.unclaimed;
          failovers = v.failovers;
          status_sent = refl;
          out = heard.out;
          own_tokens = heard.tokens ∙ from_zero tokens;
          delivered = heard.total ∙ ap (λ x. add64 x (pos tokens)) v.delivered;
          final = refl;
        },
      )

  round_closed :
      (n : ℕ) (sent : ℤ) (t : Turn) (p : Provider) (rest : List Provider) (h : Progress)
      → IsFresh s₀ n sent (p ∷ rest) h
      → IsQuiet t
      → round period count model t p rest h
        ≡ settle period t.ended p rest (opened t p h).1 (tried t p h).1 (tried t p h).0
  unfolding round attempt_provider
  round_closed n sent t p rest h v quiet =
      let before = record h { shared = t.before h.shared } in
      let same : before ≡ h = ap (λ x. record h { shared = x }) (quiet.0 h.shared) in
      let admitted =
        ap (admit_provider t.started p) same
        ∙ admit_closed t.started p h v.unclaimed v.closed_left.0 in
      rw (ap (λ x. x.1) admitted, ap (λ x. x.0) admitted, round)
        (rw (quiet.1 (tried t p h).0.shared, attempt_provider))

  settle_retried :
      (now index : ℤ) (p : Provider) (rest : List Provider) (e : Err) (h : Progress)
      → IsRetried e
      → settle period now p rest index (some e) h ≡ fail_over now p rest index e h
  unfolding settle
  settle_retried now index p rest err_malformed h k = refl
  settle_retried now index p rest err_silent_hang h k = refl
  settle_retried now index p rest err_other h k = refl
  settle_retried now index p rest err_canceled h k = absurd k
  settle_retried now index p rest err_forced_shutdown h k = absurd k
  settle_retried now index p rest err_budget_exceeded h k = absurd k

  fail_over_next :
      (now index : ℤ) (p q : Provider) (rest : List Provider) (e : Err) (h : Progress)
      → (h.shared.breakers q.name).state ≡ closed
      → p.name == q.name ≡ false
      → let reason = classify e in
        let noted = note_failure now p index reason h in
        fail_over now p (q ∷ rest) index e h
        ≡ hand_on p reason
            (record noted {
              shared = record noted.shared {
                breakers = set_breaker q.name (noted.shared.breakers q.name) noted.shared.breakers;
              };
            })
            (some q)
  unfolding fail_over note_failure
  fail_over_next now index p q rest e h c other =
      let noted = note_failure now p index (classify e) h in
      let found = search_closed now q rest noted (unfold set_breaker in (rw other c)) in
      rw (ap (λ x. x.1) found, ap (λ x. x.0) found)

  release-spent :
      (tokens room : ℕ)
      → HasSpace s₀ room
      → tokens ≤ room
      → release (spent s₀.key tokens) (pos tokens) ≡ s₀.key
  release-spent tokens room f le =
      let b : IsBudgeted (spent s₀.key tokens) = record {
        budget_fits = f.budgeted.budget_fits;
        used_nonneg = omega arith;
        used_within = grind (arith, f.fits, le, f.budgeted.used_nonneg, f.budgeted.used_within);
      } in
      release_exact (spent s₀.key tokens) (pos tokens) b (ground arith) (omega arith)
      ∙ ground (arith, f.budgeted.used_nonneg)

  -- What the loop has after a round whose provider failed.
  pub record HandedOn (n : ℕ) (sent : ℤ) (p q : Provider) (rest : List Provider) (tokens : ℕ)
      (e : Err) (shown : List Payload) (h : Progress) (r : Progress × Next) : Type 0 where
    pub on : r.1 ≡ again
    pub fresh : IsFresh s₀ (n + 1) (add64 sent (pos tokens)) (q ∷ rest) r.0
    pub status_sent : r.0.status_sent ≡ true
    pub out : r.0.out ≡ announced p h ++ shown ++ switch p q (classify e) (pos tokens) n

  pub fail-HandedOn :
      (n : ℕ) (sent : ℤ) (t : Turn) (p q : Provider) (rest : List Provider) (h : Progress)
      (tokens room : ℕ) (shown : List Payload) (e : Err)
      → IsFresh s₀ n sent (p ∷ q ∷ rest) h
      → HasOwnNames (p ∷ q ∷ rest)
      → HasSpace s₀ room
      → tokens ≤ room
      → IsQuiet t
      → Plays (count p.name model) t.upstream tokens shown (some e)
      → IsRetried e
      → HandedOn n sent p q rest tokens e shown h (round period count model t p (q ∷ rest) h)
  unfolding hand_on note_failure
  fail-HandedOn n sent t p q rest h tokens room shown e v own f le quiet plays k =
      let (failed, v') =
        try-IsTried n sent t p (q ∷ rest) h tokens room shown (some e) v f le plays in
      let h' = (tried t p h).0 in
      let index = (opened t p h).1 in
      let left_closed : AreClosed h'.shared.breakers (q ∷ rest) =
        subst (λ b. AreClosed b (q ∷ rest)) (sym v'.breakers)
          (set_other-AreClosed p.name _ h.shared.breakers (q ∷ rest) own.0 v.closed_left.1) in
      let whole : round period count model t p (q ∷ rest) h
          ≡ fail_over t.ended p (q ∷ rest) index e h' =
        round_closed n sent t p (q ∷ rest) h v quiet
        ∙ ap (λ r. settle period t.ended p (q ∷ rest) index r h') failed
        ∙ settle_retried t.ended index p (q ∷ rest) e h' k in
      let next = fail_over_next t.ended index p q rest e h' left_closed.0 own.0.0 in
      rw (whole ∙ next) (record {
        on = refl;
        fresh = record {
          key = ap₂ release v'.key v'.own_tokens ∙ release-spent tokens room f le;
          ledger = v'.ledger;
          unclaimed = v'.unclaimed;
          failovers = ap (λ i. i + 1) v'.failovers;
          delivered = v'.delivered;
          delivered_fits = wrap64-IsInt64 (sent +ℤ pos tokens);
          closed_left =
              set_same-AreClosed q.name _ (q ∷ rest)
                (set_other-AreClosed p.name _ h'.shared.breakers (q ∷ rest) own.0 left_closed);
        };
        status_sent = v'.status_sent;
        out =
            ap₂ (λ out more. out ++ more) v'.out
              (ap₂ (λ own i. switch p q (classify e) own i) v'.own_tokens v'.failovers);
      })

  pub serve-returned :
      (n : ℕ) (sent : ℤ) (t : Turn) (p : Provider) (rest : List Provider) (h : Progress)
      (tokens room : ℕ) (shown : List Payload)
      → IsFresh s₀ n sent (p ∷ rest) h
      → HasSpace s₀ room
      → tokens ≤ room
      → IsQuiet t
      → Plays (count p.name model) t.upstream tokens shown none
      → let (h', next) = round period count model t p rest h in
        (next ≡ exit returned)
        × EndedBy period s₀
            (announced p h ++ shown)
            (record { provider = p; tokens = tokens; at = t.ended; cut = false })
            h'
  unfolding settle
  serve-returned n sent t p rest h tokens room shown v f le quiet plays =
      let (done, v') = try-IsTried n sent t p rest h tokens room shown none v f le plays in
      let index = (opened t p h).1 in
      let h' = (tried t p h).0 in
      let whole =
        round_closed n sent t p rest h v quiet
        ∙ ap (λ r. settle period t.ended p rest index r h') done in
      rw whole (
        refl,
        record {
          status =
              finish_attempt-status index "success" (pos 0) t.ended
                (with_status complete h'.session);
          key = v'.key;
          out = v'.out;
          billed = rw (v'.own_tokens, v'.ledger, ap (λ k. k.key_hash) v'.key);
        },
      )

  pub fail-last :
      (n : ℕ) (sent : ℤ) (t : Turn) (p : Provider) (h : Progress) (tokens room : ℕ)
      (shown : List Payload) (e : Err) (now : ℤ)
      → IsFresh s₀ n sent (p ∷ []) h
      → HasSpace s₀ room
      → tokens ≤ room
      → IsQuiet t
      → Plays (count p.name model) t.upstream tokens shown (some e)
      → IsRetried e
      → let (h', next) = round period count model t p [] h in
        (next ≡ exit (left (some all_providers_exhausted)))
        × EndedBy period s₀
            (announced p h ++ shown ++ ending (add64 sent (pos tokens)))
            (record { provider = p; tokens = tokens; at = now; cut = true })
            (truncate period now all_providers_exhausted h')
  unfolding fail_over search_next next_attemptable hand_on note_failure truncate
  fail-last n sent t p h tokens room shown e now v f le quiet plays k =
      let (failed, v') = try-IsTried n sent t p [] h tokens room shown (some e) v f le plays in
      let h' = (tried t p h).0 in
      let index = (opened t p h).1 in
      let whole : round period count model t p [] h ≡ fail_over t.ended p [] index e h' =
        round_closed n sent t p [] h v quiet
        ∙ ap (λ r. settle period t.ended p [] index r h') failed
        ∙ settle_retried t.ended index p [] e h' k in
      rw whole (
        refl,
        record {
          status = refl;
          key = v'.key;
          out = ap₂ (λ out d. out ++ ending d) v'.out v'.delivered;
          billed = rw (
            finish_attempt-final_provider index (failover_name (classify e)) h'.final_attempt_tokens
                t.ended (with_status Cascade.failover h'.session),
            v'.final,
            v'.own_tokens,
            v'.ledger,
            ap (λ k. k.key_hash) v'.key,
          );
        },
      )
