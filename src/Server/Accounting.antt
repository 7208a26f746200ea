-- ===== src/Server/Accounting.antt =====
-- What one upstream attempt (`runAttempt` in internal/server/server.go) does to the budget of the
-- key while no other request intervenes.
use stream_guard.Prelude.{
  ◌+◌, ◌<◌, ◌≤◌, ℤ, pos, pos_part, ◌+ℤ◌, ◌-ℤ◌, ◌≤ℤ◌, +ℤ_parts, add64, sub64, wrap64_id, half_word,
  true, false, List, [], ◌∷◌, Option, none, ltb_ℤ, subst, if◌then◌else◌, ◌≡◌, ◌⊎◌, inl, inr, refl,
  ap, ◌∙◌, arith, Bool-cases,
}
use stream_guard.Text.{Bytes, codes, eq_bytes, is_empty}
use stream_guard.Budget.{try_reserve}
use stream_guard.Budget.Bounds.{IsBudgeted}
use stream_guard.Config.{Provider}
use stream_guard.Parser.{Frame}
use stream_guard.Server.{
  Err, at_least_one, Upstream, unsent, unreached, answered, Shared, Arrival, Incoming, frame, fault,
  Attempt, Counter, Verdict, go_on, stop, reserve, take, take_frame, take_usage, take_content,
  run_frames, run_attempt,
}

-- Compared with `s₀`, the key has `tokens` more in use, and the ledger is the same.
pub record Holds (s₀ s : Shared) (tokens : ℤ) : Type 0 where
  pub budgeted : IsBudgeted s.key
  pub same_budget : s.key.token_budget ≡ s₀.key.token_budget
  pub same_hash : s.key.key_hash ≡ s₀.key.key_hash
  pub same_ledger : s.ledger ≡ s₀.ledger
  pub nonneg : pos 0 ≤ℤ tokens
  pub held : pos_part s.key.tokens_used ≡ pos_part s₀.key.tokens_used + pos_part tokens

-- An amount that cannot overflow a count within the budget.
abbrev Fits : Shared → ℤ → Type 0
Fits s n = pos_part n + pos_part s.key.token_budget < half_word

reserve-taken :
    (s₀ s : Shared) (at n t : ℤ)
    → Holds s₀ s t
    → Fits s₀ n
    → (reserve at n s).1 ≡ true
    → Holds s₀ (reserve at n s).0 (add64 t n)
unfolding reserve try_reserve
reserve-taken s₀ s at n t v fits ok = ground (
  arith,
  wrap64_id (t +ℤ n),
  +ℤ_parts t n,
  wrap64_id (s.key.tokens_used +ℤ n),
  +ℤ_parts s.key.tokens_used n,
)

reserve-refused :
    (s₀ s : Shared) (at n t : ℤ)
    → Holds s₀ s t
    → (reserve at n s).1 ≡ false
    → Holds s₀ (reserve at n s).0 t
unfolding reserve try_reserve
reserve-refused s₀ s at n t v no_room = ground arith

-- What the tests of one frame ask of an upstream and a client for the accounts to be exact: the
-- client takes the text, reported usage does not fall below the count so far, amounts are modest.
pub record IsHonest (s₀ : Shared) (count : Bytes → ℤ) (tokens : ℤ) (f : Frame)
    (write_error : Option Err) : Type 0 where
  pub written : write_error ≡ none
  pub rising : f.has_usage ≡ true → tokens ≤ℤ f.usage_tokens
  pub usage_fits : f.has_usage ≡ true → Fits s₀ f.usage_tokens
  pub text_fits : Fits s₀ (at_least_one (count f.text))

-- The running count after a frame that is accepted.
abbrev tokens_after : (Bytes → ℤ) → ℤ → Frame → ℤ
tokens_after count tokens f =
    if eq_bytes f.event (codes "done")
    then tokens
    else if f.has_usage
    then f.usage_tokens
    else if is_empty f.event
    then add64 tokens (at_least_one (count f.text))
    else tokens

abbrev count_after : (Bytes → ℤ) → ℤ → Incoming → ℤ
count_after count tokens (fault e forced) = tokens
count_after count tokens (frame f write_error) = tokens_after count tokens f

abbrev IsHonestIncoming : Shared → (Bytes → ℤ) → ℤ → Incoming → Type 0
IsHonestIncoming s₀ count tokens (fault e forced) = Unit
IsHonestIncoming s₀ count tokens (frame f write_error) = IsHonest s₀ count tokens f write_error

-- A whole stream of such frames, and no other request in between.
abbrev IsHonestStream : Shared → (Bytes → ℤ) → ℤ → List Arrival → Type 0
IsHonestStream s₀ count tokens [] = Unit
IsHonestStream s₀ count tokens (a ∷ rest) =
    ((s : Shared) → a.meanwhile s ≡ s)
    × IsHonestIncoming s₀ count tokens a.what
    × IsHonestStream s₀ count (count_after count tokens a.what) rest

abbrev pub IsHonestUpstream : Shared → (Bytes → Bytes → ℤ) → Upstream → Type 0
IsHonestUpstream s₀ count (unsent e) = Unit
IsHonestUpstream s₀ count (unreached e forced) = Unit
IsHonestUpstream s₀ count (answered code hint arrivals) =
    IsHonestStream s₀ (count hint) (pos 0) arrivals

-- The account stays exact, and the count moves on as far as the stream goes on.
record Kept (s₀ : Shared) (next : ℤ) (r : Attempt × Verdict) : Type 0 where
  account : Holds s₀ r.0.shared r.0.tokens
  moved : r.1 ≡ go_on → r.0.tokens ≡ next

take_content-Kept :
    (s₀ : Shared) (at n : ℤ) (text : Bytes) (m : Attempt)
    → Holds s₀ m.shared m.tokens
    → Fits s₀ n
    → Kept s₀ (add64 m.tokens n) (take_content at n text none m)
unfolding take_content
take_content-Kept s₀ at n text m v fits = elim (Bool-cases (reserve at n m.shared).1) [
  | inl e ↦
      rw (e, take_content)
        (record { account = reserve-taken s₀ m.shared at n m.tokens v fits e; moved = λ g. refl })
  | inr e ↦
      rw (e, take_content)
        (record { account = reserve-refused s₀ m.shared at n m.tokens v e; moved = λ g. cc })
]

usage_delta :
    (usage tokens : ℤ)
    → pos 0 ≤ℤ tokens
    → tokens ≤ℤ usage
    → pos_part usage < half_word
    → (ltb_ℤ (pos 0) (sub64 usage tokens) ≡ false → tokens ≡ usage)
      × (add64 tokens (sub64 usage tokens) ≡ usage)
      × (pos_part (sub64 usage tokens) ≤ pos_part usage)
unfolding ◌-ℤ◌ ◌+ℤ◌
usage_delta usage tokens p le small = ground (arith, wrap64_id (usage -ℤ tokens), wrap64_id usage)

take_usage-Kept :
    (s₀ : Shared) (at usage : ℤ) (m : Attempt)
    → Holds s₀ m.shared m.tokens
    → m.tokens ≤ℤ usage
    → Fits s₀ usage
    → Kept s₀ usage (take_usage at usage m)
unfolding take_usage
take_usage-Kept s₀ at usage m v le fits =
    let (same, sum, small) = usage_delta usage m.tokens v.nonneg le (omega (arith, v.nonneg)) in
    let delta = sub64 usage m.tokens in
    elim (Bool-cases (ltb_ℤ (pos 0) delta)) [
      | inl up ↦ elim (Bool-cases (reserve at delta m.shared).1) [
        | inl e ↦
            rw (up, e, take_usage)
              (record {
                account =
                    subst (Holds s₀ _) sum
                      (reserve-taken s₀ m.shared at delta m.tokens v (omega arith) e);
                moved = λ g. refl;
              })
        | inr e ↦
            rw (up, e, take_usage)
              (record {
                account = reserve-refused s₀ m.shared at delta m.tokens v e;
                moved = λ g. cc;
              })
      ]
      | inr flat ↦
          rw (flat, take_usage)
            (record { account = subst (Holds s₀ m.shared) (same flat) v; moved = λ g. refl })
    ]

take-Kept :
    (s₀ : Shared) (count : Bytes → ℤ) (at : ℤ) (what : Incoming) (m : Attempt)
    → Holds s₀ m.shared m.tokens
    → IsHonestIncoming s₀ count m.tokens what
    → Kept s₀ (count_after count m.tokens what) (take count at what m)
unfolding take take_frame
take-Kept s₀ count at (fault e forced) m v h = record { account = v; moved = λ g. refl }
take-Kept s₀ count at (frame f write_error) m v h = ground (
  arith,
  take_usage-Kept s₀ at f.usage_tokens m v,
  take_content-Kept s₀ at (at_least_one (count f.text)) f.text m v,
)

Verdict-cases : (v : Verdict) → ((r : Option Err) × (v ≡ stop r)) ⊎ (v ≡ go_on)
Verdict-cases (stop r) = inl (r, refl)
Verdict-cases go_on = inr refl

run_frames-Holds :
    (s₀ : Shared) (count : Bytes → ℤ) (arrivals : List Arrival) (m : Attempt) (t : ℤ)
    → m.tokens ≡ t
    → Holds s₀ m.shared m.tokens
    → IsHonestStream s₀ count t arrivals
    → let m' = (run_frames count arrivals m).0 in Holds s₀ m'.shared m'.tokens
unfolding run_frames
run_frames-Holds s₀ count [] m t e v h = v
run_frames-Holds s₀ count (a ∷ rest) m t e v h =
    let m₀ = record m { shared = a.meanwhile m.shared } in
    let kept = take-Kept s₀ count a.at a.what m₀ (rw (h.0 m.shared) v) (rw e h.1) in
    elim (Verdict-cases (take count a.at a.what m₀).1) [
      | inl (result, stopped) ↦ rw (stopped, run_frames) kept.account
      | inr on ↦
          rw (on, run_frames)
            (run_frames-Holds s₀ count rest (take count a.at a.what m₀).0
              (count_after count t a.what) (kept.moved on ∙ ap (λ x. count_after count x a.what) e)
              kept.account h.2)
    ]

-- From a count of zero, and with an honest upstream, an attempt leaves as much more in use of the key
-- as it counted, within the budget, and the ledger as it was.
pub run_attempt-Holds :
    (count : Counter) (model : Bytes) (p : Provider) (u : Upstream) (s₀ : Shared) (m : Attempt)
    → m.tokens ≡ pos 0
    → Holds s₀ m.shared m.tokens
    → IsHonestUpstream s₀ (count p.name model) u
    → let m' = (run_attempt count model p u m).0 in Holds s₀ m'.shared m'.tokens
unfolding run_attempt
run_attempt-Holds count model p (unsent e) s₀ m z v h = v
run_attempt-Holds count model p (unreached e forced) s₀ m z v h = v
run_attempt-Holds count model p (answered code hint arrivals) s₀ m z v h =
    ground (arith, run_frames-Holds s₀ (count p.name model hint) arrivals m (pos 0) z v h)
