-- ===== src/Chaos/Expected.antt =====
-- Whether the gateway bills what the scenarios of chaos/harness.go expect: the two demo providers of a
-- scenario, as the gateway sees them, under its failover loop.
use stream_guard.Prelude.{
  ℕ, zero, suc, ◌+◌, ◌≤◌, ℤ, pos, pos_part, true, false, List, [], ◌∷◌, Option, none, some, String,
  lookup, take, All, ◌≡◌, refl, ap, ◌∙◌, arith,
}
use stream_guard.Text.{Bytes, codes, eq_bytes}
use stream_guard.Double.{Double}
use stream_guard.Budget.Bounds.{IsBudgeted}
use stream_guard.Breaker.{closed}
use stream_guard.Cascade.{Session}
use stream_guard.Config.{Provider}
use stream_guard.Ledger
use stream_guard.MockUpstream.{
  FailureMode, no_failure, dead_socket, silent_hang, malformed, Options, fail_after, snapshot,
}
use stream_guard.MockUpstream
use stream_guard.Protocol.{Payload}
use stream_guard.Server.{
  Err, err_malformed, err_silent_hang, err_other, Upstream, answered, Shared, Arrival, Incoming,
  frame, fault, Counter, take_frame,
}
use stream_guard.Server
use stream_guard.Server.Stream.{Turn, Periods, Progress, begin}
use stream_guard.Server.Rounds.{stream}
use stream_guard.Server.Relay.{Story, serves, fails, exhausts, stream-served}
use stream_guard.Server.Relay.Closed.{IsRetried, Served}
use stream_guard.Server.Relay.Texts.{
  IsCount, AreHonest, Said, text_said, Ends, cost, contents, then_last, total, spent, Plays,
  answered_play,
}
use stream_guard.Server.Relay.Turns.{final_status}
use stream_guard.Chaos.{Scenario, scenario, scenarios, primary, secondary, tokens, provider}

-- The error by which a failed response ends for the reader.
abbrev error_of : FailureMode → Option Err
error_of no_failure = none
error_of dead_socket = some err_other
error_of silent_hang = some err_silent_hang
error_of malformed = some err_malformed

-- And the arrival, the end of a complete one among them.
abbrev last_of : Option Err → Incoming
last_of none =
    frame
      (record {
        event = codes "done";
        body = [];
        text = [];
        usage_tokens = pos 0;
        has_usage = false;
      })
      none
last_of (some e) = fault e false

abbrev last_arrival : ℤ → Option Err → Arrival
last_arrival at o = record { meanwhile = λ s. s; at = at; what = last_of o }

-- The tokens of a response, up to its failure.
abbrev sent_by {ℓ} : {W : Type ℓ} → Options W → List Bytes
sent_by opts = elim opts.failure [
  | no_failure ↦ opts.tokens
  | dead_socket ↦ take (fail_after opts) opts.tokens
  | silent_hang ↦ take (fail_after opts) opts.tokens
  | malformed ↦ take (fail_after opts) opts.tokens
]

-- With the times at which they arrive.
abbrev stamped : (ℕ → ℤ) → ℕ → List Bytes → List Said
stamped clock i [] = []
stamped clock i (t ∷ ts) = text_said (clock i) t ∷ stamped clock (suc i) ts

stamped-AreHonest :
    (count : Bytes → ℤ) (clock : ℕ → ℤ) (i k : ℕ) (ts : List Bytes)
    → AreHonest count k (stamped clock i ts)
stamped-AreHonest count clock i k [] = tt
stamped-AreHonest count clock i k (t ∷ ts) =
    (tt, stamped-AreHonest count clock (suc i) (k + cost count t) ts)

-- A demo provider as the gateway sees it.
unfoldable pub seen_as {ℓ} : {W : Type ℓ} → (ℕ → ℤ) → Bytes → Options W → Upstream
unfolding fail_after
seen_as clock hint opts =
    answered 200 hint
      (then_last (stamped clock 0 (sent_by opts)) (last_arrival (clock 0) (error_of opts.failure)))

last_arrival-Ends :
    (count : Bytes → ℤ) (mode : FailureMode) (at : ℤ)
    → Ends count (last_arrival at (error_of mode)) (error_of mode)
unfolding Server.take take_frame eq_bytes
last_arrival-Ends count no_failure at m = refl
last_arrival-Ends count dead_socket at m = refl
last_arrival-Ends count silent_hang at m = refl
last_arrival-Ends count malformed at m = refl

seen_as-Plays {ℓ} :
    {W : Type ℓ} (count : Bytes → Bytes → ℤ) (clock : ℕ → ℤ) (hint : Bytes) (opts : Options W)
    → IsCount (count hint)
    → Plays count
        (seen_as clock hint opts)
        (total (count hint) 0 (stamped clock 0 (sent_by opts)))
        (contents (stamped clock 0 (sent_by opts)))
        (error_of opts.failure)
unfolding seen_as
seen_as-Plays count clock hint opts nonneg =
    answered_play 200 hint (stamped clock 0 (sent_by opts))
      (last_arrival (clock 0) (error_of opts.failure)) (error_of opts.failure) (omega arith) nonneg
      (stamped-AreHonest (count hint) clock 0 0 (sent_by opts))
      (last_arrival-Ends (count hint) opts.failure (clock 0))

total-tokens :
    (count : Bytes → ℤ) (clock : ℕ → ℤ) (i k n : ℕ)
    → count (codes "x ") ≡ pos 1
    → total count k (stamped clock i (tokens n)) ≡ n
total-tokens count clock i k zero one = refl
total-tokens count clock i k (suc n) one =
    let each : cost count (codes "x ") ≡ 1 = rw one in
    omega (arith, each, total-tokens count clock (suc i) (k + cost count (codes "x ")) n one)

module _ {ℓ} (W : Type ℓ) ⦃d : Double W⦄ (text : String → Bytes) (count : Counter)
    (clock : ℕ → ℕ → ℤ) (started ended : ℕ → ℤ) (hint : Bytes) (period : Periods) (now : ℤ)
    (primary_url secondary_url : Bytes) (s : Shared) (session : Session) where
  abbrev turns : Scenario → ℕ → Turn
  turns sc zero = record {
    before = λ s. s;
    started = started 0;
    upstream = seen_as {W = W} (clock 0) hint (snapshot (some sc.model) (primary text));
    after = λ s. s;
    ended = ended 0;
  }
  turns sc (suc i) = record {
    before = λ s. s;
    started = started (suc i);
    upstream = seen_as {W = W} (clock (suc i)) hint (snapshot (some sc.model) (secondary text));
    after = λ s. s;
    ended = ended (suc i);
  }

  abbrev first : Provider
  first = provider "openai" (pos 0) primary_url

  abbrev second : Provider
  second = provider "anthropic" (pos 1) secondary_url

  abbrev outcome : Scenario → Progress
  outcome sc =
      stream period count (codes sc.model) (turns sc) now (first ∷ second ∷ []) (begin s session)

  -- The request of a scenario is truncated if the scenario says so, and its expected tokens are in
  -- use and billed by one entry.
  pub record IsBilled (sc : Scenario) : Type 0 where
    pub ended_as : (outcome sc).session.status ≡ final_status sc.truncated
    pub used : (outcome sc).shared.key ≡ spent s.key (pos_part sc.expected_billed)
    pub served : Served
    pub billed :
        (outcome sc).shared.ledger
        ≡ Ledger.record_in s.key.key_hash served.provider.name
            (period served.at s.ledger)
            sc.expected_billed
            sc.truncated
            s.ledger

  module _ (counts : (name : String) (model : Bytes) → IsCount (count name model hint))
      (one : (name : String) (model : Bytes) → count name model hint (codes "x ") ≡ pos 1)
      (budgeted : IsBudgeted s.key)
      (room : pos_part s.key.tokens_used + 10 ≤ pos_part s.key.token_budget)
      (closed_first : (s.breakers "openai").state ≡ closed)
      (closed_second : (s.breakers "anthropic").state ≡ closed) where
    story-IsBilled :
        (sc : Scenario) (shown : List Payload) (w : Served)
        → Story count (codes sc.model) (turns sc) 10 now 0 0 (pos 0) (first ∷ second ∷ []) shown w
        → w.cut ≡ sc.truncated
        → pos w.tokens ≡ sc.expected_billed
        → IsBilled sc
    story-IsBilled sc shown w story cut amount =
        let (ended_so, out, key, ledger) =
          stream-served s period count (codes sc.model) (turns sc) now first (second ∷ []) session
            10 shown w budgeted room (closed_first, (closed_second, tt)) ((refl, tt), (tt, tt))
            story in
        record {
          ended_as = ended_so ∙ ap final_status cut;
          used = key ∙ ap (λ x. spent s.key (pos_part x)) amount;
          served = w;
          billed = rw (← amount, ← cut) ledger;
        }

    quiet : ((x : Shared) → x ≡ x) × ((x : Shared) → x ≡ x)
    quiet = (λ x. refl, λ x. refl)

    primary-Plays :
        (model : String) (bytes : Bytes)
        → Plays
            (count "openai" bytes)
            (seen_as {W = W} (clock 0) hint (snapshot (some model) (primary text)))
            (total
              (count "openai" bytes hint)
              0
              (stamped (clock 0) 0 (sent_by (snapshot {W = W} (some model) (primary text)))))
            (contents
              (stamped (clock 0) 0 (sent_by (snapshot {W = W} (some model) (primary text)))))
            (error_of (snapshot {W = W} (some model) (primary text)).failure)
    primary-Plays model bytes =
        seen_as-Plays (count "openai" bytes) (clock 0) hint (snapshot (some model) (primary text))
          (counts "openai" bytes)

    secondary-Plays :
        (model : String) (bytes : Bytes)
        → Plays
            (count "anthropic" bytes)
            (seen_as {W = W} (clock 1) hint (snapshot (some model) (secondary text)))
            (total
              (count "anthropic" bytes hint)
              0
              (stamped (clock 1) 0 (sent_by (snapshot {W = W} (some model) (secondary text)))))
            (contents
              (stamped (clock 1) 0 (sent_by (snapshot {W = W} (some model) (secondary text)))))
            (error_of (snapshot {W = W} (some model) (secondary text)).failure)
    secondary-Plays model bytes =
        seen_as-Plays (count "anthropic" bytes) (clock 1) hint
          (snapshot (some model) (secondary text)) (counts "anthropic" bytes)

    sum_first :
        (bytes : Bytes) (n : ℕ)
        → total (count "openai" bytes hint) 0 (stamped (clock 0) 0 (tokens n)) ≡ n
    sum_first bytes n =
        total-tokens (count "openai" bytes hint) (clock 0) 0 0 n (one "openai" bytes)

    sum_second :
        (bytes : Bytes) (n : ℕ)
        → total (count "anthropic" bytes hint) 0 (stamped (clock 1) 0 (tokens n)) ≡ n
    sum_second bytes n =
        total-tokens (count "anthropic" bytes hint) (clock 1) 0 0 n (one "anthropic" bytes)

    success-IsBilled : IsBilled (scenario "sg-success" (pos 10) false [])
    unfolding primary snapshot MockUpstream.merge_options MockUpstream.new fail_after lookup
    success-IsBilled =
        let b = codes "sg-success" in
        story-IsBilled (scenario "sg-success" (pos 10) false []) _ _
          (serves 0 0 (pos 0) first (second ∷ [])
            (total (count "openai" b hint) 0 (stamped (clock 0) 0 (tokens 10))) _ quiet
            (primary-Plays "sg-success" b) (omega (arith, sum_first b 10)))
          refl (ap pos (sum_first b 10))

    -- What the first provider sends, and what the second does, of so many tokens.
    abbrev FirstDoes : Scenario → ℕ → Option Err → Type 0
    FirstDoes sc n result =
        let ts = stamped (clock 0) 0 (tokens n) in
        Plays (count "openai" (codes sc.model)) (turns sc 0).upstream
          (total (count "openai" (codes sc.model) hint) 0 ts) (contents ts) result

    abbrev SecondDoes : Scenario → ℕ → Option Err → Type 0
    SecondDoes sc n result =
        let ts = stamped (clock 1) 0 (tokens n) in
        Plays (count "anthropic" (codes sc.model)) (turns sc 1).upstream
          (total (count "anthropic" (codes sc.model) hint) 0 ts) (contents ts) result

    handed_over-IsBilled :
        (sc : Scenario) (k n : ℕ) (e : Err)
        → FirstDoes sc k (some e)
        → IsRetried e
        → k ≤ 10
        → SecondDoes sc n none
        → n ≤ 10
        → false ≡ sc.truncated
        → pos n ≡ sc.expected_billed
        → IsBilled sc
    handed_over-IsBilled sc k n e fst retried k_fits snd n_fits cut amount =
        let b = codes sc.model in
        story-IsBilled sc _ _
          (fails 0 0 (pos 0) first second [] _ _ _ e _ quiet fst retried
            (omega (arith, sum_first b k, k_fits))
            (serves 1 1 _ second [] _ _ quiet snd (omega (arith, sum_second b n, n_fits))))
          cut (ap pos (sum_second b n) ∙ amount)

    exhausted-IsBilled :
        (sc : Scenario) (k n : ℕ) (e e' : Err)
        → FirstDoes sc k (some e)
        → IsRetried e
        → k ≤ 10
        → SecondDoes sc n (some e')
        → IsRetried e'
        → n ≤ 10
        → true ≡ sc.truncated
        → pos n ≡ sc.expected_billed
        → IsBilled sc
    exhausted-IsBilled sc k n e e' fst retried k_fits snd retried' n_fits cut amount =
        let b = codes sc.model in
        story-IsBilled sc _ _
          (fails 0 0 (pos 0) first second [] _ _ _ e _ quiet fst retried
            (omega (arith, sum_first b k, k_fits))
            (exhausts 1 1 _ second _ _ e' quiet snd retried'
              (omega (arith, sum_second b n, n_fits))))
          cut (ap pos (sum_second b n) ∙ amount)

    -- Let the token counter give one for the token of the demo providers and never less than zero, let
    -- no other request disturb this one, let both breakers be closed, and let the key's count lie
    -- within the budget with room for ten tokens. Then the gateway treats a request of every scenario
    -- as the harness expects: it ends truncated if the scenario says so, or else complete, and the
    -- tokens expected are in use and billed by one ledger entry, which is cut if the request is.
    pub scenarios-IsBilled : All IsBilled scenarios
    unfolding primary secondary snapshot MockUpstream.merge_options MockUpstream.new fail_after
        lookup
    scenarios-IsBilled = (
      success-IsBilled,
      (
        handed_over-IsBilled _ 4 6 err_other
            (primary-Plays "sg-dead-socket" (codes "sg-dead-socket")) tt (omega arith)
            (secondary-Plays "sg-dead-socket" (codes "sg-dead-socket")) (omega arith) refl refl,
        (
          handed_over-IsBilled _ 5 8 err_silent_hang
              (primary-Plays "sg-silent-hang" (codes "sg-silent-hang")) tt (omega arith)
              (secondary-Plays "sg-silent-hang" (codes "sg-silent-hang")) (omega arith) refl refl,
          (
            handed_over-IsBilled _ 3 7 err_malformed
                (primary-Plays "sg-malformed" (codes "sg-malformed")) tt (omega arith)
                (secondary-Plays "sg-malformed" (codes "sg-malformed")) (omega arith) refl refl,
            (
              exhausted-IsBilled _ 4 6 err_other err_malformed
                  (primary-Plays "sg-exhausted" (codes "sg-exhausted")) tt (omega arith)
                  (secondary-Plays "sg-exhausted" (codes "sg-exhausted")) tt (omega arith) refl
                  refl,
              tt,
            ),
          ),
        ),
      ),
    )
