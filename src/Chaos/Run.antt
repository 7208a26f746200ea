-- ===== src/Chaos/Run.antt =====
-- `Run` and `invokeStream` of chaos/harness.go: the streams, what is counted of their answers, the
-- reconciliations and the result. The goroutines of the streams share only counters under a mutex and
-- the channel of errors, so they are taken one after the other, in the order in which they end.
use stream_guard.Prelude.{
  ℕ, zero, suc, ◌+◌, ℤ, pos, pos_part, add64, Bool, false, not, ◌&&◌, List, [], ◌∷◌, ◌++◌, Option,
  none, some, String, Dict, lookup, insert, eqb, if◌then◌else◌,
}
use stream_guard.Text.{Bytes, codes, contains_text}
use stream_guard.Double.{Double}
use stream_guard.Ledger.{Summary}
use stream_guard.Ledger
use stream_guard.Calibration.{
  DerivedValue, count, silent_hang_deadline, drift_threshold, ready_for_silent_hang_calibration,
  ready_for_drift_calibration,
}
use stream_guard.Auth
use stream_guard.Auth.{Added, refused, stored, AddError}
use stream_guard.Config.{Provider}
use stream_guard.Reconcile.{State, Fetcher, run_once}
use stream_guard.Chaos.{Config, Scenario, enabled, with_defaults, select}

-- The request of `invokeStream`, a POST, and what comes of it: it is not answered, its body cannot be
-- read, or there is a status and a body.
pub record Post : Type 0 where
  pub url : Bytes
  pub authorization : Bytes
  pub content_type : Bytes
  pub body : Bytes

pub data Reply : Type 0 where
  unanswered unread : Reply
  replied : ℕ → Bytes → Reply

abbrev body_of : Reply → Option Bytes
body_of (replied status body) = if eqb status 200 then some body else none
body_of other = none

abbrev send_with : (Post → Reply) → Bytes → Bytes → Option Bytes → Option Bytes
send_with send base_url api_key none = none
send_with send base_url api_key (some body) = body_of (
    send (record {
      url = base_url ++ codes "/v1/stream";
      authorization = codes "Bearer " ++ api_key;
      content_type = codes "application/json";
      body = body;
    }))

-- `marshal` writes the request for a model as JSON.
unfoldable invoke_stream :
    (String → Option Bytes) → (Post → Reply) → Bytes → Bytes → String → Option Bytes
invoke_stream marshal send base_url api_key model = send_with send base_url api_key (marshal model)

pub data StreamError : Type 0 where
  invoke_failed : StreamError
  missing_truncated : String → StreamError

-- What the goroutines write to. A count of streams does not wrap.
pub record Tally : Type 0 where
  pub failures : Dict ℕ
  pub detection_sums : Dict ℤ
  pub detection_counts : Dict ℕ
  pub errs : List StreamError

abbrev pub none_yet : Tally
none_yet = record { failures = []; detection_sums = []; detection_counts = []; errs = [] }

abbrev pub or_zero : Option ℕ → ℕ
or_zero none = 0
or_zero (some n) = n

abbrev or_zero_ℤ : Option ℤ → ℤ
or_zero_ℤ none = pos 0
or_zero_ℤ (some n) = n

unfoldable pub names_failure : Bytes → String → Bool
unfolding contains_text
names_failure body failure =
    contains_text body (codes "\"reason\":\"" ++ codes failure ++ codes "\"")

-- The three writes under the mutex.
abbrev pub noted : String → ℤ → Tally → Tally
noted f elapsed t = record t {
  failures = insert f (or_zero (lookup f t.failures) + 1) t.failures;
  detection_sums =
      insert f (add64 (or_zero_ℤ (lookup f t.detection_sums)) elapsed) t.detection_sums;
  detection_counts = insert f (or_zero (lookup f t.detection_counts) + 1) t.detection_counts;
}

-- The loop over the reasons that a failover may have.
unfoldable pub note_failures : Bytes → ℤ → List String → Tally → Tally
unfolding names_failure
note_failures body elapsed [] t = t
note_failures body elapsed (f ∷ fs) t =
    note_failures body elapsed fs (if names_failure body f then noted f elapsed t else t)

abbrev pub reasons : List String
reasons = "dead_socket" ∷ "silent_hang" ∷ "malformed" ∷ []

abbrev with_error : StreamError → Tally → Tally
with_error e t = record t { errs = t.errs ++ e ∷ [] }

-- The body of a stream and the time that it took, if it was answered.
abbrev pub Answer : Type 0
Answer = Option (Bytes × ℤ)

unfoldable pub note_stream : Scenario → Answer → Tally → Tally
unfolding note_failures contains_text
note_stream s none t = with_error invoke_failed t
note_stream s (some (body, elapsed)) t =
    let t' = note_failures body elapsed reasons t in
    if s.truncated && not (contains_text body (codes "gateway_truncated"))
    then with_error (missing_truncated s.model) t'
    else t'

unfoldable pub note_streams : List (Scenario × Answer) → Tally → Tally
unfolding note_stream
note_streams [] t = t
note_streams ((s, answer) ∷ rest) t = note_streams rest (note_stream s answer t)

-- At a place of a list, or at its end if it is shorter.
unfoldable pub insert_at {ℓ} : {A : Type ℓ} → ℕ → A → List A → List A
insert_at zero x xs = x ∷ xs
insert_at (suc k) x [] = x ∷ []
insert_at (suc k) x (y ∷ ys) = y ∷ insert_at k x ys

-- Every stream with its answer, from the one with the number `i` on, in the order in which they end:
-- the stream `i` ends after `place i` of those that are started after it.
unfoldable pub ended :
    (ℕ → Scenario → Answer) → (ℕ → ℕ) → ℕ → List Scenario → List (Scenario × Answer)
unfolding insert_at
ended answer place i [] = []
ended answer place i (s ∷ rest) =
    insert_at (place i) (s, answer i s) (ended answer place (suc i) rest)

unfoldable pub expected_of : List Scenario → ℤ
expected_of [] = pos 0
expected_of (s ∷ rest) = add64 s.expected_billed (expected_of rest)

pub record Result {ℓ} (W : Type ℓ) : Type ℓ where
  pub streams : ℤ
  pub expected_billed : ℤ
  pub actual_billed : ℤ
  pub truncated_requests : ℤ
  pub failures : Dict ℕ
  pub inter_token_gap_samples : ℕ
  pub drift_samples : ℕ
  pub silent_hang_ready : Bool
  pub drift_ready : Bool
  pub silent_hang_raw_ms : W
  pub silent_hang_final_ms : W
  pub silent_hang_clamped : Bool
  pub drift_raw_pct : W
  pub drift_final_pct : W
  pub drift_clamped : Bool
  pub detection_ms : Dict W

-- The one key, for both providers.
unfoldable pub add_key : (String → String) → ℤ → Added
unfolding Auth.add Auth.new_store
add_key hash clock =
    Auth.add hash "sg_live_demo" ("openai" ∷ "anthropic" ∷ []) (pos 100000) (pos 86400000000000)
      clock (Auth.new_store (pos 86400000000000))

pub data Outcome {ℓ} (W : Type ℓ) : Type ℓ where
  not_enabled : Outcome W
  key_refused : AddError → Outcome W
  panicked : Outcome W
  stream_failed : StreamError → Outcome W
  reconcile_failed : Outcome W
  finished : Result W → Outcome W

module _ {ℓ} {W : Type ℓ} ⦃d : Double W⦄ where
  abbrev or_zero_value : Option (DerivedValue W) → DerivedValue W
  or_zero_value (some v) = v
  or_zero_value none = record {
    raw = d.of_ℤ (pos 0);
    final = d.of_ℤ (pos 0);
    clamped = false;
    sample_count = 0;
  }

  -- The averages, in milliseconds.
  unfoldable detection_of : Dict ℤ → Dict ℕ → Dict W
  detection_of [] counts = []
  detection_of ((f, sum) ∷ sums) counts =
      let rest = detection_of sums counts in
      let n = or_zero (lookup f counts) in
      if eqb n 0
      then rest
      else (f, d.div (d.div (d.of_ℤ sum) (d.of_ℤ (pos n))) (d.of_ℤ (pos 1000000))) ∷ rest

  unfoldable pub result_of : ℤ → ℤ → Summary → Tally → Dict (List W) → Result W
  unfolding detection_of silent_hang_deadline drift_threshold count
      ready_for_silent_hang_calibration ready_for_drift_calibration
  result_of streams expected sum t samples =
      let hang = or_zero_value (silent_hang_deadline (d.of_ℤ (pos 5)) samples) in
      let drift = or_zero_value (drift_threshold samples) in
      record {
        streams = streams;
        expected_billed = expected;
        actual_billed = sum.tokens_billed;
        truncated_requests = sum.truncated_requests;
        failures = t.failures;
        inter_token_gap_samples = count "inter_token_gap" samples;
        drift_samples = count "drift" samples;
        silent_hang_ready = ready_for_silent_hang_calibration samples;
        drift_ready = ready_for_drift_calibration samples;
        silent_hang_raw_ms = hang.raw;
        silent_hang_final_ms = hang.final;
        silent_hang_clamped = hang.clamped;
        drift_raw_pct = drift.raw;
        drift_final_pct = drift.final;
        drift_clamped = drift.clamped;
        detection_ms = detection_of t.detection_sums t.detection_counts;
      }

  -- The reconciliations, up to the first that fails; `turn i` is the time of the i-th and what the
  -- providers report then.
  unfoldable pub reconcile_runs :
      W → List Provider → (ℕ → ℤ × Fetcher) → ℕ → ℕ → State W → Option (State W)
  unfolding run_once
  reconcile_runs threshold providers turn i zero s = some s
  reconcile_runs threshold providers turn i (suc n) s =
      let (now, fetch) = turn i in
      let (s', done) = run_once threshold now (some fetch) providers s in
      let rest = reconcile_runs threshold providers turn (suc i) n s' in
      elim done [ none ↦ none | some results ↦ rest ]

  module _ (threshold : W) (providers : List Provider) (turn : ℕ → ℤ × Fetcher)
      (key_hash redacted : String) where
    abbrev pub after_reconcile : Config → List Scenario → Tally → Option (State W) → Outcome W
    after_reconcile cfg selections t none = reconcile_failed
    after_reconcile cfg selections t (some s) = finished (
        result_of cfg.streams (expected_of selections) (Ledger.summary key_hash redacted s.ledger) t
          s.samples)

    abbrev pub after_streams :
        Config → List Scenario → State W → Tally → List StreamError → Outcome W
    after_streams cfg selections s t (e ∷ es) = stream_failed e
    after_streams cfg selections s t [] =
        after_reconcile cfg selections t
          (reconcile_runs threshold providers turn 0 (pos_part cfg.reconciliation_runs) s)

    -- The stream `i` is answered as `answer i` says; they leave the gateway in the state `s`.
    abbrev pub after_selection :
        Config → (ℕ → Scenario → Answer) → (ℕ → ℕ) → State W → Option (List Scenario) → Outcome W
    after_selection cfg answer place s none = panicked
    after_selection cfg answer place s (some selections) =
        let t = note_streams (ended answer place 0 selections) none_yet in
        after_streams cfg selections s t t.errs

    abbrev pub after_add :
        Config → (ℕ → ℕ) → (ℕ → Scenario → Answer) → (ℕ → ℕ) → State W → Added → Outcome W
    after_add cfg draw answer place s (refused e) = key_refused e
    after_add cfg draw answer place s (stored keys) =
        after_selection cfg answer place s (select draw 0 (pos_part cfg.streams))

    -- `Run`; `clock` is the time when it starts, `hash` is SHA-256.
    unfoldable pub run :
        (String → Bytes)
        → (String → String)
        → ℤ
        → Config
        → (ℕ → ℕ)
        → (ℕ → Scenario → Answer)
        → (ℕ → ℕ)
        → State W
        → Outcome W
    unfolding enabled with_defaults select note_streams ended expected_of result_of reconcile_runs
        add_key Ledger.summary
    run get_env hash clock cfg draw answer place s =
        if not (enabled get_env)
        then not_enabled
        else after_add (with_defaults clock cfg) draw answer place s (add_key hash clock)
