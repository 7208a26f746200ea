-- ===== src/Chaos/Counts.antt =====
-- What a result of `Run` in chaos/harness.go says of the streams.
use stream_guard.Prelude.{
  ℕ, ℤ, wrap64, pos_part, not, List, [], ◌∷◌, Option, none, some, String, lookup, All, ◌≡◌, refl,
  subst, ◌∙◌, Bool-cases, inl, inr,
}
use stream_guard.Text.{Bytes}
use stream_guard.Double.{Double}
use stream_guard.Auth.{Added, refused, stored}
use stream_guard.Config.{Provider}
use stream_guard.Reconcile.{State, Fetcher}
use stream_guard.Chaos.{Config, Scenario, enabled, with_defaults, select}
use stream_guard.Chaos.Run.{
  Answer, StreamError, none_yet, or_zero, reasons, note_streams, ended, Result, Outcome,
  not_enabled, finished, add_key, result_of, run, after_reconcile, after_streams, after_selection,
  after_add,
}
use stream_guard.Chaos.Answers.{
  occurs, IsTaken, naming, errs-note_streams, counted-note_streams, counted_none, started,
  IsTaken-ended, naming-ended, AreDrawn, select-AreDrawn, sum_expected, expected_of-sum,
}

-- What a result says of the drawn scenarios and of how each of their streams was answered.
pub record IsAccounted {ℓ} {W : Type ℓ} (cfg : Config) (draw : ℕ → ℕ)
    (answer : ℕ → Scenario → Answer) (r : Result W) : Type 0 where
  pub selections : List Scenario
  pub drawn : AreDrawn draw 0 (pos_part cfg.streams) selections
  pub taken : All IsTaken (started answer 0 selections)
  pub streams : r.streams ≡ cfg.streams
  pub expected : r.expected_billed ≡ wrap64 (sum_expected selections)
  pub failures :
      (f : String)
      → occurs f reasons ≡ 1
      → or_zero (lookup f r.failures) ≡ naming f (started answer 0 selections)

module _ {ℓ} {W : Type ℓ} ⦃d : Double W⦄ (threshold : W) (providers : List Provider)
    (turn : ℕ → ℤ × Fetcher) (key_hash redacted : String) (draw : ℕ → ℕ)
    (answer : ℕ → Scenario → Answer) (place : ℕ → ℕ) (s : State W) where
  AreAccounted : Config → Outcome W → Type 0
  AreAccounted cfg (finished r) = IsAccounted cfg draw answer r
  AreAccounted cfg other = Unit

  after_reconcile-AreAccounted :
      (cfg : Config) (selections : List Scenario) (o : Option (State W))
      → select draw 0 (pos_part cfg.streams) ≡ some selections
      → (note_streams (ended answer place 0 selections) none_yet).errs ≡ []
      → AreAccounted cfg (
          after_reconcile threshold providers turn key_hash redacted cfg selections
            (note_streams (ended answer place 0 selections) none_yet)
            o)
  unfolding AreAccounted result_of
  after_reconcile-AreAccounted cfg selections none chosen clean = tt
  after_reconcile-AreAccounted cfg selections (some s') chosen clean = record {
    selections = selections;
    drawn = select-AreDrawn draw 0 (pos_part cfg.streams) selections chosen;
    taken =
        IsTaken-ended answer place 0 selections
          (errs-note_streams (ended answer place 0 selections) none_yet clean).1;
    streams = refl;
    expected = expected_of-sum selections;
    failures = λ f known.
        counted-note_streams f (ended answer place 0 selections) none_yet known
        ∙ counted_none f (naming f (ended answer place 0 selections))
        ∙ naming-ended f answer place 0 selections;
  }

  after_streams-AreAccounted :
      (cfg : Config) (selections : List Scenario) (es : List StreamError)
      → select draw 0 (pos_part cfg.streams) ≡ some selections
      → (note_streams (ended answer place 0 selections) none_yet).errs ≡ es
      → AreAccounted cfg (
          after_streams threshold providers turn key_hash redacted cfg selections s
            (note_streams (ended answer place 0 selections) none_yet)
            es)
  unfolding AreAccounted
  after_streams-AreAccounted cfg selections (e ∷ es) chosen errs = tt
  after_streams-AreAccounted cfg selections [] chosen errs =
      after_reconcile-AreAccounted cfg selections _ chosen errs

  after_selection-AreAccounted :
      (cfg : Config) (o : Option (List Scenario))
      → select draw 0 (pos_part cfg.streams) ≡ o
      → AreAccounted cfg
          (after_selection threshold providers turn key_hash redacted cfg answer place s o)
  unfolding AreAccounted
  after_selection-AreAccounted cfg none e = tt
  after_selection-AreAccounted cfg (some selections) e =
      after_streams-AreAccounted cfg selections _ e refl

  after_add-AreAccounted :
      (cfg : Config) (a : Added)
      → AreAccounted cfg
          (after_add threshold providers turn key_hash redacted cfg draw answer place s a)
  unfolding AreAccounted
  after_add-AreAccounted cfg (refused e) = tt
  after_add-AreAccounted cfg (stored keys) = after_selection-AreAccounted cfg _ refl

  -- If `run` ends with a result, then every stream was answered, whatever the order in which they
  -- ended, those of a truncated scenario with a gateway_truncated event. Their scenarios are those that
  -- the random source drew, one for each stream of the settings; the expected tokens are the sum over
  -- them, as an int; and for each of the three reasons the number of failures is the number of answers
  -- that name it.
  pub run-IsAccounted :
      (get_env : String → Bytes) (hash : String → String) (clock : ℤ) (cfg : Config) (r : Result W)
      → run threshold providers turn key_hash redacted get_env hash clock cfg draw answer place s
        ≡ finished r
      → IsAccounted (with_defaults clock cfg) draw answer r
  unfolding run AreAccounted
  run-IsAccounted get_env hash clock cfg r e = elim (Bool-cases (not (enabled get_env))) [
    | inl off ↦ let ended : not_enabled ≡ finished r = rw off at e in cc
    | inr on ↦
        subst (AreAccounted (with_defaults clock cfg)) (rw on at e)
          (after_add-AreAccounted (with_defaults clock cfg) (add_key hash clock))
  ]
