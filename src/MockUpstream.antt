-- ===== src/MockUpstream.antt =====
-- internal/mockupstream/mockupstream.go: the demo providers. A response is its bytes and how it ends;
-- the pauses between writes are left out, and what the random source draws is given. An override of a
-- model has no overrides of its own that are read. `quote` is `strconv.Quote`.
pub mod Counted
pub mod Failing
pub mod Serving
use stream_guard.Prelude.{
  ℕ, zero, suc, ◌/◌, ℤ, pos, ◌+ℤ◌, add64, pos_part, Bool, true, false, not, ◌&&◌, List, [], ◌∷◌,
  ◌++◌, Option, none, some, String, ◌==◌, Dict, lookup, insert, length, leb, eqb, ltb_ℤ, leb_ℤ,
  if◌then◌else◌,
}
use Prim.Native.String.{◌++◌ as ◌<>◌}
use stream_guard.Text.{Bytes, codes, has_prefix}
use stream_guard.Double.{Double}
use stream_guard.Protocol.{Json, write_content}

pub data FailureMode : Type 0 where
  no_failure dead_socket silent_hang malformed : FailureMode

pub record Options {ℓ} (W : Type ℓ) : Type ℓ where
  pub provider : String
  pub tokens : List Bytes
  pub delay_min : ℤ
  pub delay_max : ℤ
  pub failure : FailureMode
  pub fail_after_tokens : ℤ
  pub split_frames : Bool
  pub usage_offset_pct : W
  pub random_failure_pct : ℤ

pub record Server {ℓ} (W : Type ℓ) : Type ℓ where
  pub opts : Options W
  pub per_model : Dict (Options W)
  pub usage : Dict ℤ

abbrev or_tokens : List Bytes → List Bytes → List Bytes
or_tokens [] default = default
or_tokens (t ∷ ts) default = t ∷ ts

-- A response: its bytes, and how it ends.
pub data Ending : Type 0 where
  complete closed hung broken : Ending

abbrev is_none : FailureMode → Bool
is_none no_failure = true
is_none _ = false

-- `injectFailure`: what it writes and how it ends the response, if it does.
unfoldable pub inject_failure : FailureMode → Option (Bytes × Ending)
inject_failure dead_socket = some ([], closed)
inject_failure silent_hang = some ([], hung)
inject_failure malformed = some (codes "data: {broken\n\n", broken)
inject_failure no_failure = none

module _ {ℓ} {W : Type ℓ} where
  -- The defaults of `New` and `NewHandler`; `text` is the bytes of a text.
  unfoldable pub new : (String → Bytes) → Options W → Dict (Options W) → Server W
  new text opts per_model =
      let provider = if opts.provider == "" then "mock" else opts.provider in
      let delay_min = if leb_ℤ opts.delay_min (pos 0) then pos 50000000 else opts.delay_min in
      record {
        opts = record opts {
          provider = provider;
          tokens = or_tokens opts.tokens (codes "hello " ∷ codes "from " ∷ text provider ∷ []);
          delay_min = delay_min;
          delay_max =
              if ltb_ℤ opts.delay_max delay_min
              then add64 delay_min (pos 100000000)
              else opts.delay_max;
        };
        per_model = per_model;
        usage = [];
      }

  unfoldable set_options : Options W → Dict (Options W) → Server W → Server W
  set_options opts per_model s = record s {
    opts = if opts.provider == "" then record opts { provider = s.opts.provider } else opts;
    per_model = per_model;
  }

  module _ ⦃d : Double W⦄ where
    unfoldable pub merge_options : Options W → Options W → Options W
    merge_options base override =
        let delay_min =
          if leb_ℤ override.delay_min (pos 0) then base.delay_min else override.delay_min in
        record override {
          provider = if override.provider == "" then base.provider else override.provider;
          tokens = or_tokens override.tokens base.tokens;
          delay_min = delay_min;
          delay_max = if ltb_ℤ override.delay_max delay_min then delay_min else override.delay_max;
          usage_offset_pct =
              if d.eq override.usage_offset_pct (d.of_ℤ (pos 0))
              then base.usage_offset_pct
              else override.usage_offset_pct;
        }

    abbrev overridden : Options W → Option (Options W) → Options W
    overridden base none = base
    overridden base (some override) = merge_options base override

    abbrev for_model : Server W → Option String → Options W
    for_model s none = s.opts
    for_model s (some model) = overridden s.opts (lookup model s.per_model)

    -- `snapshot`; the model is that of the request, if it has one.
    unfoldable pub snapshot : Option String → Server W → Options W
    unfolding merge_options
    snapshot model s = for_model s model

  -- The failure of a response; `chance` is the draw of a hundred and `pick` that of a failure.
  unfoldable pub failure_of : ℤ → FailureMode → Options W → FailureMode
  failure_of chance pick opts =
      if is_none opts.failure
        && (ltb_ℤ (pos 0) opts.random_failure_pct && ltb_ℤ chance opts.random_failure_pct)
      then pick
      else opts.failure

  unfoldable pub fail_after : Options W → ℕ
  fail_after opts =
      if leb_ℤ opts.fail_after_tokens (pos 0)
      then length opts.tokens / 2
      else pos_part opts.fail_after_tokens

abbrev pub usage_key : String → String → String
usage_key period key_hash = period <> ("|" <> key_hash)

abbrev pub or_zero : Option ℤ → ℤ
or_zero none = pos 0
or_zero (some n) = n

module _ (j : Json) (quote : Bytes → Bytes) where
  -- The bytes of `writeSplit`, and of a token.
  unfoldable write_split : Bytes → Bytes
  write_split text =
      codes "data: {\"choices\":[{\"delta\":{\"content\":" ++ (quote text ++ codes "}}]}\n\n")

  unfoldable pub write_token : Bool → Bytes → Bytes
  unfolding write_split write_content
  write_token split text = if split then write_split text else write_content j text

  abbrev or_failed : Option (Bytes × Ending) → Bytes × Option Ending → Bytes × Option Ending
  or_failed none rest = rest
  or_failed (some (out, ending)) rest = (out, some ending)

  abbrev after_token : Bytes → Bytes × Option Ending → Bytes × Option Ending
  after_token token (out, ending) = (token ++ out, ending)

  -- The loop over the tokens, from the index `i`: an ending if a failure was injected.
  unfoldable pub send_tokens : Bool → FailureMode → ℕ → ℕ → List Bytes → Bytes × Option Ending
  unfolding write_token inject_failure
  send_tokens split mode n i [] = ([], none)
  send_tokens split mode n i (t ∷ ts) =
      let rest = after_token (write_token split t) (send_tokens split mode n (suc i) ts) in
      if eqb i n then or_failed (inject_failure mode) rest else rest

  abbrev pub done_bytes : Bytes
  done_bytes = codes "data: [DONE]\n\n"

  -- After the loop: a failure at the end, or what ends a complete response.
  abbrev ended : Option (Bytes × Ending) → Bytes × Ending
  ended none = (done_bytes, complete)
  ended (some out) = out

  abbrev pub finish : FailureMode → Bool → Bytes × Option Ending → Bytes × Ending
  finish mode at_end (out, some ending) = (out, ending)
  finish mode at_end (out, none) =
      let (more, ending) = if at_end then ended (inject_failure mode) else (done_bytes, complete) in
      (out ++ more, ending)

  unfoldable pub respond : Bool → FailureMode → ℕ → List Bytes → Bytes × Ending
  unfolding send_tokens inject_failure
  respond split mode n tokens =
      finish mode (leb (length tokens) n) (send_tokens split mode n 0 tokens)

  -- The count of a complete response.
  abbrev pub count_usage : String → String → ℕ → Ending → Dict ℤ → Dict ℤ
  count_usage period key_hash n complete usage =
      let key = usage_key period (if key_hash == "" then "default" else key_hash) in
      insert key (add64 (or_zero (lookup key usage)) (pos n)) usage
  count_usage period key_hash n ending usage = usage

  -- `stream`, for the options of the request, the period of the time and the key of the request.
  unfoldable pub stream {ℓ} :
      {W : Type ℓ}
      → ℤ
      → FailureMode
      → Options W
      → String
      → String
      → Server W
      → Server W × (Bytes × Ending)
  unfolding respond failure_of fail_after
  stream chance pick opts period key_hash s =
      let (out, ending) =
        respond opts.split_frames (failure_of chance pick opts) (fail_after opts) opts.tokens in
      (
        record s { usage = count_usage period key_hash (length opts.tokens) ending s.usage },
        (out, ending),
      )

-- The usage of all keys in a period.
unfoldable total_of : String → Dict ℤ → ℤ
unfolding has_prefix
total_of period [] = pos 0
total_of period ((key, n) ∷ usage) =
    let rest = total_of period usage in
    if has_prefix (codes (period <> "|")) (codes key) then add64 n rest else rest

-- `usageHandler`: the tokens that it reports.
unfoldable pub usage_handler {ℓ} : {W : Type ℓ} ⦃d : Double W⦄ → String → String → Server W → ℤ
unfolding total_of
usage_handler ⦃d⦄ period key_hash s =
    let true_count =
      if key_hash == ""
      then total_of period s.usage
      else or_zero (lookup (usage_key period key_hash) s.usage) in
    add64 true_count
      (d.trunc (d.mul (d.of_ℤ true_count) (d.div s.opts.usage_offset_pct (d.of_ℤ (pos 100)))))
