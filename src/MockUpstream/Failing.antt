-- ===== src/MockUpstream/Failing.antt =====
-- When a demo provider (internal/mockupstream/mockupstream.go) fails, and what it counts.
use stream_guard.Prelude.{
  ℕ, zero, suc, ◌+◌, ◌≤◌, ◌<◌, ℤ, Bool, true, false, List, [], ◌∷◌, ◌++◌, Option, none, some,
  String, Dict, length, take, eqb, leb, append_assoc, ◌≡◌, refl, sym, ap, ◌∙◌, arith, Bool-cases,
  inl, inr,
}
use stream_guard.Text.{Bytes}
use stream_guard.Protocol.{Json}
use stream_guard.MockUpstream.{
  FailureMode, no_failure, dead_socket, silent_hang, malformed, Options, Server, Ending, complete,
  inject_failure, failure_of, fail_after, write_token, send_tokens, done_bytes, finish, respond,
  count_usage, stream,
}

differs : (i n : ℕ) → i < n → eqb i n ≡ false
differs i n h = ground arith

same : (i n : ℕ) → n ≡ i + 0 → eqb i n ≡ true
same i n e = ground arith

assoc : (a b c : Bytes) → a ++ (b ++ c) ≡ (a ++ b) ++ c
assoc a b c = sym (append_assoc a b c)

module _ (j : Json) (quote : Bytes → Bytes) where
  -- The bytes of some tokens.
  abbrev tokens_bytes : Bool → List Bytes → Bytes
  tokens_bytes split [] = []
  tokens_bytes split (t ∷ ts) = write_token j quote split t ++ tokens_bytes split ts

  -- What a response is to be: with a failure, the first tokens, what the failure writes, and its ending;
  -- else all of them and the end of the stream.
  abbrev pub response : Bool → Option (Bytes × Ending) → ℕ → List Bytes → Bytes × Ending
  response split none n tokens = (tokens_bytes split tokens ++ done_bytes j quote, complete)
  response split (some (out, ending)) n tokens = (tokens_bytes split (take n tokens) ++ out, ending)

  send_tokens-whole :
      (split : Bool) (f : FailureMode) (n i : ℕ) (ts : List Bytes)
      → inject_failure f ≡ none
      → send_tokens j quote split f n i ts ≡ (tokens_bytes split ts, none)
  unfolding send_tokens
  send_tokens-whole split f n i [] h = refl
  send_tokens-whole split f n i (t ∷ ts) h = elim (Bool-cases (eqb i n)) [
    | inl e ↦ rw (e, h, send_tokens) (rw (send_tokens-whole split f n (suc i) ts h) refl)
    | inr e ↦ rw (e, send_tokens) (rw (send_tokens-whole split f n (suc i) ts h) refl)
  ]

  send_tokens-failing :
      (split : Bool) (f : FailureMode) (n k i : ℕ) (ts : List Bytes) (out : Bytes) (ending : Ending)
      → inject_failure f ≡ some (out, ending)
      → n ≡ i + k
      → k < length ts
      → send_tokens j quote split f n i ts ≡ (tokens_bytes split (take k ts) ++ out, some ending)
  unfolding send_tokens
  send_tokens-failing split f n k i [] out ending h e b = absurd (omega arith)
  send_tokens-failing split f n zero i (t ∷ ts) out ending h e b =
      rw (same i n e, h, send_tokens) refl
  send_tokens-failing split f n (suc k) i (t ∷ ts) out ending h e b =
      rw (differs i n (omega arith), send_tokens)
        (rw (send_tokens-failing split f n k (suc i) ts out ending h (omega arith) (omega arith))
          (ap (λ l. (l, some ending)) (assoc (write_token j quote split t) _ out)))

  send_tokens-late :
      (split : Bool) (f : FailureMode) (n i : ℕ) (ts : List Bytes)
      → i + length ts ≤ n
      → send_tokens j quote split f n i ts ≡ (tokens_bytes split ts, none)
  unfolding send_tokens
  send_tokens-late split f n i [] h = refl
  send_tokens-late split f n i (t ∷ ts) h =
      rw (differs i n (omega arith), send_tokens)
        (rw (send_tokens-late split f n (suc i) ts (omega arith)) refl)

  take-long : (n : ℕ) (ts : List Bytes) → length ts ≤ n → take n ts ≡ ts
  take-long zero [] h = refl
  take-long (suc n) [] h = refl
  take-long zero (t ∷ ts) h = absurd (omega arith)
  take-long (suc n) (t ∷ ts) h = ap (λ l. t ∷ l) (take-long n ts (omega arith))

  whole_end :
      (at_end : Bool) (out : Bytes) (f : FailureMode)
      → inject_failure f ≡ none
      → finish j quote f at_end (out, none) ≡ (out ++ done_bytes j quote, complete)
  whole_end true out f h = rw h refl
  whole_end false out f h = refl

  respond-response :
      (split : Bool) (f : FailureMode) (n : ℕ) (ts : List Bytes) (o : Option (Bytes × Ending))
      → inject_failure f ≡ o
      → respond j quote split f n ts ≡ response split o n ts
  unfolding respond
  respond-response split f n ts none h =
      rw (send_tokens-whole split f n 0 ts h)
        (whole_end (leb (length ts) n) (tokens_bytes split ts) f h)
  respond-response split f n ts (some (out, ending)) h = elim (Bool-cases (leb (length ts) n)) [
    | inl late ↦
        rw (late, send_tokens-late split f n 0 ts (ground arith), h)
          (rw (take-long n ts (ground arith)) refl)
    | inr early ↦
        rw (early, send_tokens-failing split f n n 0 ts out ending h (omega arith) (ground arith))
          refl
  ]

  -- The usage after a response: one without a failure is counted, by its tokens.
  abbrev pub usage_after : String → String → ℕ → Option (Bytes × Ending) → Dict ℤ → Dict ℤ
  usage_after period key_hash n none usage = count_usage j quote period key_hash n complete usage
  usage_after period key_hash n (some failed) usage = usage

  counted :
      (period key_hash : String) (split : Bool) (n : ℕ) (ts : List Bytes) (f : FailureMode)
      (usage : Dict ℤ)
      → count_usage j quote period key_hash
          (length ts)
          (response split (inject_failure f) n ts).1
          usage
        ≡ usage_after period key_hash (length ts) (inject_failure f) usage
  unfolding inject_failure
  counted period key_hash split n ts no_failure usage = refl
  counted period key_hash split n ts dead_socket usage = refl
  counted period key_hash split n ts silent_hang usage = refl
  counted period key_hash split n ts malformed usage = refl

  -- A demo provider that is to fail sends exactly its first tokens, as many as `fail_after` says, all if
  -- there are no more, then what the failure writes, and counts no usage. One that is not sends all of
  -- them and the end of the stream, and counts them for the key and the period.
  pub stream-response {ℓ} :
      {W : Type ℓ} (chance : ℤ) (pick : FailureMode) (opts : Options W) (period key_hash : String)
      (s : Server W)
      → let failed = inject_failure (failure_of chance pick opts) in
        let (s', out) = stream j quote chance pick opts period key_hash s in
        (out ≡ response opts.split_frames failed (fail_after opts) opts.tokens)
        × (s'.usage ≡ usage_after period key_hash (length opts.tokens) failed s.usage)
  unfolding stream
  stream-response chance pick opts period key_hash s =
      let f = failure_of chance pick opts in
      let e =
        respond-response opts.split_frames f (fail_after opts) opts.tokens (inject_failure f)
          refl in
      (
        e,
        ap (λ o. count_usage j quote period key_hash (length opts.tokens) o.1 s.usage) e
            ∙ counted period key_hash opts.split_frames (fail_after opts) opts.tokens f s.usage,
      )
