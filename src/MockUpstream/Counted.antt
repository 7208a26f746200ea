-- ===== src/MockUpstream/Counted.antt =====
-- The usage that a demo provider (internal/mockupstream/mockupstream.go) reports to the fetcher of
-- internal/reconcile/reconcile.go, after the requests that it has served.
use stream_guard.Prelude.{
  ℕ, ◌+◌, ◌<◌, ℤ, pos, add64, add64_pos, half_word, false, List, [], ◌∷◌, ◌++◌, Option, none, some,
  String, ◌==◌, eq_iff, Dict, lookup, lookup-insert, length, if◌then◌else◌, ◌≡◌, refl, ap, ◌∙◌,
  arith, Bool-cases, inl, inr,
}
use stream_guard.Text.{Bytes, codes, trim_right_of}
use stream_guard.Double.{Double}
use stream_guard.Config.{Provider}
use stream_guard.Protocol.{Json}
use stream_guard.Reconcile.Fetching.{usage_url, fetch_usage}
use stream_guard.MockUpstream.{
  FailureMode, Options, Server, Ending, inject_failure, failure_of, snapshot, usage_key, or_zero,
  stream, usage_handler,
}
use stream_guard.MockUpstream.Failing.{usage_after, stream-response}

-- A request to a demo provider: its model, its key, the period of its time, and what is drawn for it.
pub record Request : Type 0 where
  pub chance : ℤ
  pub pick : FailureMode
  pub model : Option String
  pub period : String
  pub key_hash : String

-- The key under which a request is counted.
abbrev counted_key : Request → String
counted_key r = usage_key r.period (if r.key_hash == "" then "default" else r.key_hash)

-- The tokens of a response that had no failure.
abbrev whole : ℕ → Option (Bytes × Ending) → ℕ
whole n none = n
whole n (some failed) = 0

abbrev complete_tokens {ℓ} : {W : Type ℓ} → (Option String → Options W) → Request → ℕ
complete_tokens options r =
    whole (length (options r.model).tokens)
      (inject_failure (failure_of r.chance r.pick (options r.model)))

-- The tokens of the complete responses among those to some requests, that are counted under `key`.
abbrev tokens_under {ℓ} : {W : Type ℓ} → (Option String → Options W) → String → List Request → ℕ
tokens_under options key [] = 0
tokens_under options key (r ∷ rs) =
    (if counted_key r == key then complete_tokens options r else 0) + tokens_under options key rs

-- The usage under one key after a response: more by its tokens if it is counted there.
count_usage-under :
    (j : Json) (quote : Bytes → Bytes) (key : String) (r : Request) (n m : ℕ)
    (o : Option (Bytes × Ending)) (usage : Dict ℤ)
    → or_zero (lookup key usage) ≡ pos m
    → m + (if counted_key r == key then whole n o else 0) < half_word
    → or_zero (lookup key (usage_after j quote r.period r.key_hash n o usage))
      ≡ pos (m + (if counted_key r == key then whole n o else 0))
count_usage-under j quote key r n m (some failed) usage held fits = held ∙ ap pos (ground arith)
count_usage-under j quote key r n m none usage held fits =
    elim (Bool-cases (counted_key r == key)) [
      | inl here ↦
          rw (lookup-insert, here)
            (ap (λ k. add64 (or_zero (lookup k usage)) (pos n))
                ((eq_iff (counted_key r) key).0 here)
              ∙ (ap (λ x. add64 x (pos n)) held ∙ add64_pos m n (ground arith)))
      | inr other ↦ rw (lookup-insert, other) (held ∙ ap pos (omega arith))
    ]

module _ {ℓ} {W : Type ℓ} ⦃d : Double W⦄ where
  -- What a report adds for the offset of a provider.
  abbrev pub added : W → ℤ → ℤ
  added offset n = d.trunc (d.mul (d.of_ℤ n) (d.div offset (d.of_ℤ (pos 100))))

  -- What the server `s` answers to a GET request with a query.
  abbrev pub answer : (Bytes → String → String) → (ℤ → Bytes) → Server W → Bytes → Bytes
  answer query reply s q = reply (usage_handler (query q "period") (query q "key") s)

module _ {ℓ} {W : Type ℓ} ⦃d : Double W⦄ (j : Json) (quote : Bytes → Bytes) where
  -- The requests are served one after the other.
  abbrev pub served : Request → Server W → Server W
  served r s = (stream j quote r.chance r.pick (snapshot r.model s) r.period r.key_hash s).0

  abbrev pub all_served : List Request → Server W → Server W
  all_served [] s = s
  all_served (r ∷ rs) s = all_served rs (served r s)

  all_served-under :
      (key : String) (rs : List Request) (m : ℕ) (s : Server W)
      → or_zero (lookup key s.usage) ≡ pos m
      → m + tokens_under (λ model. snapshot model s) key rs < half_word
      → or_zero (lookup key (all_served rs s).usage)
        ≡ pos (m + tokens_under (λ model. snapshot model s) key rs)
  unfolding stream snapshot
  all_served-under key [] m s held fits = held ∙ ap pos (omega arith)
  all_served-under key (r ∷ rs) m s held fits =
      let opts = snapshot r.model s in
      let n = complete_tokens (λ model. snapshot model s) r in
      let here = if counted_key r == key then n else 0 in
      let after : or_zero (lookup key (served r s).usage) ≡ pos (m + here) =
        rw ((stream-response j quote r.chance r.pick opts r.period r.key_hash s).1) (
          count_usage-under j quote key r (length opts.tokens) m
            (inject_failure (failure_of r.chance r.pick opts)) s.usage held (omega arith)) in
      all_served-under key rs (m + here) (served r s) after (omega arith) ∙ ap pos (omega arith)

  opts-all_served : (rs : List Request) (s : Server W) → (all_served rs s).opts ≡ s.opts
  unfolding stream
  opts-all_served [] s = refl
  opts-all_served (r ∷ rs) s = opts-all_served rs (served r s)

  usage_handler-served :
      (period key_hash : String) (rs : List Request) (m : ℕ) (s : Server W)
      → (key_hash == "") ≡ false
      → ((n : ℤ) → added s.opts.usage_offset_pct n ≡ pos 0)
      → or_zero (lookup (usage_key period key_hash) s.usage) ≡ pos m
      → m + tokens_under (λ model. snapshot model s) (usage_key period key_hash) rs < half_word
      → usage_handler period key_hash (all_served rs s)
        ≡ pos (m + tokens_under (λ model. snapshot model s) (usage_key period key_hash) rs)
  unfolding usage_handler
  usage_handler-served period key_hash rs m s keyed exact held fits =
      let key = usage_key period key_hash in
      let t = m + tokens_under (λ model. snapshot model s) key rs in
      rw (keyed, all_served-under key rs m s held fits, opts-all_served rs s, exact)
        (add64_pos t 0 (omega arith) ∙ ap pos (omega arith))

  module _ (encode : List (Bytes × Bytes) → Bytes) (query : Bytes → String → String)
      (reply : ℤ → Bytes) (get : Bytes → Option Bytes) (decode : Bytes → Option ℤ) where
    -- Let a provider be reached at its base URL, let the server read the period and the key of the
    -- query as they were encoded, let JSON read a reported number back, and let the provider add
    -- nothing for its offset. After any requests, that failed or not, for any keys and models,
    -- `FetchUsage` gets for a key that is not empty and a period the count before them and the tokens
    -- of the complete responses that were counted under the same `usage_key`, if this sum is below
    -- 2^63.
    pub fetch_usage-served :
        (provider : Provider) (period key_hash : String) (rs : List Request) (m : ℕ) (s : Server W)
        → ((q : Bytes)
            → get (trim_right_of b'/' provider.base_url ++ (codes "/usage" ++ (codes "?" ++ q)))
              ≡ some (answer query reply (all_served rs s) q))
        → (let q = encode ((codes "period", codes period) ∷ (codes "key", codes key_hash) ∷ []) in
            (query q "period" ≡ period) × (query q "key" ≡ key_hash))
        → ((n : ℤ) → decode (reply n) ≡ some n)
        → ((n : ℤ) → added s.opts.usage_offset_pct n ≡ pos 0)
        → (key_hash == "") ≡ false
        → or_zero (lookup (usage_key period key_hash) s.usage) ≡ pos m
        → m + tokens_under (λ model. snapshot model s) (usage_key period key_hash) rs < half_word
        → fetch_usage encode get decode provider key_hash period
          ≡ some (pos (m + tokens_under (λ model. snapshot model s) (usage_key period key_hash) rs))
    unfolding fetch_usage usage_url
    fetch_usage-served provider period key_hash rs m s reached read back exact keyed held fits =
        let (as_period, as_key) = read in
        rw (reached, as_period, as_key, back)
          (ap some (usage_handler-served period key_hash rs m s keyed exact held fits))
