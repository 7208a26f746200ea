-- ===== src/Reconcile/Flags.antt =====
-- Which entries of the ledger a reconciliation (internal/reconcile/reconcile.go) marks as drifting.
use stream_guard.Prelude.{
  sub64, pos, ltb_ℤ, ℤ, Bool, true, false, ◌||◌, List, [], ◌∷◌, Option, none, some, String, ◌==◌,
  eq_refl, Dict, lookup, lookup-insert, if◌then◌else◌, All, ◌≡◌, ◌≢◌, refl, sym, ap, ◌∙◌, arith,
  Bool-cases, Option-cases, inl, inr,
}
use stream_guard.Double.{Double}
use stream_guard.Ledger.{Entry, entry_key, or_new, get, upsert_reconciliation}
use stream_guard.Ledger
use stream_guard.Config.{Provider}
use stream_guard.Reconcile.{
  State, Result, Fetcher, is_nil, provider_by_name, drift_of, apply, compare_providers, close_entry,
  reconcile_entry, reconcile_all, run,
}

lookup-upsert :
    (h p k : String) (at : ℤ) (flag : Bool) (s : Ledger.Store)
    → lookup k (upsert_reconciliation h p at flag s).entries ≡ (
        if entry_key h p == k
        then some (record (get h p s) { last_reconciled_at = some at; drift_flag = flag })
        else lookup k s.entries)
unfolding upsert_reconciliation
lookup-upsert h p k at flag s = lookup-insert (entry_key h p) k _ s.entries

abbrev key_of : Entry → String
key_of e = entry_key e.api_key_hash e.billing_period

-- Entries of different keys, as those of the ledger are.
abbrev pub AreDistinct : List Entry → Type 0
AreDistinct [] = Unit
AreDistinct (e ∷ es) = All (λ e'. (key_of e' == key_of e) ≡ false) es × AreDistinct es

none_not_some {ℓ} : {A : Type ℓ} {a : A} → ◌≡◌ {A = Option A} none (some a) → ⊥
none_not_some h = cc

or_assoc : (a b c : Bool) → ((a || b) || c) ≡ (a || (b || c))
or_assoc true b c = refl
or_assoc false b c = refl

module _ {ℓ} {W : Type ℓ} ⦃d : Double W⦄ (threshold : W) (now : ℤ) (fetch : Fetcher)
    (providers : List Provider) where
  -- The difference of two counts in percent of the reported one, or nothing if that is not positive.
  abbrev percent : ℤ → ℤ → W
  percent local reported =
      if ltb_ℤ (pos 0) reported
      then d.mul (d.div (d.abs (d.of_ℤ (sub64 local reported))) (d.of_ℤ reported))
          (d.of_ℤ (pos 100))
      else d.of_ℤ (pos 0)

  abbrev drifts_by : ℤ → Option ℤ → Bool
  drifts_by local none = false
  drifts_by local (some reported) = d.lt threshold (percent local reported)

  abbrev drifts : Entry → ℤ → Option Provider → Bool
  drifts e local none = false
  drifts e local (some p) = drifts_by local (fetch p e.api_key_hash e.billing_period)

  -- Whether one of the configured providers of an entry drifts by more than the threshold.
  abbrev any_drift : Entry → Dict ℤ → Bool
  any_drift e [] = false
  any_drift e ((name, local) ∷ rest) =
      drifts e local (provider_by_name providers name) || any_drift e rest

  -- What the ledger says of an entry that has been reconciled; one without tokens by provider is
  -- left alone.
  pub data Reconciled (e : Entry) (s : State W) : Type 0 where
    skipped : e.provider_tokens ≡ [] → Reconciled e s
    marked :
        (e' : Entry)
        → lookup (key_of e) s.ledger.entries ≡ some e'
        → e'.drift_flag ≡ any_drift e e.provider_tokens
        → e'.last_reconciled_at ≡ some now
        → Reconciled e s

  -- A write to the record of another key.
  apply-other :
      (e : Entry) (name k : String) (local reported : ℤ) (s : State W)
      → (key_of e == k) ≡ false
      → lookup k
          (apply threshold now e.api_key_hash name e.billing_period local reported s).ledger.entries
        ≡ lookup k s.ledger.entries
  unfolding apply
  apply-other e name k local reported s other =
      rw (lookup-upsert e.api_key_hash e.billing_period k now _ s.ledger, other) refl

  -- The loop over the providers of an entry leaves every other entry.
  compare_providers-other :
      (e : Entry) (tokens : Dict ℤ) (flag : Bool) (results : List (Result W)) (s : State W)
      (k : String)
      → (key_of e == k) ≡ false
      → lookup k
          (compare_providers threshold now fetch providers e tokens flag results s).0.ledger.entries
        ≡ lookup k s.ledger.entries
  unfolding compare_providers
  compare_providers-other e [] flag results s k other = refl
  compare_providers-other e ((name, local) ∷ rest) flag results s k other =
      elim (Option-cases (provider_by_name providers name)) [
        | inl unknown ↦
            rw (unknown, compare_providers) (compare_providers-other e rest flag results s k other)
        | inr (p, known) ↦ elim (Option-cases (fetch p e.api_key_hash e.billing_period)) [
          | inl failed ↦ rw (known, failed, compare_providers) refl
          | inr (reported, answered) ↦
              rw (known, answered, compare_providers)
                (compare_providers-other e rest _ _
                    (apply threshold now e.api_key_hash name e.billing_period local reported s) k
                    other
                  ∙ apply-other e name k local reported s other)
        ]
      ]

  compare_providers-flag :
      (e : Entry) (tokens : Dict ℤ) (flag flag' : Bool) (results results' : List (Result W))
      (s : State W)
      → (compare_providers threshold now fetch providers e tokens flag results s).1
        ≡ some (flag', results')
      → flag' ≡ (flag || any_drift e tokens)
  unfolding compare_providers drift_of
  compare_providers-flag e [] flag flag' results results' s h = ground arith
  compare_providers-flag e ((name, local) ∷ rest) flag flag' results results' s h =
      elim (Option-cases (provider_by_name providers name)) [
        | inl unknown ↦ rw unknown (
            compare_providers-flag e rest flag flag' results results' s
              (rw (unknown, compare_providers) at h))
        | inr (p, known) ↦ elim (Option-cases (fetch p e.api_key_hash e.billing_period)) [
          | inl failed ↦ absurd (none_not_some (rw (known, failed, compare_providers) at h))
          | inr (reported, answered) ↦
              rw (known, answered)
                (compare_providers-flag e rest _ flag' _ results' _
                    (rw (known, answered, compare_providers) at h)
                  ∙ or_assoc flag (d.lt threshold (percent local reported)) (any_drift e rest))
        ]
      ]

  close_entry_marks :
      (e : Entry) (out : State W × Option (Bool × List (Result W))) (results' : List (Result W))
      → ((flag : Bool) (rs : List (Result W))
          → out.1 ≡ some (flag, rs)
          → flag ≡ any_drift e e.provider_tokens)
      → (close_entry threshold now fetch providers e out).1 ≡ some results'
      → Reconciled e (close_entry threshold now fetch providers e out).0
  close_entry_marks e (s, none) results' v h = absurd (none_not_some h)
  close_entry_marks e (s, some (flag, rs)) results' v h =
      marked
        (record (get e.api_key_hash e.billing_period s.ledger) {
          last_reconciled_at = some now;
          drift_flag = flag;
        })
        (lookup-upsert e.api_key_hash e.billing_period (key_of e) now flag s.ledger
          ∙ rw (eq_refl (key_of e)) refl)
        (v flag rs refl) refl

  close_entry-other :
      (e : Entry) (out : State W × Option (Bool × List (Result W))) (k : String)
      → (key_of e == k) ≡ false
      → lookup k (close_entry threshold now fetch providers e out).0.ledger.entries
        ≡ lookup k out.0.ledger.entries
  close_entry-other e (s, none) k other = refl
  close_entry-other e (s, some (flag, rs)) k other =
      rw (lookup-upsert e.api_key_hash e.billing_period k now flag s.ledger, other) refl

  nil_of : (ps : Dict ℤ) → is_nil ps ≡ true → ps ≡ []
  nil_of [] h = refl
  nil_of (p ∷ ps) h = cc

  not_nil : (ps : Dict ℤ) → ps ≢ [] → is_nil ps ≡ false
  not_nil [] h = absurd (h refl)
  not_nil (p ∷ ps) h = refl

  -- A round marks its entry and leaves the others.
  reconcile_entry_marks :
      (e : Entry) (results results' : List (Result W)) (s : State W)
      → (reconcile_entry threshold now fetch providers e results s).1 ≡ some results'
      → Reconciled e (reconcile_entry threshold now fetch providers e results s).0
  unfolding reconcile_entry
  reconcile_entry_marks e results results' s h = elim (Bool-cases (is_nil e.provider_tokens)) [
    | inl nothing ↦ rw (nothing, reconcile_entry) (skipped (nil_of e.provider_tokens nothing))
    | inr some_tokens ↦
        rw (some_tokens, reconcile_entry)
          (close_entry_marks e
            (compare_providers threshold now fetch providers e e.provider_tokens false results s)
            results' (λ flag rs. compare_providers-flag e e.provider_tokens false flag results rs s)
            (rw (some_tokens, reconcile_entry) at h))
  ]

  reconcile_entry-other :
      (e : Entry) (results : List (Result W)) (s : State W) (k : String)
      → (key_of e == k) ≡ false
      → lookup k (reconcile_entry threshold now fetch providers e results s).0.ledger.entries
        ≡ lookup k s.ledger.entries
  unfolding reconcile_entry
  reconcile_entry-other e results s k other = elim (Bool-cases (is_nil e.provider_tokens)) [
    | inl nothing ↦ rw (nothing, reconcile_entry) refl
    | inr some_tokens ↦
        rw (some_tokens, reconcile_entry)
          (close_entry-other e
              (compare_providers threshold now fetch providers e e.provider_tokens false results s)
              k other
            ∙ compare_providers-other e e.provider_tokens false results s k other)
  ]

  Reconciled-kept :
      (e : Entry) (s s' : State W)
      → lookup (key_of e) s'.ledger.entries ≡ lookup (key_of e) s.ledger.entries
      → Reconciled e s
      → Reconciled e s'
  Reconciled-kept e s s' same (skipped none_there) = skipped none_there
  Reconciled-kept e s s' same (marked e' found flag at) = marked e' (same ∙ found) flag at

  reconcile_all-other :
      (es : List Entry) (results : List (Result W)) (s : State W) (k : String)
      → All (λ e. (key_of e == k) ≡ false) es
      → lookup k (reconcile_all threshold now fetch providers es results s).0.ledger.entries
        ≡ lookup k s.ledger.entries
  unfolding reconcile_all
  reconcile_all-other [] results s k others = refl
  reconcile_all-other (e ∷ es) results s k others =
      let r = reconcile_entry threshold now fetch providers e results s in
      let same = reconcile_entry-other e results s k others.0 in
      elim (Option-cases r.1) [
        | inl failed ↦ rw (failed, reconcile_all) same
        | inr (rs, done) ↦
            rw (done, reconcile_all) (reconcile_all-other es rs r.0 k others.1 ∙ same)
      ]

  reconcile_all_marks :
      (es : List Entry) (results results' : List (Result W)) (s t : State W)
      → AreDistinct es
      → reconcile_all threshold now fetch providers es results s ≡ (t, some results')
      → All (λ e. Reconciled e t) es
  unfolding reconcile_all
  reconcile_all_marks [] results results' s t distinct h = tt
  reconcile_all_marks (e ∷ es) results results' s t distinct h =
      let r = reconcile_entry threshold now fetch providers e results s in
      elim (Option-cases r.1) [
        | inl failed ↦ absurd (none_not_some (ap (λ o. o.1) (rw (failed, reconcile_all) at h)))
        | inr (rs, done) ↦
            let h' = rw (done, reconcile_all) at h in
            (
              Reconciled-kept e r.0 t
                  (ap (λ o. lookup (key_of e) o.0.ledger.entries) (sym h')
                    ∙ reconcile_all-other es rs r.0 (key_of e) distinct.0)
                  (reconcile_entry_marks e results rs s done),
              reconcile_all_marks es rs results' r.0 t distinct.1 h',
            )
      ]

  -- Let the entries have different keys, and let a run with a fetcher end without an error. Then every
  -- entry with tokens by provider is marked in the ledger as reconciled at this time, and as drifting
  -- exactly if one of its configured providers drifts by more than the threshold.
  pub run-Reconciled :
      (es : List Entry) (results : List (Result W)) (s t : State W)
      → AreDistinct es
      → run threshold now (some fetch) providers es s ≡ (t, some results)
      → All (λ e. Reconciled e t) es
  unfolding run
  run-Reconciled es results s t distinct h = reconcile_all_marks es [] results s t distinct h

  compare_providers-unknown :
      (e : Entry) (tokens : Dict ℤ) (flag : Bool) (results : List (Result W)) (s : State W)
      → All (λ t. provider_by_name providers t.0 ≡ none) tokens
      → compare_providers threshold now fetch providers e tokens flag results s
        ≡ (s, some (flag, results))
  unfolding compare_providers
  compare_providers-unknown e [] flag results s h = refl
  compare_providers-unknown e ((name, local) ∷ rest) flag results s h =
      rw (h.0, compare_providers) (compare_providers-unknown e rest flag results s h.1)

  -- If none of the providers of an entry is configured any more, a reconciliation of the entry, with
  -- nothing fetched, takes its drift mark off and says that it was reconciled.
  pub reconcile_entry-unknown :
      (e : Entry) (results : List (Result W)) (s : State W)
      → e.provider_tokens ≢ []
      → All (λ t. provider_by_name providers t.0 ≡ none) e.provider_tokens
      → ((reconcile_entry threshold now fetch providers e results s).1 ≡ some results)
        × (lookup
              (key_of e)
              (reconcile_entry threshold now fetch providers e results s).0.ledger.entries
            ≡ some (record (get e.api_key_hash e.billing_period s.ledger) {
              last_reconciled_at = some now;
              drift_flag = false;
            }))
  unfolding reconcile_entry
  reconcile_entry-unknown e results s some_tokens unknown =
      rw
        (
          not_nil e.provider_tokens some_tokens,
          compare_providers-unknown e e.provider_tokens false results s unknown,
        )
        (
          refl,
          lookup-upsert e.api_key_hash e.billing_period (key_of e) now false s.ledger
              ∙ rw (eq_refl (key_of e)) refl,
        )
