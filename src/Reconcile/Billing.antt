-- ===== src/Reconcile/Billing.antt =====
-- A reconciliation (internal/reconcile/reconcile.go) bills nothing, whether it ends or fails.
use stream_guard.Prelude.{
  ℤ, pos, Bool, false, List, [], ◌∷◌, Option, none, some, String, ◌==◌, eq_iff, Dict, lookup,
  lookup-insert, ◌≡◌, refl, ap, ◌∙◌, Bool-cases, Option-cases, inl, inr,
}
use stream_guard.Double.{Double}
use stream_guard.Ledger.{Entry, entry_key, or_new, get, upsert_reconciliation}
use stream_guard.Ledger
use stream_guard.Config.{Provider}
use stream_guard.Reconcile.{
  State, Result, Fetcher, is_nil, provider_by_name, apply, compare_providers, close_entry,
  reconcile_entry, reconcile_all, run,
}

-- What is billed under a key: tokens, truncated requests and tokens by provider. A key that is not
-- there has nothing billed.
abbrev billing_of : Option Entry → ℤ × ℤ × Dict ℤ
billing_of none = (pos 0, pos 0, [])
billing_of (some e) = (e.tokens_billed, e.truncated_requests, e.provider_tokens)

unfoldable pub billing : String → Ledger.Store → ℤ × ℤ × Dict ℤ
billing k s = billing_of (lookup k s.entries)

billing_of-or_new :
    (h p : String) (o : Option Entry) (at : ℤ) (flag : Bool)
    → billing_of (some (record (or_new h p o) { last_reconciled_at = some at; drift_flag = flag }))
      ≡ billing_of o
billing_of-or_new h p none at flag = refl
billing_of-or_new h p (some e) at flag = refl

billing-upsert :
    (h p k : String) (at : ℤ) (flag : Bool) (s : Ledger.Store)
    → billing k (upsert_reconciliation h p at flag s) ≡ billing k s
unfolding upsert_reconciliation billing get
billing-upsert h p k at flag s = elim (Bool-cases (entry_key h p == k)) [
  | inl own ↦
      rw
        (
          lookup-insert (entry_key h p) k
              (record (get h p s) { last_reconciled_at = some at; drift_flag = flag }) s.entries,
          own,
        )
        (billing_of-or_new h p (lookup (entry_key h p) s.entries) at flag
          ∙ ap (λ j. billing_of (lookup j s.entries)) ((eq_iff (entry_key h p) k).0 own))
  | inr other ↦
      rw
        (
          lookup-insert (entry_key h p) k
              (record (get h p s) { last_reconciled_at = some at; drift_flag = flag }) s.entries,
          other,
        )
        refl
]

module _ {ℓ} {W : Type ℓ} ⦃d : Double W⦄ (threshold : W) (now : ℤ) (fetch : Fetcher)
    (providers : List Provider) where
  billing-compare :
      (e : Entry) (tokens : Dict ℤ) (flag : Bool) (results : List (Result W)) (s : State W)
      (k : String)
      → billing k (compare_providers threshold now fetch providers e tokens flag results s).0.ledger
        ≡ billing k s.ledger
  unfolding compare_providers apply
  billing-compare e [] flag results s k = refl
  billing-compare e ((name, local) ∷ rest) flag results s k =
      elim (Option-cases (provider_by_name providers name)) [
        | inl unknown ↦ rw (unknown, compare_providers) (billing-compare e rest flag results s k)
        | inr (p, known) ↦ elim (Option-cases (fetch p e.api_key_hash e.billing_period)) [
          | inl failed ↦ rw (known, failed, compare_providers) refl
          | inr (reported, answered) ↦
              rw (known, answered, compare_providers)
                (billing-compare e rest _ _
                    (apply threshold now e.api_key_hash name e.billing_period local reported s) k
                  ∙ billing-upsert e.api_key_hash e.billing_period k now _ s.ledger)
        ]
      ]

  billing-close :
      (e : Entry) (out : State W × Option (Bool × List (Result W))) (k : String)
      → billing k (close_entry threshold now fetch providers e out).0.ledger
        ≡ billing k out.0.ledger
  billing-close e (s, none) k = refl
  billing-close e (s, some (flag, rs)) k =
      billing-upsert e.api_key_hash e.billing_period k now flag s.ledger

  billing-reconcile_entry :
      (e : Entry) (results : List (Result W)) (s : State W) (k : String)
      → billing k (reconcile_entry threshold now fetch providers e results s).0.ledger
        ≡ billing k s.ledger
  unfolding reconcile_entry
  billing-reconcile_entry e results s k = elim (Bool-cases (is_nil e.provider_tokens)) [
    | inl nothing ↦ rw (nothing, reconcile_entry) refl
    | inr some_tokens ↦
        rw (some_tokens, reconcile_entry)
          (billing-close e
              (compare_providers threshold now fetch providers e e.provider_tokens false results s)
              k
            ∙ billing-compare e e.provider_tokens false results s k)
  ]

  billing-reconcile_all :
      (es : List Entry) (results : List (Result W)) (s : State W) (k : String)
      → billing k (reconcile_all threshold now fetch providers es results s).0.ledger
        ≡ billing k s.ledger
  unfolding reconcile_all
  billing-reconcile_all [] results s k = refl
  billing-reconcile_all (e ∷ es) results s k =
      let r = reconcile_entry threshold now fetch providers e results s in
      let same = billing-reconcile_entry e results s k in
      elim (Option-cases r.1) [
        | inl failed ↦ rw (failed, reconcile_all) same
        | inr (rs, done) ↦ rw (done, reconcile_all) (billing-reconcile_all es rs r.0 k ∙ same)
      ]

-- Whatever the providers report, and also where a fetch fails, a run leaves the tokens, the
-- truncated requests and the tokens by provider that are billed under every key.
pub billing-run {ℓ} :
    {W : Type ℓ} ⦃d : Double W⦄ (threshold : W) (now : ℤ) (fetcher : Option Fetcher)
    (providers : List Provider) (es : List Entry) (s : State W) (k : String)
    → billing k (run threshold now fetcher providers es s).0.ledger ≡ billing k s.ledger
unfolding run
billing-run threshold now none providers es s k = refl
billing-run threshold now (some fetch) providers es s k =
    billing-reconcile_all threshold now fetch providers es [] s k
