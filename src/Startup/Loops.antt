-- ===== src/Startup/Loops.antt =====
-- What the reconcile loop of cmd/streamguard/main.go does to the accounts while it runs.
use stream_guard.Prelude.{
  ℤ, List, [], ◌∷◌, some, String, All, ◌≡◌, refl, ◌∙◌, Option-cases, inl, inr,
}
use stream_guard.Double.{Double}
use stream_guard.Ledger.{entries_of}
use stream_guard.Reconcile.{State, Fetcher, run_once}
use stream_guard.Reconcile.Billing.{billing, billing-run}
use stream_guard.Startup.{Wake, tick, done, Runner, reconcile_loop}

-- What others do before a tick bills nothing.
abbrev LeavesBilling {ℓ} : {W : Type ℓ} → Wake (State W) → Type ℓ
LeavesBilling {W} (tick now meanwhile) =
    (s : State W) (k : String) → billing k (meanwhile s).ledger ≡ billing k s.ledger
LeavesBilling done = Unit

module _ {ℓ} {W : Type ℓ} ⦃d : Double W⦄ (fetch : ℤ → Fetcher) (r : Runner W) where
  -- However often the loop runs, with whatever the providers report, and also where fetches fail and
  -- the error is only logged: what is billed under every key is what others billed.
  billing-reconcile_loop :
      (wakes : List (Wake (State W))) (s : State W) (k : String)
      → All LeavesBilling wakes
      → billing k (reconcile_loop fetch r wakes s).0.ledger ≡ billing k s.ledger
  unfolding reconcile_loop run_once
  billing-reconcile_loop [] s k quiet = refl
  billing-reconcile_loop (done ∷ rest) s k quiet = refl
  billing-reconcile_loop (tick now meanwhile ∷ rest) s k quiet =
      let s₀ = meanwhile s in
      let out = run_once r.threshold_pct now (some (fetch now)) r.providers s₀ in
      let same =
        billing-reconcile_loop rest out.0 k quiet.1
        ∙ billing-run r.threshold_pct now (some (fetch now)) r.providers
            (entries_of s₀.ledger.entries) s₀ k
        ∙ quiet.0 s k in
      elim (Option-cases out.1) [
        | inl failed ↦ rw (failed, reconcile_loop) same
        | inr (results, ended) ↦ rw (ended, reconcile_loop) same
      ]
