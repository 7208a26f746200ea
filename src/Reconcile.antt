-- ===== src/Reconcile.antt =====
-- internal/reconcile/reconcile.go: the comparison of billed tokens with what the providers report. The
-- ledger, the calibration log and the tokenizer registry that a job writes to are there, as in every
-- job that the program starts; the fetcher may be missing. `fetch` is `FetchUsage`, `none` its error.
-- A map is read in the order of the list that stands for it.
pub mod Fetching
pub mod Flags
pub mod Billing
use stream_guard.Prelude.{
  ℕ, ℤ, pos, ◌-ℤ◌, sub64, Bool, true, false, ◌||◌, List, [], ◌∷◌, ◌++◌, Option, none, some, String,
  Dict, ltb_ℤ, if◌then◌else◌,
}
use stream_guard.Text.{codes, eq_bytes, to_lower}
use stream_guard.Double.{Double}
use stream_guard.Ledger.{Entry, entries_of, upsert_reconciliation}
use stream_guard.Ledger
use stream_guard.Calibration.{sample}
use stream_guard.Tokenizer.{Registry, observe}
use stream_guard.Config.{Provider}

-- What a job writes to.
pub record State {ℓ} (W : Type ℓ) : Type ℓ where
  pub ledger : Ledger.Store
  pub samples : Dict (List W)
  pub registry : Registry

pub record Result {ℓ} (W : Type ℓ) : Type ℓ where
  pub api_key_hash : String
  pub billing_period : String
  pub provider : String
  pub local_tokens : ℤ
  pub provider_tokens : ℤ
  pub drift_pct : W
  pub drift_flag : Bool
  pub last_reconciled_at : ℤ

-- `providerByName`: the last provider of a name, in lower case.
abbrev or_earlier : Bool → Provider → Option Provider → Option Provider
or_earlier own p (some q) = some q
or_earlier true p none = some p
or_earlier false p none = none

unfoldable pub provider_by_name : List Provider → String → Option Provider
unfolding eq_bytes to_lower
provider_by_name [] name = none
provider_by_name (p ∷ ps) name =
    or_earlier (eq_bytes (to_lower (codes p.name)) (to_lower (codes name))) p
      (provider_by_name ps name)

abbrev pub Fetcher : Type 0
Fetcher = Provider → String → String → Option ℤ

abbrev pub is_nil : Dict ℤ → Bool
is_nil [] = true
is_nil (p ∷ ps) = false

module _ {ℓ} {W : Type ℓ} ⦃d : Double W⦄ where
  -- The drift of `Apply`, in percent.
  unfoldable pub drift_of : ℤ → ℤ → W
  drift_of local reported =
      if ltb_ℤ (pos 0) reported
      then d.mul (d.div (d.abs (d.of_ℤ (sub64 local reported))) (d.of_ℤ reported))
          (d.of_ℤ (pos 100))
      else d.of_ℤ (pos 0)

  module _ (threshold : W) (now : ℤ) where
    -- The state after `Apply`; its result is `drift_of`.
    unfoldable pub apply : String → String → String → ℤ → ℤ → State W → State W
    unfolding drift_of
    apply api_key_hash provider period local reported s =
        let drift = drift_of local reported in
        let flag = d.lt threshold drift in
        record {
          ledger = upsert_reconciliation api_key_hash period now flag s.ledger;
          samples = sample "drift" drift s.samples;
          registry = (observe provider flag s.registry).0;
        }

    abbrev pub result_of : Entry → String → ℤ → ℤ → Result W
    result_of e name local reported = record {
      api_key_hash = e.api_key_hash;
      billing_period = e.billing_period;
      provider = name;
      local_tokens = local;
      provider_tokens = reported;
      drift_pct = drift_of local reported;
      drift_flag = d.lt threshold (drift_of local reported);
      last_reconciled_at = now;
    }

    module _ (fetch : Fetcher) (providers : List Provider) where
      -- The loop over the providers of an entry: the state, and the flag with the results, or `none`
      -- at an error of the fetcher.
      unfoldable pub compare_providers :
          Entry
          → Dict ℤ
          → Bool
          → List (Result W)
          → State W
          → State W × Option (Bool × List (Result W))
      unfolding apply provider_by_name
      compare_providers e [] flag results s = (s, some (flag, results))
      compare_providers e ((name, local) ∷ rest) flag results s =
          elim (provider_by_name providers name) [
            | none ↦ compare_providers e rest flag results s
            | some p ↦ elim (fetch p e.api_key_hash e.billing_period) [
              | none ↦ (s, none)
              | some reported ↦
                  compare_providers e rest (flag || d.lt threshold (drift_of local reported))
                    (results ++ result_of e name local reported ∷ [])
                    (apply e.api_key_hash name e.billing_period local reported s)
            ]
          ]

      -- The write that ends the round of an entry, if its providers were compared.
      abbrev pub close_entry :
          Entry → State W × Option (Bool × List (Result W)) → State W × Option (List (Result W))
      close_entry e (s, none) = (s, none)
      close_entry e (s, some (flag, results)) = (
        record s {
          ledger = upsert_reconciliation e.api_key_hash e.billing_period now flag s.ledger;
        },
        some results,
      )

      -- One round of the loop of `Run`.
      unfoldable pub reconcile_entry :
          Entry → List (Result W) → State W → State W × Option (List (Result W))
      unfolding compare_providers
      reconcile_entry e results s =
          if is_nil e.provider_tokens
          then (s, some results)
          else close_entry e (compare_providers e e.provider_tokens false results s)

      -- The loop of `Run`.
      unfoldable pub reconcile_all :
          List Entry → List (Result W) → State W → State W × Option (List (Result W))
      unfolding reconcile_entry
      reconcile_all [] results s = (s, some results)
      reconcile_all (e ∷ es) results s =
          let (s', done) = reconcile_entry e results s in
          elim done [ none ↦ (s', none) | some results' ↦ reconcile_all es results' s' ]

    abbrev run_with :
        Option Fetcher → List Provider → List Entry → State W → State W × Option (List (Result W))
    run_with none providers entries s = (s, some [])
    run_with (some fetch) providers entries s = reconcile_all fetch providers entries [] s

    -- `Run`: the results, or `none` for an error.
    unfoldable pub run :
        Option Fetcher → List Provider → List Entry → State W → State W × Option (List (Result W))
    unfolding reconcile_all
    run fetcher providers entries s = run_with fetcher providers entries s

    -- `RunOnce`.
    unfoldable pub run_once :
        Option Fetcher → List Provider → State W → State W × Option (List (Result W))
    unfolding run entries_of
    run_once fetcher providers s = run fetcher providers (entries_of s.ledger.entries) s
