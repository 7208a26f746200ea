-- ===== src/Auth.antt =====
-- internal/auth/auth.go: the store of API keys. A raw key is text; `hash` is `HashKey`, SHA-256 in
-- hexadecimal. The mutex makes each method one step. Times are nanoseconds since Go's zero time.
pub mod Keys
pub mod KeysFile
use stream_guard.Prelude.{
  ℕ, suc, ℤ, pos, ◌+ℤ◌, Bool, true, false, ◌||◌, List, [], ◌∷◌, Option, String, ◌==◌, Dict, lookup,
  insert, ltb_ℤ, leb_ℤ, eqb_ℤ, if◌then◌else◌, leb, length, take, ◌++◌,
}
use stream_guard.Text.{Bytes, codes}
use stream_guard.Budget.{ApiKeyRecord}

pub record Store : Type 0 where
  pub by_hash : Dict ApiKeyRecord
  pub raw_hash : Dict String
  pub period : ℤ

unfoldable pub new_store : ℤ → Store
new_store default_period = record { by_hash = []; raw_hash = []; period = default_period }

pub data AddError : Type 0 where
  empty_key empty_allowlist negative_budget : AddError

pub data Added : Type 0 where
  refused : AddError → Added
  stored : Store → Added

abbrev pub is_nil : List String → Bool
is_nil [] = true
is_nil (x ∷ xs) = false

abbrev or_period : ℤ → ℤ → ℤ
or_period period default = if leb_ℤ period (pos 0) then default else period

module _ (hash : String → String) where
  -- The record that `Add` builds at a time.
  unfoldable pub new_record : String → List String → ℤ → ℤ → ℤ → Store → ApiKeyRecord
  new_record raw allowlist token_budget period now s = record {
    key_hash = hash raw;
    provider_allowlist = allowlist;
    token_budget = token_budget;
    tokens_used = pos 0;
    budget_period = or_period period s.period;
    budget_period_start = now;
  }

  unfoldable pub add : String → List String → ℤ → ℤ → ℤ → Store → Added
  unfolding new_record
  add raw allowlist token_budget period now s =
      if raw == ""
      then refused empty_key
      else if is_nil allowlist
      then refused empty_allowlist
      else if ltb_ℤ token_budget (pos 0)
      then refused negative_budget
      else stored (record s {
        by_hash = insert (hash raw) (new_record raw allowlist token_budget period now s) s.by_hash;
        raw_hash = insert raw (hash raw) s.raw_hash;
      })

  unfoldable pub lookup_raw : String → Store → Option ApiKeyRecord
  lookup_raw raw s = lookup (hash raw) s.by_hash

unfoldable pub lookup_hash : String → Store → Option ApiKeyRecord
lookup_hash key_hash s = lookup key_hash s.by_hash

-- Whether the loop of `ResetExpired` skips a record.
unfoldable pub is_kept : ℤ → ApiKeyRecord → Bool
is_kept now k =
    leb_ℤ k.budget_period (pos 0) || ltb_ℤ now (k.budget_period_start +ℤ k.budget_period)

-- One round of the loop.
unfoldable pub reset_record : ℤ → ApiKeyRecord → ApiKeyRecord
unfolding is_kept
reset_record now k =
    if is_kept now k then k else record k { tokens_used = pos 0; budget_period_start = now }

-- The loop, with the number of records reset.
unfoldable pub reset_all : ℤ → Dict ApiKeyRecord → Dict ApiKeyRecord × ℕ
unfolding reset_record is_kept
reset_all now [] = ([], 0)
reset_all now ((h, k) ∷ rest) =
    let (m, n) = reset_all now rest in
    ((h, reset_record now k) ∷ m, if is_kept now k then n else suc n)

-- `clock` is the time that replaces the zero time.
unfoldable pub reset_expired : ℤ → ℤ → Store → Store × ℕ
unfolding reset_all
reset_expired clock now s =
    let (m, n) = reset_all (if eqb_ℤ now (pos 0) then clock else now) s.by_hash in
    (record s { by_hash = m }, n)

-- `Redact`: what is shown of a raw key.
unfoldable pub redact : Bytes → Bytes
redact raw =
    let n = length raw in
    if leb n 8
    then take (if leb n 3 then n else 3) raw ++ codes "***"
    else take 8 raw ++ codes "***"
