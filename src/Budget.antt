-- ===== src/Budget.antt =====
-- internal/budget/budget.go: the record of an API key and its token budget. A method that changes
-- the record returns the new one. An atomic loop is the operation that its successful
-- compare-and-swap makes; Budget/Interleaving.antt takes the loops apart.
pub mod Bounds
pub mod Interleaving
use stream_guard.Prelude.{
  ℤ, pos, Bool, true, false, ◌||◌, List, [], ◌∷◌, String, ◌==◌, ltb_ℤ, leb_ℤ, if◌then◌else◌, add64,
  sub64,
}

pub record ApiKeyRecord : Type 0 where
  pub key_hash : String
  pub provider_allowlist : List String
  pub token_budget : ℤ  -- int64
  pub tokens_used : ℤ  -- int64, atomic
  pub budget_period : ℤ  -- nanoseconds
  pub budget_period_start : ℤ  -- nanoseconds

-- The body of the loop in `TryReserve` when no other call intervenes.
unfoldable pub try_reserve : ApiKeyRecord → ℤ → ApiKeyRecord × Bool
try_reserve k n =
    if ltb_ℤ n (pos 0)
    then (k, false)
    else let used = k.tokens_used in
      if ltb_ℤ k.token_budget (add64 used n)
      then (k, false)
      else (record k { tokens_used = add64 used n }, true)

unfoldable pub release : ApiKeyRecord → ℤ → ApiKeyRecord
release k n =
    if leb_ℤ n (pos 0)
    then k
    else let next = sub64 k.tokens_used n in
      record k { tokens_used = if ltb_ℤ next (pos 0) then pos 0 else next }

unfoldable pub exhausted : ApiKeyRecord → Bool
exhausted k = leb_ℤ k.token_budget k.tokens_used

unfoldable pub contains : List String → String → Bool
contains [] provider = false
contains (allowed ∷ rest) provider = allowed == provider || contains rest provider

unfoldable allows : ApiKeyRecord → String → Bool
unfolding contains
allows k provider = contains k.provider_allowlist provider
