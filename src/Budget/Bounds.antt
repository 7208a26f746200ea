-- ===== src/Budget/Bounds.antt =====
-- What TryReserve, Release and Exhausted of internal/budget/budget.go do to the token count.
use stream_guard.Prelude.{
  ◌≤◌, ◌<◌, ◌+◌, ◌-◌, ℤ, pos, pos_part, ◌+ℤ◌, ◌-ℤ◌, ◌≤ℤ◌, ◌<ℤ◌, ◌≡◌, ◌⊎◌, true, false, arith,
  +ℤ_parts, -ℤ_parts, IsInt64, half_word, word, wrap64_id, wrap64_above,
}
use stream_guard.Budget.{ApiKeyRecord, try_reserve, release}

-- The count lies between nothing and the budget, and the budget is an int64.
pub record IsBudgeted (k : ApiKeyRecord) : Type 0 where
  pub budget_fits : IsInt64 k.token_budget
  pub used_nonneg : pos 0 ≤ℤ k.tokens_used
  pub used_within : k.tokens_used ≤ℤ k.token_budget

-- If the count and the amount do not overflow, a reservation either adds the amount, which is not
-- negative and fits the budget, or changes nothing, because the amount is negative or the sum is over
-- the budget.
try_reserve_cases :
    (k : ApiKeyRecord) (n : ℤ)
    → IsInt64 (k.tokens_used +ℤ n)
    → ((try_reserve k n ≡ (record k { tokens_used = k.tokens_used +ℤ n }, true))
        × (pos 0 ≤ℤ n)
        × (k.tokens_used +ℤ n ≤ℤ k.token_budget))
      ⊎ ((try_reserve k n ≡ (k, false)) × ((n <ℤ pos 0) ⊎ (k.token_budget <ℤ k.tokens_used +ℤ n)))
unfolding try_reserve
try_reserve_cases k n fits = ground (arith, wrap64_id (k.tokens_used +ℤ n))

-- The invariant is kept by every amount that, with the budget, stays below 2^63.
pub try_reserve-IsBudgeted :
    (k : ApiKeyRecord) (n : ℤ)
    → IsBudgeted k
    → pos_part n + pos_part k.token_budget < half_word
    → IsBudgeted (try_reserve k n).0
unfolding try_reserve
try_reserve-IsBudgeted k n b fits =
    ground (arith, wrap64_id (k.tokens_used +ℤ n), +ℤ_parts k.tokens_used n)

-- A reservation whose sum with a count within the budget reaches 2^63 succeeds, and leaves a negative
-- count: the sum wraps before it is compared with the budget.
pub try_reserve_overflow :
    (k : ApiKeyRecord) (n : ℤ)
    → IsBudgeted k
    → IsInt64 n
    → half_word ≤ pos_part (k.tokens_used +ℤ n)
    → ((try_reserve k n).1 ≡ true) × ((try_reserve k n).0.tokens_used <ℤ pos 0)
unfolding try_reserve
try_reserve_overflow k n b small over = ground (
  arith,
  wrap64_above (k.tokens_used +ℤ n),
  +ℤ_parts k.tokens_used n,
  -ℤ_parts (k.tokens_used +ℤ n) (pos word),
)

-- A release of an amount that is not negative, from a count within the budget, takes it off the count
-- and stops at zero.
pub release_exact :
    (k : ApiKeyRecord) (n : ℤ)
    → IsBudgeted k
    → IsInt64 n
    → pos 0 ≤ℤ n
    → release k n ≡ record k { tokens_used = pos (pos_part k.tokens_used - pos_part n) }
unfolding release ◌-ℤ◌
release_exact k n b small p = ground (arith, wrap64_id (k.tokens_used -ℤ n))

-- A release of any int64 keeps the invariant.
pub release-IsBudgeted :
    (k : ApiKeyRecord) (n : ℤ) → IsBudgeted k → IsInt64 n → IsBudgeted (release k n)
unfolding release
release-IsBudgeted k n b small =
    ground (arith, wrap64_id (k.tokens_used -ℤ n), -ℤ_parts k.tokens_used n)

-- From a count within the budget, releasing what was just reserved gives the record back, if the sum
-- does not overflow.
release-try_reserve :
    (k : ApiKeyRecord) (n : ℤ)
    → IsBudgeted k
    → IsInt64 n
    → IsInt64 (k.tokens_used +ℤ n)
    → (try_reserve k n).1 ≡ true
    → release (try_reserve k n).0 n ≡ k
unfolding try_reserve release ◌-ℤ◌ ◌+ℤ◌
release-try_reserve k n b small fits h =
    ground (arith, wrap64_id (k.tokens_used +ℤ n), wrap64_id (k.tokens_used +ℤ n -ℤ n))
