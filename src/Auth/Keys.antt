-- ===== src/Auth/Keys.antt =====
-- What the store of internal/auth/auth.go finds after `Add` and after `ResetExpired`.
use stream_guard.Prelude.{
  ℕ, ℤ, pos, ◌+ℤ◌, ◌≤ℤ◌, ◌↔◌, +ℤ_parts, true, List, [], ◌∷◌, some, String, ◌==◌, eq_iff, Dict,
  lookup, lookup-insert, ◌||◌, if◌then◌else◌, ◌≡◌, ◌≢◌, refl, ap, arith, Bool-cases, inl, inr,
  ltb_ℤ, leb_ℤ, eqb_ℤ,
}
use mathlib.Core.Option
use stream_guard.Budget.{ApiKeyRecord}
use stream_guard.Auth.{
  Store, stored, refused, empty_key, empty_allowlist, negative_budget, is_nil, new_record, add,
  lookup_raw, is_kept, reset_record, reset_all, reset_expired, lookup_hash,
}

-- What `add` refuses, in the order of its checks.
abbrev pub IsAcceptable : String → List String → ℤ → Type 0
IsAcceptable raw allowlist token_budget = (raw ≢ "") × (allowlist ≢ []) × (pos 0 ≤ℤ token_budget)

-- The three checks, whatever is stored.
add_accepts :
    (raw : String) (allowlist : List String) (token_budget : ℤ) (s s' : Store)
    → (if raw == ""
        then refused empty_key
        else if is_nil allowlist
        then refused empty_allowlist
        else if ltb_ℤ token_budget (pos 0)
        then refused negative_budget
        else stored s)
      ≡ stored s'
    → IsAcceptable raw allowlist token_budget
add_accepts raw [] token_budget s s' e = ground (arith, eq_iff raw "")
add_accepts raw (a ∷ as_) token_budget s s' e = ground (arith, eq_iff raw "")

add_stores :
    (raw : String) (allowlist : List String) (token_budget : ℤ) (s : Store)
    → IsAcceptable raw allowlist token_budget
    → (if raw == ""
        then refused empty_key
        else if is_nil allowlist
        then refused empty_allowlist
        else if ltb_ℤ token_budget (pos 0)
        then refused negative_budget
        else stored s)
      ≡ stored s
add_stores raw [] token_budget s ok = absurd (ok.1 refl)
add_stores raw (a ∷ as_) token_budget s ok = ground (arith, eq_iff raw "")

-- `add` stores a key exactly if the raw key is not empty, a provider is allowed and the budget is not
-- negative. A lookup by a raw key of the same hash then finds a record that is unused, and has the
-- hash, the providers and the budget that were asked for, the period asked for, or the store's if
-- that is not positive, and starts it now; a lookup by any other finds what it found before.
pub lookup_raw-add :
    (hash : String → String) (raw other : String) (allowlist : List String)
    (token_budget period now : ℤ) (s : Store)
    → (((s' : Store) × (add hash raw allowlist token_budget period now s ≡ stored s'))
        ↔ IsAcceptable raw allowlist token_budget)
      × ((s' : Store)
          → add hash raw allowlist token_budget period now s ≡ stored s'
          → lookup_raw hash other s' ≡ (
              if hash raw == hash other
              then some (record {
                key_hash = hash raw;
                provider_allowlist = allowlist;
                token_budget = token_budget;
                tokens_used = pos 0;
                budget_period = if leb_ℤ period (pos 0) then s.period else period;
                budget_period_start = now;
              })
              else lookup_raw hash other s))
unfolding add lookup_raw new_record
lookup_raw-add hash raw other allowlist token_budget period now s = (
  (
    λ (s', e). add_accepts raw allowlist token_budget _ s' e,
    λ ok. (_, add_stores raw allowlist token_budget _ ok),
  ),
  λ s' e. ground (
    arith,
    lookup-insert (hash raw) (hash other) (new_record hash raw allowlist token_budget period now s)
        s.by_hash,
  ),
)

-- A record just reset is kept.
reset_record-kept : (now : ℤ) (k : ApiKeyRecord) → is_kept now (reset_record now k) ≡ true
unfolding is_kept reset_record
reset_record-kept now k = ground (arith, +ℤ_parts now k.budget_period)

reset_record-twice :
    (now : ℤ) (k : ApiKeyRecord) → reset_record now (reset_record now k) ≡ reset_record now k
unfolding reset_record
reset_record-twice now k = rw (reset_record-kept now k, reset_record) refl

reset_all-twice :
    (now : ℤ) (m : Dict ApiKeyRecord) → reset_all now (reset_all now m).0 ≡ ((reset_all now m).0, 0)
unfolding reset_all
reset_all-twice now [] = refl
reset_all-twice now ((h, k) ∷ rest) = rw (reset_all-twice now rest, reset_record-kept now k) refl

-- Resetting the expired budgets twice at one time, which is not the zero time, is resetting them
-- once: the second call changes nothing and counts none.
reset_expired-twice :
    (clock now : ℤ) (s : Store)
    → now ≢ pos 0
    → reset_expired clock now (reset_expired clock now s).0 ≡ ((reset_expired clock now s).0, 0)
unfolding reset_expired
reset_expired-twice clock now s set =
    ap (λ (r : Dict ApiKeyRecord × ℕ). (record s { by_hash = r.0 }, r.1))
      (reset_all-twice (if eqb_ℤ now (pos 0) then clock else now) s.by_hash)

lookup-reset_all :
    (now : ℤ) (h : String) (m : Dict ApiKeyRecord)
    → lookup h (reset_all now m).0 ≡ Option.map (reset_record now) (lookup h m)
unfolding reset_all lookup
lookup-reset_all now h [] = refl
lookup-reset_all now h ((j, k) ∷ rest) = elim (Bool-cases (j == h)) [
  | inl e ↦ rw e refl
  | inr e ↦ rw e (lookup-reset_all now h rest)
]

-- After a reset at a time that is not the zero time, a hash finds the record that it found before;
-- an expired one is unused and begins a new period, any other is as it was.
pub lookup_hash-reset_expired :
    (clock now : ℤ) (h : String) (s : Store)
    → now ≢ pos 0
    → lookup_hash h (reset_expired clock now s).0
      ≡ Option.map
          (λ k.
            if leb_ℤ k.budget_period (pos 0) || ltb_ℤ now (k.budget_period_start +ℤ k.budget_period)
            then k
            else record k { tokens_used = pos 0; budget_period_start = now })
          (lookup_hash h s)
unfolding reset_expired lookup_hash reset_record is_kept
lookup_hash-reset_expired clock now h s set = elim (Bool-cases (eqb_ℤ now (pos 0))) [
  | inl zero_time ↦ absurd (set (ground arith))
  | inr e ↦ rw e (lookup-reset_all now h s.by_hash)
]
