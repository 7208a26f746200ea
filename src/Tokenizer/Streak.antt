-- ===== src/Tokenizer/Streak.antt =====
-- When the registry of internal/tokenizer/tokenizer.go suspects a tokenizer.
use stream_guard.Prelude.{
  ℕ, suc, Bool, true, false, List, [], ◌∷◌, Option, none, some, String, ◌==◌, eq_iff, eq_refl,
  lookup, insert, lookup-insert, leb, if◌then◌else◌, ◌≡◌, refl, arith, Bool-cases, inl, inr, ap,
}
use stream_guard.Tokenizer.{Entry, Registry, or_unknown, tally, register_known, observe, snapshot}

-- Observations of any providers, the last one first.
abbrev pub History : Type 0
History = List (String × Bool)

unfoldable pub observe_all : History → Registry → Registry
observe_all [] r = r
observe_all ((provider, above) ∷ older) r = (observe provider above (observe_all older r)).0

-- How many of a provider's observations, back from its last, were above the threshold.
unfoldable pub streak : String → History → ℕ
streak provider [] = 0
streak provider ((p, above) ∷ older) =
    let rest = streak provider older in
    if p == provider then if above then suc rest else 0 else rest

abbrev count_of : Option Entry → ℕ
count_of none = 0
count_of (some e) = e.consecutive_above_threshold

-- No provider has been observed yet.
abbrev pub IsFresh : Registry → Type 0
IsFresh r = (provider : String) → count_of (snapshot provider r) ≡ 0

count_of-tally :
    (provider : String) (above : Bool) (o : Option Entry)
    → (tally above (or_unknown provider o)).consecutive_above_threshold
      ≡ (if above then suc (count_of o) else 0)
count_of-tally provider true none = refl
count_of-tally provider true (some e) = omega arith
count_of-tally provider false o = refl

count_of-observe :
    (p provider : String) (above : Bool) (r : Registry)
    → count_of (snapshot provider (observe p above r).0) ≡ (
        if p == provider
        then if above then suc (count_of (snapshot provider r)) else 0
        else count_of (snapshot provider r))
unfolding observe snapshot
count_of-observe p provider above r =
    rw (lookup-insert p provider (tally above (or_unknown p (lookup p r))) r)
      (elim (Bool-cases (p == provider)) [
        | inl e ↦
            rw (e, ap (λ k. lookup k r) ((eq_iff p provider).0 e))
              (count_of-tally p above (lookup provider r))
        | inr e ↦ rw e refl
      ])

-- The registry counts the streak of every provider.
count_of-streak :
    (h : History) (r : Registry) (provider : String)
    → IsFresh r
    → count_of (snapshot provider (observe_all h r)) ≡ streak provider h
unfolding observe_all streak
count_of-streak [] r provider fresh = fresh provider
count_of-streak ((p, above) ∷ older) r provider fresh =
    rw
      (
        count_of-observe p provider above (observe_all older r),
        count_of-streak older r provider fresh,
      )
      refl

register_known-IsFresh : IsFresh (register_known [])
unfolding register_known snapshot lookup insert
register_known-IsFresh provider = ground arith

-- From the registry as the server starts it, an observation makes its provider suspected exactly if
-- it is the last of at least three in a row above the threshold, whatever was observed of the others.
pub observe-streak :
    (h : History) (provider : String) (above : Bool)
    → (observe provider above (observe_all h (register_known []))).1
      ≡ leb 3 (streak provider ((provider, above) ∷ h))
unfolding observe streak snapshot
observe-streak h provider above =
    let e = count_of-tally provider above (lookup provider (observe_all h (register_known []))) in
    let c = count_of-streak h (register_known []) provider register_known-IsFresh in
    rw (e, eq_refl provider) (rw c refl)
