-- ===== src/Ledger/Totals.antt =====
-- What a request adds to the totals of internal/ledger/ledger.go, and to whose.
use Prim.Native.String.{count}
use text.Mathlib.TextLemmas.{append_inj}
use stream_guard.Prelude.{
  ℕ, ℤ, pos, add64, add64_assoc, add64_swap, add64_zero_between, add64_zero_after, Bool, true,
  false, [], ◌∷◌, none, String, ◌==◌, eq_iff, Dict, lookup, insert, if◌then◌else◌, ◌≡◌, refl, sym,
  ap, ◌∙◌, All, arith, Bool-cases, inl, inr,
}
use stream_guard.Ledger.{
  Entry, Store, Summary, entry_key, or_new, get, bill, billable, record_in, summarise, summary,
  absorb, empty_summary,
}

-- The sum of a field over the entries of one key, in the order of the loop.
sum_from : (Entry → ℤ) → ℤ → String → Dict Entry → ℤ
sum_from f out h [] = out
sum_from f out h ((k, e) ∷ es) =
    sum_from f (if e.api_key_hash == h then add64 out (f e) else out) h es

summarise_sums :
    (h : String) (es : Dict Entry) (out : Summary)
    → ((summarise h es out).tokens_billed ≡ sum_from (λ e. e.tokens_billed) out.tokens_billed h es)
      × ((summarise h es out).truncated_requests
          ≡ sum_from (λ e. e.truncated_requests) out.truncated_requests h es)
unfolding summarise sum_from
summarise_sums h [] out = (refl, refl)
summarise_sums h ((k, e) ∷ es) out =
    ground (arith, summarise_sums h es (absorb e out), summarise_sums h es out)

-- Every entry stands under the key of its own fields, and hashes have one length.
abbrev pub IsKeyed : ℕ → Dict Entry → Type 0
IsKeyed n =
    All λ r. (r.0 ≡ entry_key r.1.api_key_hash r.1.billing_period) × (count r.1.api_key_hash ≡ n)

entry_key_hash :
    (h p h' p' : String) → entry_key h p ≡ entry_key h' p' → count h ≡ count h' → h ≡ h'
entry_key_hash h p h' p' e c = (append_inj e c).0

sum_from-add :
    (f : Entry → ℤ) (out t : ℤ) (h : String) (es : Dict Entry)
    → sum_from f (add64 out t) h es ≡ add64 (sum_from f out h es) t
unfolding sum_from
sum_from-add f out t h [] = refl
sum_from-add f out t h ((k, e) ∷ es) = elim (Bool-cases (e.api_key_hash == h)) [
  | inl mine ↦ rw (mine, add64_swap out t (f e)) (sum_from-add f (add64 out (f e)) t h es)
  | inr other ↦ rw other (sum_from-add f out t h es)
]

sum_from-hit :
    (f : Entry → ℤ) (t out : ℤ) (h h' : String) (e v : Entry) (es : Dict Entry)
    → e.api_key_hash ≡ h
    → v.api_key_hash ≡ h
    → ((x : ℤ) → add64 x (f e) ≡ add64 (add64 x (f v)) t)
    → sum_from f (if e.api_key_hash == h' then add64 out (f e) else out) h' es ≡ (
        if h == h'
        then add64 (sum_from f (if v.api_key_hash == h' then add64 out (f v) else out) h' es) t
        else sum_from f (if v.api_key_hash == h' then add64 out (f v) else out) h' es)
sum_from-hit f t out h h' e v es own same raised =
    rw (ap (λ x. x == h') own, ap (λ x. x == h') same)
      (elim (Bool-cases (h == h')) [
        | inl mine ↦ rw (mine, raised out) (sum_from-add f (add64 out (f v)) t h' es)
        | inr other ↦ rw other
      ])

-- What a write of the entry of `h` and `p` does to the sum of a field that it raises by `t`.
sum_from-insert :
    (n : ℕ) (f : Entry → ℤ) (t out : ℤ) (h p h' : String) (e : Entry) (es : Dict Entry)
    → count h ≡ n
    → IsKeyed n es
    → f (or_new h p none) ≡ pos 0
    → e.api_key_hash ≡ h
    → ((x : ℤ) → add64 x (f e) ≡ add64 (add64 x (f (or_new h p (lookup (entry_key h p) es)))) t)
    → sum_from f out h' (insert (entry_key h p) e es)
      ≡ (if h == h' then add64 (sum_from f out h' es) t else sum_from f out h' es)
unfolding sum_from lookup insert
sum_from-insert n f t out h p h' e [] c keyed zero own raised =
    rw (ap (λ x. x == h') own, raised out, zero)
      (elim (Bool-cases (h == h')) [
        | inl mine ↦ rw mine (add64_zero_between out t)
        | inr other ↦ rw other
      ])
sum_from-insert n f t out h p h' e ((k, v) ∷ es) c keyed zero own raised =
    elim (Bool-cases (k == entry_key h p)) [
      | inl hit ↦
          let same : v.api_key_hash ≡ h =
            entry_key_hash v.api_key_hash v.billing_period h p
              (sym keyed.0.0 ∙ (eq_iff k (entry_key h p)).0 hit) (keyed.0.1 ∙ sym c) in
          rw hit (sum_from-hit f t out h h' e v es own same (rw hit at raised))
      | inr miss ↦ rw miss (
          sum_from-insert n f t (if v.api_key_hash == h' then add64 out (f v) else out) h p h' e es
            c keyed.1 zero own (rw miss at raised))
    ]

-- What `getLocked` finds is an entry of the hash that was asked for.
get_own :
    (n : ℕ) (h p : String) (es : Dict Entry)
    → count h ≡ n
    → IsKeyed n es
    → ((or_new h p (lookup (entry_key h p) es)).api_key_hash ≡ h)
      × (entry_key h (or_new h p (lookup (entry_key h p) es)).billing_period ≡ entry_key h p)
unfolding lookup
get_own n h p [] c keyed = (refl, refl)
get_own n h p ((k, v) ∷ es) c keyed = elim (Bool-cases (k == entry_key h p)) [
  | inl hit ↦
      let e = (eq_iff k (entry_key h p)).0 hit in
      let same : v.api_key_hash ≡ h =
        entry_key_hash v.api_key_hash v.billing_period h p (sym keyed.0.0 ∙ e)
          (keyed.0.1 ∙ sym c) in
      rw hit (same, ap (λ x. entry_key x v.billing_period) (sym same) ∙ sym keyed.0.0 ∙ e)
  | inr miss ↦ rw miss (get_own n h p es c keyed.1)
]

insert-IsKeyed :
    (n : ℕ) (k : String) (e : Entry) (es : Dict Entry)
    → k ≡ entry_key e.api_key_hash e.billing_period
    → count e.api_key_hash ≡ n
    → IsKeyed n es
    → IsKeyed n (insert k e es)
unfolding insert
insert-IsKeyed n k e [] own c keyed = ((own, c), tt)
insert-IsKeyed n k e ((j, v) ∷ es) own c keyed = elim (Bool-cases (j == k)) [
  | inl hit ↦ rw hit ((own, c), keyed.1)
  | inr miss ↦ rw miss (keyed.0, insert-IsKeyed n k e es own c keyed.1)
]

-- If every entry stands under the key of its own fields and all hashes have length `n`, a billed
-- request of such a hash keeps that.
pub record_in-IsKeyed :
    (n : ℕ) (h provider p : String) (tokens : ℤ) (truncated : Bool) (s : Store)
    → count h ≡ n
    → IsKeyed n s.entries
    → IsKeyed n (record_in h provider p tokens truncated s).entries
unfolding record_in get bill
record_in-IsKeyed n h provider p tokens truncated s c keyed =
    let (own, key) = get_own n h p s.entries c keyed in
    let e = bill provider (billable tokens) truncated (get h p s) in
    insert-IsKeyed n (entry_key h p) e s.entries
      (sym key ∙ ap (λ x. entry_key x e.billing_period) (sym own)) (ap count own ∙ c) keyed

-- What a request adds to the truncated ones.
abbrev pub cut : Bool → ℤ
cut true = pos 1
cut false = pos 0

bill_tokens :
    (provider : String) (tokens : ℤ) (truncated : Bool) (e : Entry) (x : ℤ)
    → add64 x (bill provider tokens truncated e).tokens_billed
      ≡ add64 (add64 x e.tokens_billed) tokens
unfolding bill
bill_tokens provider tokens truncated e x = sym (add64_assoc x e.tokens_billed tokens)

bill_truncated :
    (provider : String) (tokens : ℤ) (truncated : Bool) (e : Entry) (x : ℤ)
    → add64 x (bill provider tokens truncated e).truncated_requests
      ≡ add64 (add64 x e.truncated_requests) (cut truncated)
unfolding bill
bill_truncated provider tokens true e x = sym (add64_assoc x e.truncated_requests (pos 1))
bill_truncated provider tokens false e x = sym (add64_zero_after x e.truncated_requests)

-- If every entry stands under the key of its own fields and all hashes have length `n`, a finished
-- request adds its tokens, none if negative, and one truncation if it was cut, to the totals of its
-- own key, whatever the period; those totals of every other key stay.
pub summary-record_in :
    (n : ℕ) (h provider p h' redacted : String) (tokens : ℤ) (truncated : Bool) (s : Store)
    → count h ≡ n
    → IsKeyed n s.entries
    → let before = summary h' redacted s in
      let after = summary h' redacted (record_in h provider p tokens truncated s) in
      (after.tokens_billed
        ≡ (if h == h' then add64 before.tokens_billed (billable tokens) else before.tokens_billed))
      × (after.truncated_requests ≡ (
          if h == h'
          then add64 before.truncated_requests (cut truncated)
          else before.truncated_requests))
unfolding summary record_in
summary-record_in n h provider p h' redacted tokens truncated s c keyed =
    let e = bill provider (billable tokens) truncated (get h p s) in
    let (own, key) = get_own n h p s.entries c keyed in
    let (b, b') = summarise_sums h' s.entries (empty_summary redacted) in
    let (a, a') = summarise_sums h' (insert (entry_key h p) e s.entries) (empty_summary redacted) in
    rw (b, b', a, a')
      (
        sum_from-insert n (λ e. e.tokens_billed) (billable tokens) (pos 0) h p h' e s.entries c
            keyed refl own (bill_tokens provider (billable tokens) truncated (get h p s)),
        sum_from-insert n (λ e. e.truncated_requests) (cut truncated) (pos 0) h p h' e s.entries c
            keyed refl own (bill_truncated provider (billable tokens) truncated (get h p s)),
      )
