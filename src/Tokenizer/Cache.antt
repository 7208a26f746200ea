-- ===== src/Tokenizer/Cache.antt =====
-- The cache of encodings of internal/tokenizer/tokenizer.go changes no count.
use stream_guard.Prelude.{
  ℕ, List, [], ◌∷◌, some, String, if◌then◌else◌, ◌≡◌, ◌↔◌, inl, inr, refl, sym, ap, ◌∙◌, arith,
  Bool-cases, Option-cases,
}
use stream_guard.Text.{Bytes, eq_bytes, is_empty}
use stream_guard.Text.Laws.{eq_bytes_iff}
use stream_guard.Tokenizer.{
  count_chunks, Encoding, Library, Encodings, cached, model_key, load, encoding_for_model,
  count_with, count_openai, is_openai, count,
}

-- A count that is asked for.
pub record Call : Type 0 where
  pub provider : String
  pub model : Bytes
  pub hint : Bytes
  pub text : Bytes

-- The counts that a sequence of calls gets, through the cache.
unfoldable pub counts : Library → List Call → Encodings → List ℕ
counts lib [] cache = []
counts lib (c ∷ cs) cache =
    let (cache', n) = count lib c.provider c.model c.hint c.text cache in n ∷ counts lib cs cache'

-- The count with no cache: a hint of the mock providers, or a provider not of OpenAI, counts words,
-- and so does a model with no encoding.
unfoldable pub plain_count : Library → Call → ℕ
plain_count lib c =
    if is_openai c.provider c.hint
    then if is_empty c.text then 0 else count_with (load lib (model_key c.model)) c.text
    else count_chunks c.text

abbrev pub plain_counts : Library → List Call → List ℕ
plain_counts lib [] = []
plain_counts lib (c ∷ cs) = plain_count lib c ∷ plain_counts lib cs

-- What the cache holds is what the library finds.
abbrev IsOf : Library → Encodings → Type 0
IsOf lib cache =
    (key : Bytes) (enc : Encoding) → cached key cache ≡ some enc → load lib key ≡ some enc

remembered :
    (lib : Library) (k key : Bytes) (enc enc' : Encoding) (cache : Encodings)
    → IsOf lib cache
    → load lib k ≡ some enc
    → cached key ((k, enc) ∷ cache) ≡ some enc'
    → load lib key ≡ some enc'
unfolding cached
remembered lib k key enc enc' cache v found h = elim (Bool-cases (eq_bytes k key)) [
  | inl e ↦ rw (← (eq_bytes_iff k key).0 e) (found ∙ rw e at h)
  | inr e ↦ v key enc' (rw e at h)
]

encoding_for_model_facts :
    (lib : Library) (model : Bytes) (cache : Encodings)
    → IsOf lib cache
    → ((encoding_for_model lib model cache).1 ≡ load lib (model_key model))
      × IsOf lib (encoding_for_model lib model cache).0
unfolding encoding_for_model
encoding_for_model_facts lib model cache v = elim (Option-cases (cached (model_key model) cache)) [
  | inr (enc, e) ↦ rw (e, encoding_for_model) (sym (v (model_key model) enc e), v)
  | inl miss ↦ elim (Option-cases (load lib (model_key model))) [
    | inl none_found ↦ rw (miss, none_found) (refl, v)
    | inr (enc, found) ↦
        rw (miss, found)
          (refl, λ key enc' h. remembered lib (model_key model) key enc enc' cache v found h)
  ]
]

count_facts :
    (lib : Library) (c : Call) (cache : Encodings)
    → IsOf lib cache
    → ((count lib c.provider c.model c.hint c.text cache).1 ≡ plain_count lib c)
      × IsOf lib (count lib c.provider c.model c.hint c.text cache).0
unfolding count count_openai plain_count
count_facts lib c cache v =
    let (e, v') = encoding_for_model_facts lib c.model cache v in
    elim (Bool-cases (is_openai c.provider c.hint)) [
      | inr other ↦ rw other (refl, v)
      | inl asked ↦ elim (Bool-cases (is_empty c.text)) [
        | inl nothing ↦ rw (asked, nothing) (refl, v)
        | inr some_text ↦ rw (asked, some_text) (ap (λ enc. count_with enc c.text) e, v')
      ]
    ]

counts_lem :
    (lib : Library) (cs : List Call) (cache : Encodings)
    → IsOf lib cache
    → counts lib cs cache ≡ plain_counts lib cs
unfolding counts
counts_lem lib [] cache v = refl
counts_lem lib (c ∷ cs) cache v =
    let (e, v') = count_facts lib c cache v in rw (e, counts_lem lib cs _ v') refl

-- While the library gives the same answers, any sequence of counts, for any providers, models and
-- hints, gets from an empty cache on the counts that it would get with no cache.
counts-plain : (lib : Library) (cs : List Call) → counts lib cs [] ≡ plain_counts lib cs
unfolding cached
counts-plain lib cs = counts_lem lib cs [] (λ key enc h. cc)

-- A text has no tokens for the word counter exactly if it is empty; white space alone is one.
count_chunks-zero_iff : (text : Bytes) → (count_chunks text ≡ 0) ↔ (text ≡ [])
unfolding count_chunks
count_chunks-zero_iff [] = ground arith
count_chunks-zero_iff (b ∷ bs) = ground arith
