-- ===== src/Ledger/Order.antt =====
-- The order in which `Summary` of internal/ledger/ledger.go reads the map of entries. Go gives no order;
-- a map is known by what it holds under each key.
use stream_guard.Prelude.{
  ℤ, Bool, [], ◌∷◌, Option, none, some, String, ◌==◌, eq_iff, Dict, lookup, insert, delete,
  lookup-insert, lookup-delete, add64_swap, if◌then◌else◌, ◌≡◌, refl, sym, ◌∙◌, arith, Bool-cases,
  inl, inr, eq_refl, ap,
}
use stream_guard.Ledger.{
  Entry, Store, Summary, absorb, latest, summarise, summary, empty_summary, record_in,
  upsert_reconciliation,
}

-- No key stands twice.
abbrev IsMap : Dict Entry → Type 0
IsMap [] = Unit
IsMap ((k, e) ∷ es) = (lookup k es ≡ none) × IsMap es

latest_swap : (o a b : Option ℤ) → latest (latest o a) b ≡ latest (latest o b) a
latest_swap o a b = ground arith

-- What one round of the loop does.
abbrev add_entry : String → Entry → Summary → Summary
add_entry h e out = if e.api_key_hash == h then absorb e out else out

add_entry_swap :
    (h : String) (e f : Entry) (out : Summary)
    → add_entry h e (add_entry h f out) ≡ add_entry h f (add_entry h e out)
add_entry_swap h e f out = ground (
  arith,
  add64_swap out.tokens_billed e.tokens_billed f.tokens_billed,
  add64_swap out.truncated_requests e.truncated_requests f.truncated_requests,
  latest_swap out.last_reconciled_at e.last_reconciled_at f.last_reconciled_at,
)

delete_absent : (k : String) (es : Dict Entry) → lookup k es ≡ none → delete k es ≡ es
unfolding lookup delete
delete_absent k [] e = refl
delete_absent k ((j, f) ∷ es) e = ground (arith, delete_absent k es)

delete-IsMap : (k : String) (es : Dict Entry) → IsMap es → IsMap (delete k es)
unfolding delete
delete-IsMap k [] m = m
delete-IsMap k ((j, f) ∷ es) m = ground (arith, delete-IsMap k es m.1, lookup-delete k j es, m.0)

summarise-delete :
    (h k : String) (e : Entry) (es : Dict Entry) (out : Summary)
    → IsMap es
    → lookup k es ≡ some e
    → summarise h es out ≡ summarise h (delete k es) (add_entry h e out)
unfolding summarise lookup delete
summarise-delete h k e [] out m found = ground arith
summarise-delete h k e ((j, f) ∷ es) out m found = elim (Bool-cases (j == k)) [
  | inl hit ↦
      let gone = delete_absent k es (ap (λ x. lookup x es) (sym ((eq_iff j k).0 hit)) ∙ m.0) in
      let same : some f ≡ some e = rw hit at found in let own : f ≡ e = cc in rw (hit, gone, own)
  | inr miss ↦ rw miss (
      summarise-delete h k e es (add_entry h f out) m.1 (rw miss at found)
      ∙ ap (summarise h (delete k es)) (add_entry_swap h e f out))
]

summarise_same :
    (h : String) (es es' : Dict Entry) (out : Summary)
    → IsMap es
    → IsMap es'
    → ((k : String) → lookup k es ≡ lookup k es')
    → summarise h es out ≡ summarise h es' out
unfolding summarise lookup
summarise_same h [] [] out m m' same = refl
summarise_same h [] ((k, e) ∷ es') out m m' same = grind (arith, same k, eq_refl k)
summarise_same h ((k, e) ∷ es) es' out m m' same =
    let found : lookup k es' ≡ some e = sym (same k) ∙ ground (arith, eq_refl k) in
    summarise_same h es (delete k es') (add_entry h e out) m.1 (delete-IsMap k es' m')
      (λ j. ground (arith, lookup-delete k j es', same j, m.0, eq_iff k j))
    ∙ sym (summarise-delete h k e es' out m' found)

insert-IsMap : (k : String) (e : Entry) (es : Dict Entry) → IsMap es → IsMap (insert k e es)
unfolding insert lookup
insert-IsMap k e [] m = (refl, tt)
insert-IsMap k e ((j, f) ∷ es) m =
    ground (arith, insert-IsMap k e es m.1, lookup-insert k j e es, m.0, eq_iff j k, eq_iff k j)

-- A new ledger is such a map, and every write keeps it one.
write-IsMap :
    (h provider period : String) (tokens at : ℤ) (cut drift_flag : Bool) (s : Store)
    → IsMap s.entries
    → IsMap (record_in h provider period tokens cut s).entries
      × IsMap (upsert_reconciliation h period at drift_flag s).entries
unfolding record_in upsert_reconciliation
write-IsMap h provider period tokens at cut drift_flag s m =
    (insert-IsMap _ _ s.entries m, insert-IsMap _ _ s.entries m)

-- What a map holds decides what `Summary` answers, whatever the order in which the map is read.
pub summary_same :
    (h redacted : String) (s s' : Store)
    → IsMap s.entries
    → IsMap s'.entries
    → ((k : String) → lookup k s.entries ≡ lookup k s'.entries)
    → summary h redacted s ≡ summary h redacted s'
unfolding summary
summary_same h redacted s s' m m' same =
    summarise_same h s.entries s'.entries (empty_summary redacted) m m' same
