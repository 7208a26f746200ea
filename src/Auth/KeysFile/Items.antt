-- ===== src/Auth/KeysFile/Items.antt =====
-- What the keys file of internal/auth/auth.go adds to the store.
use stream_guard.Prelude.{
  ℤ, pos, false, List, [], ◌∷◌, ◌++◌, Option, none, some, String, ◌≡◌, ◌≢◌, refl, ap, ◌∙◌,
  Option-cases, inl, inr, All,
}
use stream_guard.Text.{Bytes, codes, eq_bytes, is_empty, trim_space}
use stream_guard.Auth.{Store, Added, refused, stored, add}
use stream_guard.Auth.KeysFile.{
  Parsers, Pending, Outcome, going, failed, and_then, cleared, read_line, parse_list, after_add,
  flush, set_field, read_lines, load_keys_file,
}

-- A key as the file describes it, in the order of keys.yaml.
pub record Item : Type 0 where
  pub key : Bytes
  pub provider_allowlist : Bytes
  pub token_budget : Bytes
  pub budget_period : Bytes

-- The keys and values of an item.
abbrev fields_of : Item → List (Bytes × Bytes)
fields_of i =
    (codes "key", i.key)
    ∷ (codes "provider_allowlist", i.provider_allowlist)
    ∷ (codes "token_budget", i.token_budget)
    ∷ (codes "budget_period", i.budget_period)
    ∷ []

abbrev pub fields_of_all : List Item → List (Bytes × Bytes)
fields_of_all [] = []
fields_of_all (i ∷ is) = fields_of i ++ fields_of_all is

-- The keys and values of the lines that the loop looks at.
abbrev extend : Option (Bytes × Bytes) → List (Bytes × Bytes) → List (Bytes × Bytes)
extend none ps = ps
extend (some p) ps = p ∷ ps

abbrev pub pairs_of : List Bytes → List (Bytes × Bytes)
pairs_of [] = []
pairs_of (line ∷ lines) = extend (read_line line) (pairs_of lines)

is_empty_no : (b : Bytes) → b ≢ [] → is_empty b ≡ false
is_empty_no [] h = absurd (h refl)
is_empty_no (x ∷ xs) h = refl

and_then_agree :
    {f g : Pending → Outcome} (out : Outcome)
    → ((p : Pending) → f p ≡ g p)
    → and_then out f ≡ and_then out g
and_then_agree (going p) e = e p
and_then_agree (failed s) e = refl

module _ (parse : Parsers) (hash : String → String) (now : ℤ) where
  abbrev set_pairs : List (Bytes × Bytes) → Pending → Outcome
  set_pairs [] p = going p
  set_pairs ((key, val) ∷ ps) p = and_then (set_field parse hash now key val p) (set_pairs ps)

  read_lines-pairs :
      (lines : List Bytes) (p : Pending)
      → read_lines parse hash now lines p ≡ set_pairs (pairs_of lines) p
  unfolding read_lines
  read_lines-pairs [] p = refl
  read_lines-pairs (line ∷ lines) p = elim (Option-cases (read_line line)) [
    | inl e ↦ rw e (read_lines-pairs lines p)
    | inr ((key, val), e) ↦
        rw e (and_then_agree (set_field parse hash now key val p) (read_lines-pairs lines))
  ]

  -- The keys added one after another, until the first that the store refuses.
  pub data Budgeted (i : Item) : Type 0 where
    budgeted :
        (n d : ℤ)
        → i.key ≢ []
        → parse.parse_int (trim_space i.token_budget) ≡ some n
        → parse.parse_duration i.budget_period ≡ some d
        → Budgeted i

  abbrev or_zero : Option ℤ → ℤ
  or_zero none = pos 0
  or_zero (some n) = n

  abbrev add_item : Item → Store → Added
  add_item i s =
      add hash (parse.text i.key) (parse_list parse i.provider_allowlist)
        (or_zero (parse.parse_int (trim_space i.token_budget)))
        (or_zero (parse.parse_duration i.budget_period)) now s

  abbrev and_add : Store → Added → (Store → Outcome) → Outcome
  and_add s (refused e) f = failed s
  and_add s (stored s') f = f s'

  abbrev pub add_all : List Item → Store → Outcome
  add_all [] s = going (cleared s)
  add_all (i ∷ is) s = and_add s (add_item i s) (add_all is)

  -- The variables when an item has been read.
  abbrev hold : Item → Store → Pending
  hold i s = record {
    raw = i.key;
    allowlist = parse_list parse i.provider_allowlist;
    token_budget = or_zero (parse.parse_int (trim_space i.token_budget));
    period = or_zero (parse.parse_duration i.budget_period);
    store = s;
  }

  flush-hold :
      (i : Item) (s : Store)
      → i.key ≢ []
      → flush parse hash now (hold i s) ≡ after_add parse hash now s (add_item i s)
  unfolding flush
  flush-hold i s named = rw (is_empty_no i.key named) refl

  -- The fields of an item after those of another.
  read_item :
      (i : Item) (s s' : Store) (p : Pending) (ps : List (Bytes × Bytes))
      → Budgeted i
      → flush parse hash now p ≡ going (cleared s')
      → set_pairs (fields_of i ++ ps) p ≡ set_pairs ps (hold i s')
  unfolding set_field eq_bytes
  read_item i s s' p ps (budgeted n d named b e) flushed = rw (flushed, b, e) refl

  -- The fields of an item after those of one that the store refuses.
  read_refused :
      (i : Item) (s : Store) (p : Pending) (ps : List (Bytes × Bytes))
      → flush parse hash now p ≡ failed s
      → set_pairs (fields_of i ++ ps) p ≡ failed s
  unfolding set_field eq_bytes
  read_refused i s p ps flushed = rw flushed refl

  -- An item that has been read is added when the next one begins.
  held_step :
      (i j : Item) (js : List Item) (s : Store) (a : Added)
      → All Budgeted (i ∷ j ∷ js)
      → add_item i s ≡ a
      → ((s' : Store)
          → and_then (set_pairs (fields_of_all js) (hold j s')) (flush parse hash now)
            ≡ add_all (j ∷ js) s')
      → and_then (set_pairs (fields_of_all (j ∷ js)) (hold i s)) (flush parse hash now)
        ≡ and_add s a (add_all (j ∷ js))
  held_step i j js s (refused x) (budgeted n d named b e, others) same later =
      let out = flush-hold i s named ∙ ap (after_add parse hash now s) same in
      ap (λ o. and_then o (flush parse hash now))
        (read_refused j s (hold i s) (fields_of_all js) out)
  held_step i j js s (stored s') (budgeted n d named b e, others) same later =
      let out = flush-hold i s named ∙ ap (after_add parse hash now s) same in
      ap (λ o. and_then o (flush parse hash now))
        (read_item j s s' (hold i s) (fields_of_all js) others.0 out)
      ∙ later s'

  read_held :
      (i : Item) (is : List Item) (s : Store)
      → All Budgeted (i ∷ is)
      → and_then (set_pairs (fields_of_all is) (hold i s)) (flush parse hash now)
        ≡ add_all (i ∷ is) s
  read_held i [] s (budgeted n d named b e, others) = flush-hold i s named ∙ flushed (add_item i s)
    where
      flushed : (a : Added) → after_add parse hash now s a ≡ and_add s a (add_all [])
      flushed (refused e) = refl
      flushed (stored s') = refl
  read_held i (j ∷ js) s good =
      held_step i j js s (add_item i s) good refl (λ s'. read_held j js s' good.1)

  read_items :
      (items : List Item) (s : Store)
      → All Budgeted items
      → and_then (set_pairs (fields_of_all items) (cleared s)) (flush parse hash now)
        ≡ add_all items s
  unfolding flush
  read_items [] s good = refl
  read_items (i ∷ is) s good =
      ap (λ o. and_then o (flush parse hash now))
        (read_item i s s (cleared s) (fields_of_all is) good.0 refl)
      ∙ read_held i is s good

  -- Let the lines of a keys file that is read to its end, but for blank lines, comments and `keys:`, give
  -- items one after another, each with its key first, then its providers, its budget and its period, the
  -- latter two in a form that is read. Then the load adds just those keys, in order, and stops at the
  -- first that the store refuses, with the earlier ones added.
  pub load_keys_file_items :
      (lines : List Bytes) (items : List Item) (s : Store)
      → pairs_of lines ≡ fields_of_all items
      → All Budgeted items
      → load_keys_file parse hash now lines false s ≡ add_all items s
  unfolding load_keys_file
  load_keys_file_items lines items s same good =
      ap (λ o. and_then o (flush parse hash now))
        (read_lines-pairs lines (cleared s) ∙ ap (λ ps. set_pairs ps (cleared s)) same)
      ∙ read_items items s good

  -- In the keys file a budget that stands before the key of its item is taken as the budget of the item
  -- before: it is as if that item had it, whatever comes after.
  misplaced_budget :
      (i : Item) (budget : Bytes) (m : ℤ) (rest : List (Bytes × Bytes)) (p : Pending) (s : Store)
      → Budgeted i
      → flush parse hash now p ≡ going (cleared s)
      → parse.parse_int (trim_space budget) ≡ some m
      → set_pairs (fields_of i ++ (codes "token_budget", budget) ∷ rest) p
        ≡ set_pairs (fields_of (record i { token_budget = budget }) ++ rest) p
  unfolding set_field eq_bytes
  misplaced_budget i budget m rest p s (budgeted n d named b e) flushed h =
      rw (flushed, b, e, h) refl
