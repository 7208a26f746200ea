-- ===== src/Auth/KeysFile/Unused.antt =====
-- What every key that `LoadKeysFile` of internal/auth/auth.go adds is like.
use stream_guard.Prelude.{
  ℤ, pos, ◌≤ℤ◌, Bool, true, false, List, [], ◌∷◌, Option, none, some, String, ◌==◌, Dict, insert,
  ltb_ℤ, All, ◌≡◌, ◌≢◌, refl, arith, Bool-cases, inl, inr,
}
use stream_guard.Text.{Bytes, is_empty}
use stream_guard.Budget.{ApiKeyRecord}
use stream_guard.Auth.{Store, Added, refused, stored, new_record, add}
use stream_guard.Auth.KeysFile.{
  Parsers, Pending, Outcome, going, failed, and_then, cleared, read_line, after_add, flush,
  set_field, set_pair, read_lines, finish, load_keys_file,
}

-- A key with nothing used, a budget that is not negative, and a provider to go to.
pub record IsUnused (k : ApiKeyRecord) : Type 0 where
  pub unused : k.tokens_used ≡ pos 0
  pub nonneg : pos 0 ≤ℤ k.token_budget
  pub allowed : k.provider_allowlist ≢ []

abbrev pub AreUnused : Store → Type 0
AreUnused s = All (λ r. IsUnused r.1) s.by_hash

All-insert {κ} :
    (P : ApiKeyRecord → Type κ) (k : String) (v : ApiKeyRecord) (m : Dict ApiKeyRecord)
    → P v
    → All (λ r. P r.1) m
    → All (λ r. P r.1) (insert k v m)
unfolding insert
All-insert P k v [] new old = (new, tt)
All-insert P k v ((j, w) ∷ m) new old = elim (Bool-cases (j == k)) [
  | inl e ↦ rw e (new, old.1)
  | inr e ↦ rw e (old.0, All-insert P k v m new old.1)
]

abbrev AreUnusedAdded : Added → Type 0
AreUnusedAdded (refused e) = Unit
AreUnusedAdded (stored s) = AreUnused s

abbrev pub AreUnusedOutcome : Outcome → Type 0
AreUnusedOutcome (going p) = AreUnused p.store
AreUnusedOutcome (failed s) = AreUnused s

module _ (hash : String → String) where
  add-AreUnused :
      (raw : String) (allowlist : List String) (token_budget period now : ℤ) (s : Store)
      → AreUnused s
      → AreUnusedAdded (add hash raw allowlist token_budget period now s)
  unfolding add new_record
  add-AreUnused raw [] token_budget period now s v = elim (Bool-cases (raw == "")) [
    | inl e ↦ rw e tt
    | inr e ↦ rw e tt
  ]
  add-AreUnused raw (x ∷ xs) token_budget period now s v = elim (Bool-cases (raw == "")) [
    | inl e ↦ rw e tt
    | inr e ↦ elim (Bool-cases (ltb_ℤ token_budget (pos 0))) [
      | inl below ↦ rw (e, below) tt
      | inr enough ↦
          let nonneg : pos 0 ≤ℤ token_budget = ground (arith, enough) in
          rw (e, enough)
            (All-insert IsUnused (hash raw) (new_record hash raw (x ∷ xs) token_budget period now s)
              s.by_hash (record { unused = refl; nonneg = nonneg; allowed = λ none_left. cc }) v)
    ]
  ]

module _ (parse : Parsers) (hash : String → String) (now : ℤ) where
  after_add-AreUnused :
      (s : Store) (a : Added)
      → AreUnused s
      → AreUnusedAdded a
      → AreUnusedOutcome (after_add parse hash now s a)
  after_add-AreUnused s (refused e) v w = v
  after_add-AreUnused s (stored s') v w = w

  flush-AreUnused : (p : Pending) → AreUnused p.store → AreUnusedOutcome (flush parse hash now p)
  unfolding flush
  flush-AreUnused p v = elim (Bool-cases (is_empty p.raw)) [
    | inl e ↦ rw e v
    | inr e ↦ rw e (
        after_add-AreUnused p.store _ v
          (add-AreUnused hash (parse.text p.raw) p.allowlist p.token_budget p.period now p.store v))
  ]

  and_then-AreUnused :
      (out : Outcome) (f : Pending → Outcome)
      → AreUnusedOutcome out
      → ((p : Pending) → AreUnused p.store → AreUnusedOutcome (f p))
      → AreUnusedOutcome (and_then out f)
  and_then-AreUnused (going p) f v next = next p v
  and_then-AreUnused (failed s) f v next = v

  set_field-AreUnused :
      (key val : Bytes) (p : Pending)
      → AreUnused p.store
      → AreUnusedOutcome (set_field parse hash now key val p)
  unfolding set_field
  set_field-AreUnused key val p v = ground (arith, flush-AreUnused p v)

  set_pair-AreUnused :
      (o : Option (Bytes × Bytes)) (p : Pending)
      → AreUnused p.store
      → AreUnusedOutcome (set_pair parse hash now o p)
  set_pair-AreUnused none p v = v
  set_pair-AreUnused (some (key, val)) p v = set_field-AreUnused key val p v

  read_lines-AreUnused :
      (lines : List Bytes) (p : Pending)
      → AreUnused p.store
      → AreUnusedOutcome (read_lines parse hash now lines p)
  unfolding read_lines
  read_lines-AreUnused [] p v = v
  read_lines-AreUnused (line ∷ lines) p v =
      and_then-AreUnused _ (read_lines parse hash now lines)
        (set_pair-AreUnused (read_line line) p v) (read_lines-AreUnused lines)

  finish-AreUnused :
      (scan_error : Bool) (p : Pending)
      → AreUnused p.store
      → AreUnusedOutcome (finish parse hash now scan_error p)
  finish-AreUnused true p v = v
  finish-AreUnused false p v = flush-AreUnused p v

  -- Whatever the file holds, the keys that it adds are unused, with a budget that is not negative and
  -- a provider to go to, if the keys before it are.
  pub load_keys_file-AreUnused :
      (lines : List Bytes) (scan_error : Bool) (s : Store)
      → AreUnused s
      → AreUnusedOutcome (load_keys_file parse hash now lines scan_error s)
  unfolding load_keys_file
  load_keys_file-AreUnused lines scan_error s v =
      and_then-AreUnused _ (finish parse hash now scan_error)
        (read_lines-AreUnused lines (cleared s) v) (finish-AreUnused scan_error)
