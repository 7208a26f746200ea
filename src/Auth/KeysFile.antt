-- ===== src/Auth/KeysFile.antt =====
-- The keys file: `LoadKeysFile` and `parseList` of internal/auth/auth.go. The file is its lines, as
-- `bufio.Scanner` gives them; a load takes place at one time. `Parsers` is what strconv and time read
-- from a text; `hash` is SHA-256.
pub mod Items
pub mod Unused
use stream_guard.Prelude.{
  ℤ, pos, Bool, true, false, not, ◌||◌, List, [], ◌∷◌, Option, none, some, String, map, select,
  if◌then◌else◌,
}
use stream_guard.Text.{
  Bytes, codes, eq_bytes, is_empty, split, trim_space, has_prefix, before_suffix, or_text,
  trim_prefix, trim_of, cut,
}
use stream_guard.Auth.{Store, Added, refused, stored, add}

pub record Parsers : Type 0 where
  pub text : Bytes → String
  pub parse_int : Bytes → Option ℤ
  pub parse_duration : Bytes → Option ℤ

-- The variables of the loop, with the store.
pub record Pending : Type 0 where
  pub raw : Bytes
  pub allowlist : List String
  pub token_budget : ℤ
  pub period : ℤ
  pub store : Store

-- An error leaves the store with the keys added so far.
pub data Outcome : Type 0 where
  going : Pending → Outcome
  failed : Store → Outcome

abbrev pub and_then : Outcome → (Pending → Outcome) → Outcome
and_then (going p) f = f p
and_then (failed s) f = failed s

abbrev pub cleared : Store → Pending
cleared s = record { raw = []; allowlist = []; token_budget = pos 0; period = pos 0; store = s }

-- The key and the value of a line, if the loop looks at it.
abbrev trimmed : Option (Bytes × Bytes) → Option (Bytes × Bytes)
trimmed none = none
trimmed (some (key, val)) = some (trim_space key, trim_of b'"' (trim_space val))

abbrev pair_of : Bytes → Option (Bytes × Bytes)
pair_of line =
    if is_empty line || (has_prefix (codes "#") line || eq_bytes line (codes "keys:"))
    then none
    else trimmed (cut b':' line)

unfoldable pub read_line : Bytes → Option (Bytes × Bytes)
unfolding trim_space trim_prefix trim_of cut has_prefix eq_bytes
read_line raw = pair_of (trim_prefix (codes "- ") (trim_space raw))

module _ (parse : Parsers) where
  abbrev names_of : Bytes → List String
  names_of v =
      if is_empty v
      then []
      else map parse.text (
          select (λ name. not (is_empty name))
            (map (λ piece. trim_of b'"' (trim_space piece)) (split b',' v)))

  unfoldable pub parse_list : Bytes → List String
  unfolding trim_space before_suffix trim_prefix trim_of split
  parse_list v =
      let t = trim_space v in names_of (trim_prefix (codes "[") (or_text t (before_suffix b']' t)))

  module _ (hash : String → String) (now : ℤ) where
    abbrev pub after_add : Store → Added → Outcome
    after_add s (refused e) = failed s
    after_add s (stored s') = going (cleared s')

    unfoldable pub flush : Pending → Outcome
    unfolding add
    flush p =
        if is_empty p.raw
        then going p
        else after_add p.store
            (add hash (parse.text p.raw) p.allowlist p.token_budget p.period now p.store)

    abbrev pub or_failed : Pending → (ℤ → Pending) → Option ℤ → Outcome
    or_failed p f none = failed p.store
    or_failed p f (some n) = going (f n)

    -- What a key and its value do.
    unfoldable pub set_field : Bytes → Bytes → Pending → Outcome
    unfolding eq_bytes flush parse_list
    set_field key val p =
        if eq_bytes key (codes "key")
        then and_then (flush p) (λ q. going (record q { raw = val }))
        else if eq_bytes key (codes "provider_allowlist")
        then going (record p { allowlist = parse_list val })
        else if eq_bytes key (codes "token_budget")
        then or_failed p (λ n. record p { token_budget = n }) (parse.parse_int (trim_space val))
        else if eq_bytes key (codes "budget_period")
        then or_failed p (λ d. record p { period = d }) (parse.parse_duration val)
        else going p

    abbrev pub set_pair : Option (Bytes × Bytes) → Pending → Outcome
    set_pair none p = going p
    set_pair (some (key, val)) p = set_field key val p

    -- The loop.
    unfoldable pub read_lines : List Bytes → Pending → Outcome
    unfolding set_field read_line
    read_lines [] p = going p
    read_lines (line ∷ lines) p = and_then (set_pair (read_line line) p) (read_lines lines)

    -- After the loop: an error of the scanner, or the last key.
    abbrev pub finish : Bool → Pending → Outcome
    finish true p = failed p.store
    finish false p = flush p

    -- `LoadKeysFile` on a file that can be opened.
    unfoldable pub load_keys_file : List Bytes → Bool → Store → Outcome
    unfolding read_lines flush
    load_keys_file lines scan_error s = and_then (read_lines lines (cleared s)) (finish scan_error)
