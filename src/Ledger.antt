-- ===== src/Ledger.antt =====
-- internal/ledger/ledger.go: billed tokens by API key and billing period. Each method holds the
-- mutex, so it is one step. An entry is changed through its pointer, so the map is written at once.
-- Times are nanoseconds since Go's zero time. `stamp` is `Format(time.RFC3339)` and `span` is
-- `Duration.String`: the text of a period is not used but as a key.
pub mod Totals
pub mod Order
use Prim.Native.String.{◌++◌ as ◌<>◌}
use stream_guard.Prelude.{
  ℕ, suc, ◌+◌, ◌-◌, ◌%◌, ℤ, pos, negsuc, add64, ◌-ℤ◌, pos_part, Bool, true, false, not, ◌&&◌, ◌||◌,
  List, [], ◌∷◌, Option, none, some, String, ◌==◌, Dict, lookup, insert, ltb_ℤ, leb_ℤ,
  if◌then◌else◌,
}

pub record Entry : Type 0 where
  pub api_key_hash : String
  pub billing_period : String
  pub tokens_billed : ℤ  -- int
  pub truncated_requests : ℤ  -- int
  pub last_reconciled_at : Option ℤ
  pub drift_flag : Bool
  pub provider_tokens : Dict ℤ

pub record Summary : Type 0 where
  pub api_key : String
  pub tokens_billed : ℤ
  pub truncated_requests : ℤ
  pub last_reconciled_at : Option ℤ
  pub drift_flag : Bool

pub record Store : Type 0 where
  pub entries : Dict Entry
  pub interval : ℤ

abbrev hour : ℤ
hour = pos 3600000000000

unfoldable pub new : ℤ → Store
new interval = record { entries = []; interval = if leb_ℤ interval (pos 0) then hour else interval }

-- Down to a multiple of `d` since the zero time.
abbrev down : ℤ → ℕ → ℤ
down (pos n) d = pos (n - n % d)
down (negsuc n) d = negsuc n -ℤ pos ((d - suc n % d) % d)

-- `t.Truncate(d)`.
unfoldable pub truncate : ℤ → ℤ → ℤ
truncate t d = if leb_ℤ d (pos 0) then t else down t (pos_part d)

module _ (stamp span : ℤ → String) where
  unfoldable pub billing_period : ℤ → ℤ → String
  unfolding truncate
  billing_period t interval =
      let d = if leb_ℤ interval (pos 0) then hour else interval in
      stamp (truncate t d) <> "/" <> span d

abbrev pub entry_key : String → String → String
entry_key api_key_hash period = api_key_hash <> ("|" <> period)

abbrev pub or_new : String → String → Option Entry → Entry
or_new api_key_hash period (some e) = e
or_new api_key_hash period none = record {
  api_key_hash = api_key_hash;
  billing_period = period;
  tokens_billed = pos 0;
  truncated_requests = pos 0;
  last_reconciled_at = none;
  drift_flag = false;
  provider_tokens = [];
}

-- The entry of `getLocked`.
unfoldable pub get : String → String → Store → Entry
get api_key_hash period s =
    or_new api_key_hash period (lookup (entry_key api_key_hash period) s.entries)

-- A write through the pointer that `getLocked` returned.
abbrev pub put : String → String → Entry → Store → Store
put api_key_hash period e s = record s {
  entries = insert (entry_key api_key_hash period) e s.entries;
}

abbrev or_zero : Option ℤ → ℤ
or_zero none = pos 0
or_zero (some n) = n

-- What `RecordTerminal` does to its entry.
unfoldable pub bill : String → ℤ → Bool → Entry → Entry
bill provider tokens truncated e = record e {
  tokens_billed = add64 e.tokens_billed tokens;
  provider_tokens =
      if not (provider == "") && ltb_ℤ (pos 0) tokens
      then insert provider (add64 (or_zero (lookup provider e.provider_tokens)) tokens)
          e.provider_tokens
      else e.provider_tokens;
  truncated_requests =
      if truncated then add64 e.truncated_requests (pos 1) else e.truncated_requests;
}

abbrev pub billable : ℤ → ℤ
billable tokens = if ltb_ℤ tokens (pos 0) then pos 0 else tokens

-- `RecordTerminal`, given the billing period of its time.
unfoldable pub record_in : String → String → String → ℤ → Bool → Store → Store
unfolding get bill
record_in api_key_hash provider period tokens truncated s =
    put api_key_hash period (bill provider (billable tokens) truncated (get api_key_hash period s))
      s

module _ (stamp span : ℤ → String) where
  unfoldable record_terminal : String → String → ℤ → ℤ → Bool → Store → Store
  unfolding billing_period record_in
  record_terminal api_key_hash provider terminal_at tokens truncated s =
      record_in api_key_hash provider (billing_period stamp span terminal_at s.interval) tokens
        truncated s

unfoldable pub upsert_reconciliation : String → String → ℤ → Bool → Store → Store
unfolding get
upsert_reconciliation api_key_hash period at drift_flag s =
    put api_key_hash period
      (record (get api_key_hash period s) { last_reconciled_at = some at; drift_flag = drift_flag })
      s

-- The later of two reconciliation times, if any.
abbrev pub latest : Option ℤ → Option ℤ → Option ℤ
latest out none = out
latest none (some t) = some t
latest (some o) (some t) = if ltb_ℤ o t then some t else some o

abbrev pub absorb : Entry → Summary → Summary
absorb e out = record out {
  tokens_billed = add64 out.tokens_billed e.tokens_billed;
  truncated_requests = add64 out.truncated_requests e.truncated_requests;
  drift_flag = out.drift_flag || e.drift_flag;
  last_reconciled_at = latest out.last_reconciled_at e.last_reconciled_at;
}

-- The loop of `Summary`, over the entries in the order of the list.
unfoldable pub summarise : String → Dict Entry → Summary → Summary
summarise api_key_hash [] out = out
summarise api_key_hash ((k, e) ∷ es) out =
    summarise api_key_hash es (if e.api_key_hash == api_key_hash then absorb e out else out)

abbrev pub empty_summary : String → Summary
empty_summary redacted = record {
  api_key = redacted;
  tokens_billed = pos 0;
  truncated_requests = pos 0;
  last_reconciled_at = none;
  drift_flag = false;
}

unfoldable pub summary : String → String → Store → Summary
unfolding summarise
summary api_key_hash redacted s = summarise api_key_hash s.entries (empty_summary redacted)

-- `Entries` copies every field; values have no aliases here.
unfoldable pub entries_of : Dict Entry → List Entry
entries_of [] = []
entries_of ((k, e) ∷ es) = e ∷ entries_of es
