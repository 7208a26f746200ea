-- ===== src/Tests/Files.antt =====
-- A settings file with overrides that is accepted, one that is not, and a keys file.
use stream_guard.Prelude.{
  ℤ, pos, Bool, true, false, List, [], ◌∷◌, ◌++◌, Option, none, some, String, All, if◌then◌else◌,
  ◌≡◌, ◌≢◌, refl, arith,
}
use stream_guard.Text.{Bytes, codes, eq_bytes, is_empty}
use stream_guard.Config.{Config, Environment}
use stream_guard.Config.File
use stream_guard.Config.File.{Scan, next, parse_lines, content_of, is_header, is_item}
use stream_guard.Config.Load.{loaded, start, load}
use stream_guard.Config.Load.Ranked.{IsReady, load-IsReady}
use stream_guard.Config.Load.Lost.{load_after_override}
use stream_guard.Auth.{new_store}
use stream_guard.Auth.KeysFile
use stream_guard.Auth.KeysFile.{load_keys_file}
use stream_guard.Auth.KeysFile.Items.{
  Item, pairs_of, fields_of_all, Budgeted, budgeted, add_all, load_keys_file_items,
}

-- The text of bytes, among the names here.
abbrev text_among : List String → Bytes → String
text_among [] b = ""
text_among (s ∷ rest) b = if eq_bytes b (codes s) then s else text_among rest b

abbrev text_of : Bytes → String
text_of b = text_among ("one" ∷ "two" ∷ "sg_a" ∷ "sg_b" ∷ []) b

-- Digits read: 1, 2 and 5.
abbrev number_of : Bytes → Option ℤ
number_of b =
    if eq_bytes b (codes "1")
    then some (pos 1)
    else if eq_bytes b (codes "2")
    then some (pos 2)
    else if eq_bytes b (codes "5")
    then some (pos 5)
    else none

abbrev or_zero : Option ℤ → ℤ
or_zero none = pos 0
or_zero (some n) = n

-- The drift threshold is an integer here.
abbrev pub parsers : File.Parsers ℤ
parsers = record {
  text = text_of;
  atoi = λ b. or_zero (number_of b);
  atof = λ b. or_zero (number_of b);
  parse_duration = number_of;
}

abbrev pub world : Environment
world = record { url_accepted = λ p. true; file_exists = λ f. true }

-- The second provider, with the smaller priority, has the overrides.
abbrev pub good_lines : List Bytes
good_lines =
    codes "providers:"
    ∷ codes "  - name: one"
    ∷ codes "    priority: 2"
    ∷ codes "  - name: \"two\""
    ∷ codes "    priority: 1"
    ∷ codes "    circuit_breaker:"
    ∷ codes "      failure_threshold: 5"
    ∷ codes "rate_limit:"
    ∷ codes "  window_s: 5 # seconds"
    ∷ []

abbrev overriding : List Bytes
overriding =
    codes "providers:"
    ∷ codes "  - name: one"
    ∷ codes "    circuit_breaker:"
    ∷ codes "      failure_threshold: 5"
    ∷ []

abbrev item_line : Bytes
item_line = codes "  - name: two"

abbrev pub ready : Config
ready = record {
  circuit_breaker = record {
    failure_threshold = pos 3;
    open_timeout_seconds = pos 30;
    half_open_success_threshold = pos 1;
  };
  providers =
      record {
        name = "two";
        kind = [];
        priority = pos 1;
        base_url = [];
        circuit_breaker = some (record {
          failure_threshold = pos 5;
          open_timeout_seconds = pos 0;
          half_open_success_threshold = pos 0;
        });
      }
      ∷ record { name = "one"; kind = []; priority = pos 2; base_url = []; circuit_breaker = none }
      ∷ [];
  silent_hang_deadline_ms = pos 1000;
  reconciliation_interval = pos 3600000000000;
  window_seconds = pos 5;
  max_tokens = pos 1000000;
  default_period = pos 86400000000000;
  keys_file = codes "./keys.yaml";
  drain_timeout_seconds = pos 30;
  operator_token = codes "dev-operator-token";
}

ready_run : load parsers world (pos 9) [] (some (good_lines, false)) ≡ loaded ready (pos 9)
unfolding load stream_guard.Prelude.wrap64
ready_run = refl

load-IsReady_example : IsReady world ready
load-IsReady_example =
    load-IsReady parsers world (pos 9) [] (some (good_lines, false)) ready (pos 9) ready_run

abbrev overridden : Scan ℤ
overridden = record {
  cfg = record (start parsers world (pos 9)).cfg {
    providers =
        record {
          name = "one";
          kind = [];
          priority = pos 0;
          base_url = [];
          circuit_breaker = some (record {
            failure_threshold = pos 5;
            open_timeout_seconds = pos 0;
            half_open_success_threshold = pos 0;
          });
        }
        ∷ [];
  };
  drift_threshold_pct = pos 9;
  section = codes "providers";
  current = true;
  provider_override = true;
}

overridden_run : parse_lines parsers overriding (start parsers world (pos 9)) ≡ next overridden
unfolding parse_lines
overridden_run = refl

item_text : is_empty (content_of parsers item_line) ≡ false
unfolding content_of
item_text = refl

item_no_header : is_header parsers item_line ≡ false
unfolding is_header
item_no_header = refl

item_is_one : is_item parsers item_line overridden ≡ true
unfolding is_item
item_is_one = refl

load_after_override_example :
    load parsers world
      (pos 9)
      []
      (some (overriding ++ item_line ∷ codes "    priority: 1" ∷ [], false))
    ≢ loaded ready (pos 9)
load_after_override_example =
    load_after_override parsers world (pos 9) [] overriding (codes "    priority: 1" ∷ []) item_line
      false overridden ready (pos 9) overridden_run refl item_text item_no_header item_is_one

abbrev pub key_parsers : KeysFile.Parsers
key_parsers = record { text = text_of; parse_int = number_of; parse_duration = number_of }

abbrev pub toy_hash : String → String
toy_hash raw = raw

abbrev pub key_lines : List Bytes
key_lines =
    codes "keys:"
      ∷ codes "  - key: sg_a"
      ∷ codes "    provider_allowlist: [one, \"two\"]"
      ∷ codes "    token_budget: 5"
      ∷ codes "    budget_period: 1"
      ∷ []
    ++ codes "# the second"
      ∷ codes "  - key: \"sg_b\""
      ∷ codes "    provider_allowlist: [one]"
      ∷ codes "    token_budget: 2"
      ∷ codes "    budget_period: 2"
      ∷ []

abbrev items : List Item
items =
    record {
      key = codes "sg_a";
      provider_allowlist = codes "[one, \"two\"]";
      token_budget = codes "5";
      budget_period = codes "1";
    }
    ∷ record {
      key = codes "sg_b";
      provider_allowlist = codes "[one]";
      token_budget = codes "2";
      budget_period = codes "2";
    }
    ∷ []

key_lines_run : pairs_of key_lines ≡ fields_of_all items
unfolding KeysFile.read_line
key_lines_run = refl

items-Budgeted : All (Budgeted key_parsers toy_hash (pos 7)) items
unfolding eq_bytes stream_guard.Text.trim_space
items-Budgeted = (
  budgeted (pos 5) (pos 1) (λ e. cc) refl refl,
  (budgeted (pos 2) (pos 2) (λ e. cc) refl refl, tt),
)

load_keys_file_items_example :
    load_keys_file key_parsers toy_hash (pos 7) key_lines false (new_store (pos 60))
    ≡ add_all key_parsers toy_hash (pos 7) items (new_store (pos 60))
load_keys_file_items_example =
    load_keys_file_items key_parsers toy_hash (pos 7) key_lines items (new_store (pos 60))
      key_lines_run items-Budgeted
