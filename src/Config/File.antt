-- ===== src/Config/File.antt =====
-- The settings file: `parseFile`, `Defaults` and `Load` of internal/config/config.go. The file is its
-- lines, as `bufio.Scanner` gives them, and whether the scanner ends with an error. `Parsers` is what
-- strconv and time read from a text; `text` is the text of bytes. The drift threshold, a float64, is
-- kept beside the other settings.
use stream_guard.Prelude.{
  ℤ, pos, Bool, true, false, not, ◌&&◌, ◌||◌, List, [], ◌∷◌, ◌++◌, Option, none, some, String,
  if◌then◌else◌,
}
use stream_guard.Text.{
  Bytes, codes, eq_bytes, is_empty, split, trim_space, has_prefix, before_suffix, trim_prefix,
  trim_of, cut,
}
use stream_guard.Config.{BreakerConfig, Provider, Config}

-- `atoi` and `atof` are the first results of `strconv.Atoi` and `strconv.ParseFloat`.
pub record Parsers {ℓ} (W : Type ℓ) : Type ℓ where
  pub text : Bytes → String
  pub atoi : Bytes → ℤ
  pub atof : Bytes → W
  pub parse_duration : Bytes → Option ℤ

-- The variables of the loop; `current` is whether `currentProvider` is set, to the last provider.
pub record Scan {ℓ} (W : Type ℓ) : Type ℓ where
  pub cfg : Config
  pub drift_threshold_pct : W
  pub section : Bytes
  pub current : Bool
  pub provider_override : Bool

-- A round ends with the next state, with the error of a duration, or at a nil pointer.
pub data Outcome {ℓ} (W : Type ℓ) : Type ℓ where
  next : Scan W → Outcome W
  failed : Outcome W
  panicked : Outcome W

abbrev pub empty_provider : Provider
empty_provider = record {
  name = "";
  kind = [];
  priority = pos 0;
  base_url = [];
  circuit_breaker = none;
}

abbrev pub empty_breaker : BreakerConfig
empty_breaker = record {
  failure_threshold = pos 0;
  open_timeout_seconds = pos 0;
  half_open_success_threshold = pos 0;
}

-- A write through `currentProvider`.
abbrev pub on_last : (Provider → Provider) → List Provider → List Provider
on_last f [] = []
on_last f (p ∷ []) = f p ∷ []
on_last f (p ∷ q ∷ ps) = p ∷ on_last f (q ∷ ps)

module _ {ℓ} {W : Type ℓ} (parse : Parsers W) where
  abbrev number : Bytes → ℤ
  number v = parse.atoi (trim_space v)

  unfoldable pub set_breaker_value : Bytes → Bytes → BreakerConfig → BreakerConfig
  unfolding eq_bytes trim_space
  set_breaker_value key val b =
      if eq_bytes key (codes "failure_threshold")
      then record b { failure_threshold = number val }
      else if eq_bytes key (codes "open_timeout_s")
      then record b { open_timeout_seconds = number val }
      else if eq_bytes key (codes "half_open_success_threshold")
      then record b { half_open_success_threshold = number val }
      else b

  unfoldable pub is_breaker_key : Bytes → Bool
  unfolding eq_bytes
  is_breaker_key key =
      eq_bytes key (codes "failure_threshold")
      || (eq_bytes key (codes "open_timeout_s")
          || eq_bytes key (codes "half_open_success_threshold"))

  -- The write to the overrides of the current provider, whose pointer may be nil.
  abbrev pub override_with : Bytes → Bytes → Scan W → Option BreakerConfig → Outcome W
  override_with key val s none = if is_breaker_key key then panicked else next s
  override_with key val s (some b) = next (record s {
    cfg = record s.cfg {
      providers =
          on_last (λ p. record p { circuit_breaker = some (set_breaker_value key val b) })
            s.cfg.providers;
    };
  })

  abbrev pub last_breaker : List Provider → Option BreakerConfig
  last_breaker [] = none
  last_breaker (p ∷ []) = p.circuit_breaker
  last_breaker (p ∷ q ∷ ps) = last_breaker (q ∷ ps)

  unfoldable pub set_provider_value : Bytes → Bytes → Provider → Provider
  unfolding eq_bytes trim_space
  set_provider_value key val p =
      if eq_bytes key (codes "name")
      then record p { name = parse.text val }
      else if eq_bytes key (codes "type")
      then record p { kind = val }
      else if eq_bytes key (codes "priority")
      then record p { priority = number val }
      else if eq_bytes key (codes "base_url")
      then record p { base_url = val }
      else p

  -- A key of the current provider.
  unfoldable pub provider_line : Bytes → Bytes → Scan W → Outcome W
  unfolding eq_bytes set_provider_value set_breaker_value is_breaker_key
  provider_line key val s =
      if eq_bytes key (codes "circuit_breaker")
      then next (record s {
        cfg = record s.cfg {
          providers =
              on_last (λ p. record p { circuit_breaker = some empty_breaker }) s.cfg.providers;
        };
        provider_override = true;
      })
      else if s.provider_override
      then override_with key val s (last_breaker s.cfg.providers)
      else next (record s {
        cfg = record s.cfg { providers = on_last (set_provider_value key val) s.cfg.providers };
      })

  abbrev with_cfg : Config → Scan W → Outcome W
  with_cfg c s = next (record s { cfg = c })

  abbrev pub or_failed : (ℤ → Config) → Scan W → Option ℤ → Outcome W
  or_failed f s none = failed
  or_failed f s (some d) = with_cfg (f d) s

  -- A key of another section.
  unfoldable pub section_line : Bytes → Bytes → Scan W → Outcome W
  unfolding eq_bytes trim_space set_breaker_value
  section_line key val s =
      let c = s.cfg in
      if eq_bytes s.section (codes "circuit_breaker")
      then with_cfg (record c { circuit_breaker = set_breaker_value key val c.circuit_breaker }) s
      else if eq_bytes s.section (codes "timeouts")
          && eq_bytes key (codes "silent_hang_deadline_ms")
      then with_cfg (record c { silent_hang_deadline_ms = number val }) s
      else if eq_bytes s.section (codes "reconciliation") && eq_bytes key (codes "interval")
      then or_failed (λ d. record c { reconciliation_interval = d }) s (parse.parse_duration val)
      else if eq_bytes s.section (codes "reconciliation")
          && eq_bytes key (codes "drift_threshold_pct")
      then next (record s { drift_threshold_pct = parse.atof (trim_space val) })
      else if eq_bytes s.section (codes "rate_limit") && eq_bytes key (codes "window_s")
      then with_cfg (record c { window_seconds = number val }) s
      else if eq_bytes s.section (codes "rate_limit") && eq_bytes key (codes "max_tokens")
      then with_cfg (record c { max_tokens = number val }) s
      else if eq_bytes s.section (codes "budget") && eq_bytes key (codes "default_period")
      then or_failed (λ d. record c { default_period = d }) s (parse.parse_duration val)
      else if eq_bytes s.section (codes "auth") && eq_bytes key (codes "keys_file")
      then with_cfg (record c { keys_file = val }) s
      else if eq_bytes s.section (codes "shutdown") && eq_bytes key (codes "drain_timeout_s")
      then with_cfg (record c { drain_timeout_seconds = number val }) s
      else next s

  unfoldable pub in_provider : Scan W → Bool
  unfolding eq_bytes
  in_provider s = eq_bytes s.section (codes "providers") && s.current

  abbrev pub set_pair : Scan W → Option (Bytes × Bytes) → Outcome W
  set_pair s none = next s
  set_pair s (some (k, v)) =
      let key = trim_space k in
      let val = trim_of b'"' (trim_space v) in
      if in_provider s then provider_line key val s else section_line key val s

  -- The rest of a round, for a line with a key.
  unfoldable pub set_line : Bytes → Scan W → Outcome W
  unfolding cut trim_of trim_space in_provider provider_line section_line
  set_line line s = set_pair s (cut b':' line)

  -- A line that opens a section, at the left margin.
  abbrev pub enter_section : Scan W → Option Bytes → Outcome W
  enter_section s none = next s
  enter_section s (some name) =
      next (record s { section = name; current = false; provider_override = false })

  abbrev pub item_of : Bytes → Bytes
  item_of raw = trim_space (trim_prefix (codes "- ") (trim_space raw))

  -- The line without its comment.
  abbrev first_piece : List Bytes → Bytes
  first_piece [] = []
  first_piece (piece ∷ pieces) = piece

  unfoldable pub content_of : Bytes → Bytes
  unfolding split trim_space
  content_of raw = trim_space (first_piece (split b'#' raw))

  abbrev is_some : Option Bytes → Bool
  is_some none = false
  is_some (some s) = true

  unfoldable pub is_header : Bytes → Bool
  unfolding has_prefix before_suffix content_of
  is_header raw = not (has_prefix (codes " ") raw) && is_some (before_suffix b':' (content_of raw))

  unfoldable pub is_item : Bytes → Scan W → Bool
  unfolding eq_bytes has_prefix trim_space
  is_item raw s = eq_bytes s.section (codes "providers") && has_prefix (codes "- ") (trim_space raw)

  -- A new provider, current.
  abbrev pub append_provider : Scan W → Scan W
  append_provider s = record s {
    cfg = record s.cfg { providers = s.cfg.providers ++ empty_provider ∷ [] };
    current = true;
  }

  -- One round of the loop of `parseFile`.
  unfoldable pub parse_line : Bytes → Scan W → Outcome W
  unfolding content_of is_header before_suffix is_item trim_prefix trim_space set_line
  parse_line raw s =
      if is_empty (content_of raw)
      then next s
      else if is_header raw
      then enter_section s (before_suffix b':' (content_of raw))
      else if is_item raw s
      then if is_empty (item_of raw)
        then next (append_provider s)
        else set_line (item_of raw) (append_provider s)
      else set_line (content_of raw) s

  abbrev pub and_then : Outcome W → (Scan W → Outcome W) → Outcome W
  and_then (next s) f = f s
  and_then failed f = failed
  and_then panicked f = panicked

  -- The loop.
  unfoldable pub parse_lines : List Bytes → Scan W → Outcome W
  unfolding parse_line
  parse_lines [] s = next s
  parse_lines (raw ∷ raws) s = and_then (parse_line raw s) (parse_lines raws)
