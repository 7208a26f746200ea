-- ===== src/Config/Load/Lost.antt =====
-- A provider that follows one with overrides in the settings file (internal/config/config.go).
use stream_guard.Prelude.{
  Bool, true, false, not, ◌||◌, List, [], ◌∷◌, ◌++◌, Option, none, some, if◌then◌else◌, ◌≡◌, ◌≢◌,
  inl, inr, refl, arith, Bool-cases, Option-cases,
}
use stream_guard.Text.{Bytes, codes, eq_bytes, is_empty, cut, before_suffix}
use stream_guard.Config.{BreakerConfig, Config, Environment, Invalid, validate}
use stream_guard.Config.Validation.{validate_sound}
use stream_guard.Config.File.{
  Parsers, Scan, Outcome, next, failed, panicked, empty_breaker, on_last, is_breaker_key,
  override_with, last_breaker, set_provider_value, provider_line, section_line, in_provider,
  set_pair, set_line, enter_section, item_of, content_of, is_header, is_item, append_provider,
  parse_line, and_then, parse_lines,
}
use stream_guard.Config.Load.Nameless.{
  HasLost, HasLost-append, HasLost-shut, appended-HasLost, HasLost-kept, HasLost-renamed,
  not_usable,
}
use stream_guard.Config.Load.{loaded, invalid, or_token, start, finish, load}

module _ {ℓ} {W : Type ℓ} (parse : Parsers W) where
  abbrev is_shut : Scan W → Bool
  is_shut s = not s.current || s.provider_override

  abbrev Lost : Scan W → Type 0
  Lost s = HasLost (is_shut s) s.cfg.providers

  data AfterLost : Outcome W → Type ℓ where
    goes_on : (s : Scan W) → Lost s → AfterLost (next s)
    fails : AfterLost failed
    panics : AfterLost panicked

  either : (b : Bool) (x y : Outcome W) → AfterLost x → AfterLost y → AfterLost (if b then x else y)
  either true x y hx hy = hx
  either false x y hx hy = hy

  -- A key of another section leaves the providers and the place in the file.
  section_line_leaves :
      (key val : Bytes) (s s' : Scan W)
      → section_line parse key val s ≡ next s'
      → (s'.cfg.providers ≡ s.cfg.providers)
        × (s'.current ≡ s.current)
        × (s'.provider_override ≡ s.provider_override)
  unfolding section_line
  section_line_leaves key val s s' h = ground arith

  AfterLost_of_next : (out : Outcome W) → ((s : Scan W) → out ≡ next s → Lost s) → AfterLost out
  AfterLost_of_next (next s) h = goes_on s (h s refl)
  AfterLost_of_next failed h = fails
  AfterLost_of_next panicked h = panics

  section_line-AfterLost :
      (key val : Bytes) (s : Scan W) → Lost s → AfterLost (section_line parse key val s)
  section_line-AfterLost key val s h = AfterLost_of_next _ λ s' e.
      let (same, current, override) = section_line_leaves key val s s' e in
      rw (same, current, override) h

  override_with-AfterLost :
      (key val : Bytes) (s : Scan W) (o : Option BreakerConfig)
      → Lost s
      → AfterLost (override_with parse key val s o)
  override_with-AfterLost key val s none h =
      either (is_breaker_key parse key) panicked (next s) panics (goes_on s h)
  override_with-AfterLost key val s (some b) h =
      goes_on _ (HasLost-kept _ (is_shut s) s.cfg.providers (λ p. refl) h)

  override_or_set :
      (key val : Bytes) (s : Scan W) (override : Bool)
      → s.provider_override ≡ override
      → s.current ≡ true
      → Lost s
      → AfterLost (
          if override
          then override_with parse key val s (last_breaker parse s.cfg.providers)
          else next (record s {
            cfg = record s.cfg {
              providers = on_last (set_provider_value parse key val) s.cfg.providers;
            };
          }))
  override_or_set key val s true e current h =
      override_with-AfterLost key val s (last_breaker parse s.cfg.providers) h
  override_or_set key val s false e current h =
      goes_on _ (rw (current, e) (HasLost-renamed _ s.cfg.providers (rw (current, e) at h)))

  provider_line-AfterLost :
      (key val : Bytes) (s : Scan W)
      → s.current ≡ true
      → Lost s
      → AfterLost (provider_line parse key val s)
  unfolding provider_line
  provider_line-AfterLost key val s current h =
      either (eq_bytes key (codes "circuit_breaker")) _ _
        (goes_on _ (
          rw current (
            HasLost-kept (λ p. record p { circuit_breaker = some empty_breaker }) true
              s.cfg.providers (λ p. refl) (HasLost-shut (is_shut s) s.cfg.providers h))))
        (override_or_set key val s s.provider_override refl current h)

  set_pair-AfterLost :
      (s : Scan W) (o : Option (Bytes × Bytes)) → Lost s → AfterLost (set_pair parse s o)
  unfolding in_provider
  set_pair-AfterLost s none h = goes_on s h
  set_pair-AfterLost s (some (k, v)) h = elim (Bool-cases (in_provider parse s)) [
    | inl e ↦ rw e (provider_line-AfterLost _ _ s (ground arith) h)
    | inr e ↦ rw e (section_line-AfterLost _ _ s h)
  ]

  set_line-AfterLost : (line : Bytes) (s : Scan W) → Lost s → AfterLost (set_line parse line s)
  unfolding set_line
  set_line-AfterLost line s h = set_pair-AfterLost s (cut b':' line) h

  enter_section-AfterLost :
      (s : Scan W) (o : Option Bytes) → Lost s → AfterLost (enter_section parse s o)
  enter_section-AfterLost s none h = goes_on s h
  enter_section-AfterLost s (some name) h = goes_on _ (HasLost-shut (is_shut s) s.cfg.providers h)

  append_provider-Lost : (s : Scan W) → Lost s → Lost (append_provider parse s)
  append_provider-Lost s h = HasLost-append (is_shut s) _ s.cfg.providers h

  parse_line-AfterLost : (raw : Bytes) (s : Scan W) → Lost s → AfterLost (parse_line parse raw s)
  unfolding parse_line
  parse_line-AfterLost raw s h = either (is_empty (content_of parse raw)) _ _ (goes_on s h) (
      either (is_header parse raw) _ _
        (enter_section-AfterLost s (before_suffix b':' (content_of parse raw)) h)
        (either (is_item parse raw s) _ _
          (either (is_empty (item_of parse raw)) _ _ (goes_on _ (append_provider-Lost s h))
            (set_line-AfterLost (item_of parse raw) _ (append_provider-Lost s h)))
          (set_line-AfterLost (content_of parse raw) s h)))

  and_then-AfterLost :
      (out : Outcome W) (f : Scan W → Outcome W)
      → AfterLost out
      → ((s : Scan W) → Lost s → AfterLost (f s))
      → AfterLost (and_then parse out f)
  and_then-AfterLost _ f (goes_on s h) g = g s h
  and_then-AfterLost _ f fails g = fails
  and_then-AfterLost _ f panics g = panics

  parse_lines-AfterLost :
      (raws : List Bytes) (s : Scan W) → Lost s → AfterLost (parse_lines parse raws s)
  unfolding parse_lines
  parse_lines-AfterLost [] s h = goes_on s h
  parse_lines-AfterLost (raw ∷ raws) s h =
      and_then-AfterLost (parse_line parse raw s) (parse_lines parse raws)
        (parse_line-AfterLost raw s h) (parse_lines-AfterLost raws)

  and_then_agree :
      (out : Outcome W) (f g h : Scan W → Outcome W)
      → ((s : Scan W) → f s ≡ and_then parse (g s) h)
      → and_then parse out f ≡ and_then parse (and_then parse out g) h
  and_then_agree (next s) f g h e = e s
  and_then_agree failed f g h e = refl
  and_then_agree panicked f g h e = refl

  parse_lines-append :
      (xs ys : List Bytes) (s : Scan W)
      → parse_lines parse (xs ++ ys) s
        ≡ and_then parse (parse_lines parse xs s) (parse_lines parse ys)
  unfolding parse_lines
  parse_lines-append [] ys s = refl
  parse_lines-append (x ∷ xs) ys s =
      and_then_agree (parse_line parse x s) (parse_lines parse (xs ++ ys)) (parse_lines parse xs)
        (parse_lines parse ys) (parse_lines-append xs ys)

  -- The line of an item, after which the new provider is lost.
  item_line-AfterLost :
      (raw : Bytes) (s : Scan W)
      → is_empty (content_of parse raw) ≡ false
      → is_header parse raw ≡ false
      → is_item parse raw s ≡ true
      → s.provider_override ≡ true
      → AfterLost (parse_line parse raw s)
  unfolding parse_line
  item_line-AfterLost raw s some_text no_header item override =
      let lost : Lost (append_provider parse s) = rw override (appended-HasLost s.cfg.providers) in
      rw (some_text, no_header, item)
        (either (is_empty (item_of parse raw)) (next (append_provider parse s))
          (set_line parse (item_of parse raw) (append_provider parse s)) (goes_on _ lost)
          (set_line-AfterLost (item_of parse raw) _ lost))

  invalid_not_loaded : {e : Invalid} {c : Config} {drift : W} → invalid e ≡ loaded c drift → ⊥
  invalid_not_loaded h = cc

  not_loaded :
      (env : Environment) (token : Bytes) (scan_error : Bool) (out : Outcome W) (c : Config)
      (drift : W)
      → AfterLost out
      → finish parse env token scan_error out ≢ loaded c drift
  not_loaded env token scan_error _ c drift fails h = cc
  not_loaded env token scan_error _ c drift panics h = cc
  not_loaded env token true _ c drift (goes_on s l) h = cc
  not_loaded env token false _ c drift (goes_on s l) h =
      let c₀ = record s.cfg { operator_token = or_token token } in
      elim (Option-cases (validate env c₀)) [
        | inr (e, bad) ↦ invalid_not_loaded (rw bad at h)
        | inl ok ↦ not_usable env c₀ (is_shut s) s.cfg.providers l (validate_sound env c₀ ok).1
      ]

  -- Let some lines of a settings file be read, the last provider have overrides, and a line with a
  -- further provider follow. Then no settings are loaded, whatever lines come after it, and with any
  -- environment: the new provider gets no name.
  pub load_after_override :
      (env : Environment) (threshold : W) (token : Bytes) (before after : List Bytes) (item : Bytes)
      (scan_error : Bool) (s : Scan W) (c : Config) (drift : W)
      → parse_lines parse before (start parse env threshold) ≡ next s
      → s.provider_override ≡ true
      → is_empty (content_of parse item) ≡ false
      → is_header parse item ≡ false
      → is_item parse item s ≡ true
      → load parse env threshold token (some (before ++ item ∷ after, scan_error)) ≢ loaded c drift
  unfolding load parse_lines
  load_after_override env threshold token before after item scan_error s c drift read override text
        no_header is_one h =
      not_loaded env token scan_error _ c drift
        (and_then-AfterLost (parse_line parse item s) (parse_lines parse after)
          (item_line-AfterLost item s text no_header is_one override) (parse_lines-AfterLost after))
        (rw (parse_lines-append before (item ∷ after) (start parse env threshold), read) at h)
