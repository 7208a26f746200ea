-- ===== src/Config/Validation.antt =====
-- What `Validate` of internal/config/config.go guarantees to the rest of the program.
use stream_guard.Prelude.{
  ℤ, pos, ◌≤ℤ◌, true, false, List, [], ◌∷◌, none, some, ◌==◌, ◌≡◌, ◌≢◌, refl, arith, All, eq_refl,
  if◌then◌else◌, sym, ap, ◌∙◌,
}
use stream_guard.Breaker
use stream_guard.Config.{
  Provider, Config, Check, no_providers, is_nil, and_then, Environment, breaker_config_for,
  provider_type, is_known_type, has_name, has_priority, validate_breaker, validate_provider,
  validate_providers, validate_rest, validate,
}

-- A provider that the rest of the program can take for granted.
pub record IsUsable (env : Environment) (c : Config) (p : Provider) : Type 0 where
  pub named : p.name ≢ ""
  pub known : is_known_type (provider_type p) ≡ true
  pub priority_nonneg : pos 0 ≤ℤ p.priority
  pub reachable : env.url_accepted p ≡ true
  pub breaker_kept :
      (now : ℤ)
      → (Breaker.new (breaker_config_for c p.circuit_breaker) now).cfg
        ≡ breaker_config_for c p.circuit_breaker

-- No provider shares its name or its priority with one in `seen` or with a later one.
abbrev pub AreDistinct : List Provider → List Provider → Type 0
AreDistinct seen [] = Unit
AreDistinct seen (p ∷ ps) =
    (has_name seen p.name ≡ false)
    × (has_priority seen p.priority ≡ false)
    × AreDistinct (p ∷ seen) ps

breaker_kept :
    (cfg : Breaker.Config) (now : ℤ) → validate_breaker cfg ≡ none → (Breaker.new cfg now).cfg ≡ cfg
unfolding validate_breaker Breaker.new
breaker_kept cfg now h = ground arith

none_both : (a b : Check) → and_then a b ≡ none → (a ≡ none) × (b ≡ none)
none_both none b h = (refl, h)
none_both (some e) b h = cc

true_not_false : true ≡ false → ⊥
true_not_false e = cc

provider_facts :
    (env : Environment) (c : Config) (seen : List Provider) (p : Provider)
    → validate_provider env c seen p ≡ none
    → ((p.name == "") ≡ false)
      × (has_name seen p.name ≡ false)
      × (is_known_type (provider_type p) ≡ true)
      × (pos 0 ≤ℤ p.priority)
      × (has_priority seen p.priority ≡ false)
      × (env.url_accepted p ≡ true)
      × (validate_breaker (breaker_config_for c p.circuit_breaker) ≡ none)
unfolding validate_provider
provider_facts env c seen p h = ground arith

providers_facts :
    (env : Environment) (c : Config) (seen ps : List Provider)
    → validate_providers env c seen ps ≡ none
    → All (IsUsable env c) ps × AreDistinct seen ps
unfolding validate_providers
providers_facts env c seen [] h = (tt, tt)
providers_facts env c seen (p ∷ ps) h =
    let (head, tail) = none_both (validate_provider env c seen p) _ h in
    let (name, fresh, known, nonneg, distinct, url, breaker) = provider_facts env c seen p head in
    let (usable, rest) = providers_facts env c (p ∷ seen) ps tail in
    (
      (
        record {
          named = λ e. absurd (true_not_false (sym (ap (λ x. x == "") e ∙ eq_refl "") ∙ name));
          known = known;
          priority_nonneg = nonneg;
          reachable = url;
          breaker_kept = λ now. breaker_kept (breaker_config_for c p.circuit_breaker) now breaker;
        },
        usable,
      ),
      (fresh, distinct, rest),
    )

nil_facts :
    (ps : List Provider) (next : Check)
    → (if is_nil ps then some no_providers else next) ≡ none
    → (ps ≢ []) × (next ≡ none)
nil_facts [] next h = cc
nil_facts (p ∷ ps) next h = ((λ e. cc), h)

-- Settings beside the providers that the rest of the program can run on.
pub record IsRunnable (env : Environment) (c : Config) : Type 0 where
  pub window : pos 1 ≤ℤ c.window_seconds
  pub max_tokens : pos 1 ≤ℤ c.max_tokens
  pub interval : pos 1 ≤ℤ c.reconciliation_interval
  pub drain : pos 0 ≤ℤ c.drain_timeout_seconds
  pub keys_file : env.file_exists c.keys_file ≡ true

rest_facts : (env : Environment) (c : Config) → validate_rest env c ≡ none → IsRunnable env c
unfolding validate_rest
rest_facts env c h = record {
  window = ground arith;
  max_tokens = ground arith;
  interval = ground arith;
  drain = ground arith;
  keys_file = ground arith;
}

pub validate-IsRunnable :
    (env : Environment) (c : Config) → validate env c ≡ none → IsRunnable env c
unfolding validate
validate-IsRunnable env c h =
    let (some_provider, rest) = nil_facts c.providers _ h in rest_facts env c (none_both _ _ rest).1

-- A configuration that `validate` accepts has a provider; every one of them has a name, a known type,
-- a priority that is not negative, an accepted URL, and breaker settings that `Breaker.new` takes
-- over as they are; and no two of them share a name or a priority.
pub validate_sound :
    (env : Environment) (c : Config)
    → validate env c ≡ none
    → (c.providers ≢ []) × All (IsUsable env c) c.providers × AreDistinct [] c.providers
unfolding validate
validate_sound env c h =
    let (some_provider, rest) = nil_facts c.providers _ h in
    let (usable, distinct) = providers_facts env c [] c.providers (none_both _ _ rest).0 in
    (some_provider, usable, distinct)
