-- ===== src/Startup/Ready.antt =====
-- What a start of cmd/streamguard/main.go that reaches the listener has set up.
use stream_guard.Prelude.{
  ℤ, pos, ◌≤ℤ◌, List, [], ◌∷◌, some, none, String, ◌==◌, eq_refl, Dict, lookup, insert,
  lookup-insert, All, ◌≡◌, refl, subst, Bool-cases, inl, inr,
}
use stream_guard.Text.{codes}
use stream_guard.Breaker.{ProviderCircuitState, closed}
use stream_guard.Breaker
use stream_guard.Ledger
use stream_guard.Auth
use stream_guard.Auth.KeysFile
use stream_guard.Auth.KeysFile.{Outcome, going, failed}
use stream_guard.Auth.KeysFile.Unused.{AreUnused, AreUnusedOutcome, load_keys_file-AreUnused}
use stream_guard.Config.{Config, Provider, Environment, breaker_config_for}
use stream_guard.Config.File.{Parsers}
use stream_guard.Config.Load.{Loaded, loaded, invalid, unreadable, panicked_reading, File}
use stream_guard.Config.Load.Ranked.{IsReady, load-IsReady}
use stream_guard.Server.Endpoints.{new_breakers}
use stream_guard.Server.Endpoints
use stream_guard.Startup.{
  Host, Program, Started, running, env_default, read_keys, serve, with_config, start,
}

-- The provider's breaker, which is closed.
abbrev HasClosed : Dict ProviderCircuitState → String → Type 0
HasClosed breakers name =
    (br : ProviderCircuitState) × (lookup name breakers ≡ some br) × (br.state ≡ closed)

insert-HasClosed :
    (key name : String) (br : ProviderCircuitState) (breakers : Dict ProviderCircuitState)
    → br.state ≡ closed
    → HasClosed breakers name
    → HasClosed (insert key br breakers) name
insert-HasClosed key name br breakers c (old, found, d) = elim (Bool-cases (key == name)) [
  | inl own ↦ (br, rw (lookup-insert key name br breakers, own), c)
  | inr other ↦ (old, rw (lookup-insert key name br breakers, other) found, d)
]

new_breakers-HasClosed :
    (now : ℤ) (cfg : Config) (ps : List Provider) (name : String)
    (breakers : Dict ProviderCircuitState)
    → HasClosed breakers name
    → HasClosed (new_breakers now cfg ps breakers) name
unfolding new_breakers Breaker.new
new_breakers-HasClosed now cfg [] name breakers h = h
new_breakers-HasClosed now cfg (p ∷ ps) name breakers h =
    new_breakers-HasClosed now cfg ps name _ (insert-HasClosed p.name name _ breakers refl h)

new_breakers-AllClosed :
    (now : ℤ) (cfg : Config) (ps : List Provider) (breakers : Dict ProviderCircuitState)
    → All (λ p. HasClosed (new_breakers now cfg ps breakers) p.name) ps
unfolding new_breakers Breaker.new
new_breakers-AllClosed now cfg [] breakers = tt
new_breakers-AllClosed now cfg (p ∷ ps) breakers =
    let br = Breaker.new (breaker_config_for cfg p.circuit_breaker) now in
    (
      new_breakers-HasClosed now cfg ps p.name _
          (br, rw (lookup-insert p.name p.name br breakers, eq_refl p.name), refl),
      new_breakers-AllClosed now cfg ps (insert p.name br breakers),
    )

-- A program that can serve: usable settings, keys with their whole budget, a closed breaker for each
-- provider, nothing billed, and a reconcile loop over the same providers that does tick.
pub record IsServing {ℓ} {W : Type ℓ} (env : Environment) (p : Program W) : Type ℓ where
  pub settings : IsReady env p.cfg
  pub keys : AreUnused p.srv.auth
  pub closed_breakers : All (λ q. HasClosed p.srv.breakers q.name) p.cfg.providers
  pub unbilled : p.srv.ledger.entries ≡ []
  pub same_providers : p.reconcile_runner.providers ≡ p.cfg.providers
  pub ticks : pos 1 ≤ℤ p.reconcile_runner.interval

module _ {ℓ} {W : Type ℓ} (config_parse : Parsers W) (env : Environment)
    (keys_parse : KeysFile.Parsers) (hash : String → String) (host : Host) where
  read_keys-AreUnused :
      (now : ℤ) (file : File) (s : Auth.Store)
      → AreUnused s
      → AreUnusedOutcome (read_keys config_parse env keys_parse hash host now file s)
  read_keys-AreUnused now none s v = v
  read_keys-AreUnused now (some (lines, scan_error)) s v =
      load_keys_file-AreUnused keys_parse hash now lines scan_error s v

  AreServing : Started W → Type ℓ
  AreServing (running p) = IsServing env p
  AreServing other = Unit

  serve-AreServing :
      (now : ℤ) (cfg : Config) (drift : W) (out : Outcome)
      → IsReady env cfg
      → AreUnusedOutcome out
      → AreServing (serve config_parse env keys_parse hash host now cfg drift out)
  unfolding AreServing Endpoints.new Ledger.new
  serve-AreServing now cfg drift (failed keys) v u = tt
  serve-AreServing now cfg drift (going p) v u = record {
    settings = v;
    keys = u;
    closed_breakers = new_breakers-AllClosed now cfg cfg.providers [];
    unbilled = refl;
    same_providers = refl;
    ticks = v.runnable.interval;
  }

  with_config-AreServing :
      (keys_at now : ℤ) (l : Loaded W)
      → ((c : Config) (drift : W) → l ≡ loaded c drift → IsReady env c)
      → AreServing (with_config config_parse env keys_parse hash host keys_at now l)
  unfolding AreServing Auth.new_store
  with_config-AreServing keys_at now (loaded cfg drift) v =
      serve-AreServing now cfg drift _ (v cfg drift refl) (
        read_keys-AreUnused keys_at (host.keys_file cfg.keys_file)
          (Auth.new_store cfg.default_period) tt)
  with_config-AreServing keys_at now (invalid e) v = tt
  with_config-AreServing keys_at now unreadable v = tt
  with_config-AreServing keys_at now panicked_reading v = tt

  -- Whatever its files and its environment hold, a start that reaches the listener has usable
  -- settings, keys with nothing used of budgets that are not negative, a closed breaker for every
  -- provider, an empty ledger, and a reconcile loop over the same providers whose ticker has a
  -- positive interval.
  pub start-IsServing :
      (threshold : W) (keys_at now : ℤ) (p : Program W)
      → start config_parse env keys_parse hash host threshold keys_at now ≡ running p
      → IsServing env p
  unfolding start AreServing
  start-IsServing threshold keys_at now p e = subst AreServing e (
      with_config-AreServing keys_at now _ (
        load-IsReady config_parse env threshold (host.get_env "OPERATOR_TOKEN")
          (host.config_file (env_default host.get_env "STREAMGUARD_CONFIG" (codes "config.yaml")))))
