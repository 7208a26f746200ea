-- ===== src/Startup.antt =====
-- cmd/streamguard/main.go: what the program sets up, its two background loops and its shutdown. A
-- fatal error ends the program, so it is a value. The listener of net/http is not read here: the
-- address and the outcome of its `Shutdown` are values.
pub mod Ready
pub mod Loops
use stream_guard.Prelude.{
  ℕ, suc, ℤ, pos, Bool, false, ◌||◌, List, [], ◌∷◌, none, some, String, ltb_ℤ, leb_ℤ, if◌then◌else◌,
}
use stream_guard.Text.{Bytes, codes, is_empty}
use stream_guard.Double.{Double}
use stream_guard.Auth
use stream_guard.Auth.KeysFile
use stream_guard.Config.{Config, Provider, Environment, seconds}
use stream_guard.Config.File.{Parsers}
use stream_guard.Config.Load.{Loaded, loaded, File, load}
use stream_guard.Reconcile.{State, Fetcher, run_once}
use stream_guard.Server.Endpoints
use stream_guard.Server.Sessions.{Sessions, begin_shutdown}

-- What the program asks of its surroundings: the variables of its environment, and the files.
pub record Host : Type 0 where
  pub get_env : String → Bytes
  pub config_file : Bytes → File
  pub keys_file : Bytes → File

unfoldable pub env_default : (String → Bytes) → String → Bytes → Bytes
env_default get_env key fallback = let v = get_env key in if is_empty v then fallback else v

-- The reconcile runner, without what it shares with the server.
pub record Runner {ℓ} (W : Type ℓ) : Type ℓ where
  pub threshold_pct : W
  pub providers : List Provider
  pub interval : ℤ

pub record Program {ℓ} (W : Type ℓ) : Type ℓ where
  pub cfg : Config
  pub srv : Endpoints.Server
  pub reconcile_runner : Runner W
  pub addr : Bytes

pub data Started {ℓ} (W : Type ℓ) : Type ℓ where
  config_error : Loaded W → Started W
  keys_error : Auth.Store → Started W
  running : Program W → Started W

module _ {ℓ} {W : Type ℓ} (config_parse : Parsers W) (env : Environment)
    (keys_parse : KeysFile.Parsers) (hash : String → String) (host : Host) where
  abbrev read_keys : ℤ → File → Auth.Store → KeysFile.Outcome
  read_keys now none keys = KeysFile.failed keys
  read_keys now (some (lines, scan_error)) keys =
      KeysFile.load_keys_file keys_parse hash now lines scan_error keys

  abbrev serve : ℤ → Config → W → KeysFile.Outcome → Started W
  serve now cfg drift (KeysFile.failed keys) = keys_error keys
  serve now cfg drift (KeysFile.going p) = running (record {
    cfg = cfg;
    srv = Endpoints.new now cfg p.store;
    reconcile_runner = record {
      threshold_pct = drift;
      providers = cfg.providers;
      interval = cfg.reconciliation_interval;
    };
    addr = env_default host.get_env "STREAMGUARD_ADDR" (codes ":8080");
  })

  abbrev with_config : ℤ → ℤ → Loaded W → Started W
  with_config keys_at now (loaded cfg drift) =
      serve now cfg drift
        (read_keys keys_at (host.keys_file cfg.keys_file) (Auth.new_store cfg.default_period))
  with_config keys_at now other = config_error other

  -- `main` up to the listener, given the default threshold and the times at which the keys are read
  -- and the server is made.
  unfoldable pub start : W → ℤ → ℤ → Started W
  unfolding env_default load KeysFile.load_keys_file Auth.new_store Endpoints.new
  start threshold keys_at now = with_config keys_at now (
      load config_parse env threshold (host.get_env "OPERATOR_TOKEN")
        (host.config_file (env_default host.get_env "STREAMGUARD_CONFIG" (codes "config.yaml"))))

-- What a background loop wakes up for: a tick, with its time and what others did before it, or the end
-- of its context.
pub data Wake {ℓ} (S : Type ℓ) : Type ℓ where
  tick : ℤ → (S → S) → Wake S
  done : Wake S

-- The reconcile loop, and the number of errors that it logs. `fetch` is `FetchUsage` at a time.
unfoldable pub reconcile_loop {ℓ} :
    {W : Type ℓ} ⦃d : Double W⦄
    → (ℤ → Fetcher)
    → Runner W
    → List (Wake (State W))
    → State W
    → State W × ℕ
unfolding run_once
reconcile_loop fetch r [] s = (s, 0)
reconcile_loop fetch r (done ∷ rest) s = (s, 0)
reconcile_loop fetch r (tick now meanwhile ∷ rest) s =
    let (s', result) = run_once r.threshold_pct now (some (fetch now)) r.providers (meanwhile s) in
    let (s'', errors) = reconcile_loop fetch r rest s' in
    elim result [ none ↦ (s'', suc errors) | some results ↦ (s'', errors) ]

abbrev minute : ℤ
minute = pos 60000000000

-- How often `RunBudgetResetter` ticks.
unfoldable reset_interval : ℤ → ℤ
reset_interval interval =
    if leb_ℤ interval (pos 0) || ltb_ℤ minute interval then minute else interval

-- `RunBudgetResetter`; `clock` is the time when a tick is handled.
unfoldable reset_loop : ℤ → List (Wake Auth.Store) → Auth.Store → Auth.Store
unfolding Auth.reset_expired
reset_loop clock [] s = s
reset_loop clock (done ∷ rest) s = s
reset_loop clock (tick now meanwhile ∷ rest) s =
    reset_loop clock rest (Auth.reset_expired clock now (meanwhile s)).0

-- The listener of net/http.
pub data Listener : Type 0 where
  listening shut closed : Listener

-- What a signal finds, and what is left after it.
pub record Process : Type 0 where
  pub background : Bool  -- the context of the two loops is alive
  pub sessions : Sessions
  pub listener : Listener

-- `main` from the signal on: `failed` if the listener's `Shutdown` returns an error, as it does when
-- requests are left after the timeout.
unfoldable pub shut_down : ℤ → Config → Bool → Process → Process
unfolding begin_shutdown
shut_down now cfg failed p = record {
  background = false;
  sessions = begin_shutdown now (seconds cfg.drain_timeout_seconds) p.sessions;
  listener = if failed then closed else shut;
}
