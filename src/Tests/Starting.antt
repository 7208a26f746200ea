-- ===== src/Tests/Starting.antt =====
-- A start of the program, its reconcile loop and its shutdown.
use stream_guard.Prelude.{
  ℤ, pos, true, false, List, [], ◌∷◌, none, some, ◌≡◌, refl, ◌==◌, if◌then◌else◌,
}
use stream_guard.Text.{codes}
use stream_guard.Auth
use stream_guard.Auth.KeysFile.{Outcome, going, failed, load_keys_file}
use stream_guard.Config.Load.{unreadable}
use stream_guard.Reconcile.{State}
use stream_guard.Server.Endpoints
use stream_guard.Startup.{
  Host, Program, config_error, running, start, Runner, Wake, tick, done, reconcile_loop, listening,
  closed, shut_down,
}
use stream_guard.Startup.Ready.{IsServing, start-IsServing}
use stream_guard.Tests.Files.{parsers, world, good_lines, ready, key_parsers, toy_hash, key_lines}
use stream_guard.Tests.Reconciling.{threshold, providers, fails, state}
use stream_guard.Tests.Hundredths.{Hundredths, hundredths_double}

-- No variable is set but the address.
abbrev host : Host
host = record {
  get_env = λ name. if name == "STREAMGUARD_ADDR" then codes ":9090" else [];
  config_file = λ path. some (good_lines, false);
  keys_file = λ path. some (key_lines, false);
}

abbrev store_of : Outcome → Auth.Store
store_of (going p) = p.store
store_of (failed s) = s

abbrev keys : Auth.Store
keys = store_of (
    load_keys_file key_parsers toy_hash (pos 7) key_lines false
      (Auth.new_store ready.default_period))

abbrev program : Program ℤ
program = record {
  cfg = ready;
  srv = Endpoints.new (pos 8) ready keys;
  reconcile_runner = record {
    threshold_pct = pos 9;
    providers = ready.providers;
    interval = pos 3600000000000;
  };
  addr = codes ":9090";
}

start_run : start parsers world key_parsers toy_hash host (pos 9) (pos 7) (pos 8) ≡ running program
unfolding start load_keys_file stream_guard.Prelude.wrap64
start_run = refl

start-IsServing_example : IsServing world program
start-IsServing_example =
    start-IsServing parsers world key_parsers toy_hash host (pos 9) (pos 7) (pos 8) program
      start_run

-- Without a settings file nothing starts.
no_file_run :
    start parsers world key_parsers toy_hash
      (record host { config_file = λ path. none })
      (pos 9)
      (pos 7)
      (pos 8)
    ≡ config_error unreadable
unfolding start
no_file_run = refl

abbrev runner : Runner Hundredths
runner = record { threshold_pct = threshold; providers = providers; interval = pos 10 }

abbrev wakes : List (Wake (State Hundredths))
wakes = tick (pos 9) (λ s. s) ∷ tick (pos 19) (λ s. s) ∷ done ∷ []

-- Both ticks end in an error, which is logged.
errors_run : (reconcile_loop (λ now. fails) runner wakes state).1 ≡ 2
unfolding reconcile_loop
errors_run = refl

stopping_run :
    let p = shut_down (pos 100) ready true (record {
      background = true;
      sessions = record {
        session_seq = 2;
        draining = false;
        active = 2 ∷ [];
        force_at = none;
        canceled = [];
      };
      listener = listening;
    }) in
    (p.sessions.force_at ≡ some (pos 30000000100)) × (p.listener ≡ closed)
unfolding shut_down stream_guard.Prelude.◌+ℤ◌ stream_guard.Prelude.wrap64
stopping_run = (refl, refl)
