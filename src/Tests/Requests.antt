-- ===== src/Tests/Requests.antt =====
-- A request that fails over from a provider that hangs to one that answers, and the checks before it.
use stream_guard.Prelude.{
  ℕ, ℤ, pos, pos_part, ◌+◌, Bool, true, false, List, [], ◌∷◌, Option, none, some, String, ◌≡◌, ◌⊎◌,
  ◌↔◌, insert, lookup, wrap64, ◌+ℤ◌, ◌-ℤ◌, inl, inr, refl, arith, if◌then◌else◌, eqb, suc, ◌<◌,
  half_word, ◌≤ℤ◌,
}
use Prim.Native.String.{◌++◌ as ◌<>◌}
use stream_guard.Text.{Bytes, codes}
use stream_guard.Budget.{ApiKeyRecord}
use stream_guard.Budget.Bounds.{IsBudgeted}
use stream_guard.Breaker
use stream_guard.RateLimit
use stream_guard.Ledger
use stream_guard.Auth
use stream_guard.Cascade.{Session, new_session, Status, complete}
use stream_guard.Config.{Provider}
use stream_guard.Parser.{Frame, empty_frame}
use stream_guard.Server.{
  Err, err_silent_hang, Shared, Counter, Arrival, frame, fault, Upstream, answered, Attempt,
  run_attempt,
}
use stream_guard.Server.Stream.{Turn, Periods, Progress, begin, returned, left}
use stream_guard.Server
use stream_guard.Server.Rounds
use stream_guard.Server.Stream
use stream_guard.Server.Output.Phases
use stream_guard.Text
use stream_guard.Budget
use stream_guard.Cascade
use stream_guard.Server.Rounds.{stream}
use stream_guard.Server.Output.{stream-phase}
use stream_guard.Server.Output.Phases.{Phase, fresh, live, finished, phase}
use stream_guard.Server.Accounting.{Holds, IsHonest, IsHonestUpstream}
use stream_guard.Server.Billing.{IsAlone, AllAlone, stream-Settled}
use stream_guard.Server.Billing.Settling.{Settled}
use stream_guard.Server.Handler.{Gate, Request, Answer, admitted, admit}
use stream_guard.Server.Handler.Admission.{IsAdmissible, admit_iff}

abbrev key : ApiKeyRecord
key = record {
  key_hash = "#sg-a";
  provider_allowlist = "primary" ∷ "backup" ∷ [];
  token_budget = pos 100;
  tokens_used = pos 40;
  budget_period = pos 3600000000000;
  budget_period_start = pos 1000;
}

pub key-IsBudgeted : IsBudgeted key
key-IsBudgeted = record {
  budget_fits = omega arith;
  used_nonneg = omega arith;
  used_within = omega arith;
}

abbrev pub provider : String → ℤ → Provider
provider name priority = record {
  name = name;
  kind = codes "openai";
  priority = priority;
  base_url = codes "https://example.org";
  circuit_breaker = none;
}

abbrev pub two_providers : List Provider
two_providers = provider "primary" (pos 1) ∷ provider "backup" (pos 2) ∷ []

abbrev breaker_settings : Breaker.Config
breaker_settings = record {
  failure_threshold = pos 1;
  open_timeout = pos 1000000000;
  half_open_success_threshold = pos 1;
}

abbrev pub shared : Shared
shared = record {
  key = key;
  breakers = λ name. Breaker.new breaker_settings (pos 0);
  limiter = RateLimit.new (pos 60000000000) (pos 1000);
  ledger = Ledger.new (pos 0);
}

abbrev pub hello : Frame
hello = record empty_frame { text = codes "Hello" }

abbrev pub done : Frame
done = record empty_frame { event = codes "done" }

abbrev arrival : ℤ → Frame → Arrival
arrival at f = record { meanwhile = λ s. s; at = at; what = frame f none }

abbrev pub hang : Arrival
hang = record { meanwhile = λ s. s; at = pos 30; what = fault err_silent_hang false }

-- Every text is two tokens.
abbrev pub two : Counter
two name model hint text = pos 2

abbrev pub hanging : Upstream
hanging = answered 200 [] (arrival (pos 20) hello ∷ hang ∷ [])

abbrev answering : Upstream
answering =
    answered 200 [] (arrival (pos 40) hello ∷ arrival (pos 41) hello ∷ arrival (pos 42) done ∷ [])

abbrev pub turn_of : ℤ → Upstream → Turn
turn_of at upstream = record {
  before = λ s. s;
  started = at;
  upstream = upstream;
  after = λ s. s;
  ended = at;
}

abbrev pub script : ℕ → Turn
script i = if eqb i 0 then turn_of (pos 20) hanging else turn_of (pos 40) answering

abbrev pub one_period : Periods
one_period now s = "p1"

abbrev pub session : Session
session = new_session "sg-1" "#sg-a"

abbrev result : Progress
result = stream one_period two (codes "m") script (pos 50) two_providers (begin shared session)

-- Two tokens of the first attempt are given back, four of the second stay.
result_run :
    (result.shared.key.tokens_used ≡ pos 44)
    × (result.failovers ≡ 1)
    × (result.session.status ≡ complete)
unfolding stream begin run_attempt Breaker.allow_attempt Breaker.new Breaker.current_state
    Breaker.record_failure Breaker.record_success Breaker.refresh Breaker.transition
    Breaker.try_claim_probe Rounds.conclude Rounds.rounds Rounds.round Rounds.attempt_provider
    Rounds.settle Rounds.truncate Stream.admit_provider Stream.is_claimed Stream.perform
    Stream.classify Stream.fail_over Stream.hand_on Stream.next_attemptable Stream.note_failure
    Stream.open_attempt Stream.search_next Stream.unclaim Server.run_frames Server.take
    Server.take_frame Server.take_content Server.take_usage Server.reserve Server.set_breaker
    Text.eq_bytes Budget.release Budget.try_reserve Cascade.finish_at Cascade.finish_attempt
    Cascade.start_attempt Ledger.new Ledger.bill Ledger.get Ledger.record_in insert lookup wrap64
    RateLimit.new RateLimit.add RateLimit.events_of RateLimit.prune RateLimit.total_from ◌+ℤ◌ ◌-ℤ◌
    new_session
result_run = (refl, refl, refl)

hello-IsHonest : (tokens : ℤ) → IsHonest shared (λ text. pos 2) tokens hello none
hello-IsHonest tokens = record {
  written = refl;
  rising = λ e. cc;
  usage_fits = λ e. cc;
  text_fits = omega arith;
}

done-IsHonest : (tokens : ℤ) → IsHonest shared (λ text. pos 2) tokens done none
done-IsHonest tokens = record {
  written = refl;
  rising = λ e. cc;
  usage_fits = λ e. cc;
  text_fits = omega arith;
}

hanging-IsHonest : IsHonestUpstream shared (λ hint text. pos 2) hanging
hanging-IsHonest = ((λ s. refl), hello-IsHonest _, ((λ s. refl), tt, tt))

answering-IsHonest : IsHonestUpstream shared (λ hint text. pos 2) answering
answering-IsHonest = (
  (λ s. refl),
  hello-IsHonest _,
  ((λ s. refl), hello-IsHonest _, ((λ s. refl), done-IsHonest _, tt)),
)

turn-IsAlone :
    (at : ℤ) (u : Upstream)
    → IsHonestUpstream shared (λ hint text. pos 2) u
    → IsAlone shared (λ hint text. pos 2) (turn_of at u)
turn-IsAlone at u honest = record {
  quiet_before = λ s. refl;
  quiet_after = λ s. refl;
  honest = honest;
}

script-AllAlone : AllAlone shared two (codes "m") script 0 two_providers
script-AllAlone = (
  turn-IsAlone (pos 20) hanging hanging-IsHonest,
  (turn-IsAlone (pos 40) answering answering-IsHonest, tt),
)

stream-Settled_example : Settled shared result
stream-Settled_example =
    stream-Settled shared one_period two (codes "m") script (pos 50) two_providers session
      key-IsBudgeted script-AllAlone

stream-phase_example :
    (phase result.out ≡ finished)
    ⊎ (phase result.out ≡ (if result.status_sent then live result.failovers else fresh))
stream-phase_example =
    stream-phase one_period two (codes "m") script (pos 50) two_providers shared session

phase_run : phase result.out ≡ live 1
unfolding stream begin run_attempt Breaker.allow_attempt Breaker.new Breaker.current_state
    Breaker.record_failure Breaker.record_success Breaker.refresh Breaker.transition
    Breaker.try_claim_probe Rounds.conclude Rounds.rounds Rounds.round Rounds.attempt_provider
    Rounds.settle Rounds.truncate Stream.admit_provider Stream.is_claimed Stream.perform
    Stream.classify Stream.fail_over Stream.hand_on Stream.next_attemptable Stream.note_failure
    Stream.open_attempt Stream.search_next Stream.unclaim Server.run_frames Server.take
    Server.take_frame Server.take_content Server.take_usage Server.reserve Server.set_breaker
    Text.eq_bytes Budget.release Budget.try_reserve Cascade.finish_at Cascade.finish_attempt
    Cascade.start_attempt Ledger.new Ledger.bill Ledger.get Ledger.record_in insert lookup wrap64
    RateLimit.new RateLimit.add RateLimit.events_of RateLimit.prune RateLimit.total_from ◌+ℤ◌ ◌-ℤ◌
    phase Phases.phase_from Phases.next_phase
phase_run = refl

abbrev attempt : Attempt
attempt = record { shared = shared; out = []; total = pos 0; tokens = pos 0 }

attempt-Holds : Holds shared shared (pos 0)
attempt-Holds = record {
  budgeted = key-IsBudgeted;
  same_budget = refl;
  same_hash = refl;
  same_ledger = refl;
  nonneg = omega arith;
  held = refl;
}

abbrev toy_hash : String → String
toy_hash raw = "#" <> raw

-- The only token that the store is asked for here.
abbrev toy_text : Bytes → String
toy_text token = "sg-a"

abbrev toy_decode : Bytes → Option (Bytes × Bool)
toy_decode body = some (codes "m", true)

abbrev gate : Gate
gate = record {
  draining = false;
  providers = two_providers;
  auth = record { by_hash = ("#sg-a", key) ∷ []; raw_hash = []; period = pos 0 };
  limiter = RateLimit.new (pos 60000000000) (pos 1000);
}

abbrev request : Request
request = record { is_post = true; body = some (codes "{}"); authorization = codes "Bearer sg-a" }

admit_iff_example :
    ((admit toy_hash toy_text toy_decode (pos 20) request gate).1
      ≡ admitted (codes "m") key two_providers)
    ↔ IsAdmissible toy_hash toy_text toy_decode (pos 20) request gate (codes "m") key two_providers
admit_iff_example =
    admit_iff toy_hash toy_text toy_decode (pos 20) request gate (codes "m") key two_providers

admit_run :
    (admit toy_hash toy_text toy_decode (pos 20) request gate).1
    ≡ admitted (codes "m") key two_providers
unfolding admit stream_guard.Text.trim_space Auth.lookup_raw stream_guard.Prelude.lookup
    stream_guard.Server.Handler.allowed_providers RateLimit.admit RateLimit.total_from
    RateLimit.events_of RateLimit.new
admit_run = refl
