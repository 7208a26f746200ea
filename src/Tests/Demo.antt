-- ===== src/Tests/Demo.antt =====
-- A demo provider that breaks off after one of three tokens, one that does not fail, and one whose
-- usage is fetched.
use stream_guard.Prelude.{
  zero, ℤ, pos, negsuc, Bool, true, false, List, [], ◌∷◌, ◌++◌, none, some, String, length, ◌==◌,
  if◌then◌else◌, Option, arith, ◌≡◌, refl, lookup,
}
use stream_guard.Text.{Bytes, codes, eq_bytes, after_prefix}
use stream_guard.Protocol.{Json, Payload, content}
use stream_guard.MockUpstream.{
  FailureMode, no_failure, dead_socket, malformed, Options, Server, broken, inject_failure,
  failure_of, fail_after, stream, usage_key, usage_handler,
}
use stream_guard.Reconcile.Fetching.{fetch_usage}
use stream_guard.MockUpstream.Counted.{Request, all_served, answer, added, fetch_usage-served}
use stream_guard.MockUpstream
use stream_guard.Tests.Hundredths.{Hundredths, hundredths_double}
use stream_guard.MockUpstream.Failing.{response, usage_after, stream-response}

abbrev toy_marshal : Payload → Bytes
toy_marshal (content t) = t
toy_marshal p = []

-- A text is written as it is.
abbrev toy : Json
toy = record {
  marshal = toy_marshal;
  to_status = λ b. none;
  to_failover = λ b. none;
  to_regenerating = λ b. none;
  to_truncated = λ b. none;
  to_choices = λ b. none;
  to_delta = λ b. none;
  to_usage = λ b. none;
}

abbrev quoted : Bytes → Bytes
quoted t = codes "\"" ++ t ++ codes "\""

-- The offset of the usage is an integer here.
abbrev options : FailureMode → Options ℤ
options mode = record {
  provider = "demo";
  tokens = codes "a" ∷ codes "b" ∷ codes "c" ∷ [];
  delay_min = pos 1;
  delay_max = pos 1;
  failure = mode;
  fail_after_tokens = pos 0;
  split_frames = false;
  usage_offset_pct = pos 0;
  random_failure_pct = pos 0;
}

abbrev demo : FailureMode → Server ℤ
demo mode = record { opts = options mode; per_model = []; usage = [] }

broken_run :
    (stream toy quoted (pos 50) dead_socket (options malformed) "p" "k" (demo malformed)).1
    ≡ (codes "data: a\n\ndata: {broken\n\n", broken)
unfolding stream
broken_run = refl

complete_run :
    lookup
      (usage_key "p" "k")
      (stream toy quoted
        (pos 50)
        dead_socket
        (options no_failure)
        "p"
        "k"
        (demo no_failure)).0.usage
    ≡ some (pos 3)
unfolding lookup stream stream_guard.Prelude.insert stream_guard.Prelude.wrap64
    stream_guard.Prelude.◌+ℤ◌
complete_run = refl

stream-response_example :
    let failed = inject_failure (failure_of (pos 50) dead_socket (options malformed)) in
    let (s', out) =
      stream toy quoted (pos 50) dead_socket (options malformed) "p" "k" (demo malformed) in
    (out
      ≡ response toy quoted false failed
          (fail_after (options malformed))
          (options malformed).tokens)
    × (s'.usage ≡ usage_after toy quoted "p" "k" 3 failed [])
stream-response_example =
    stream-response toy quoted (pos 50) dead_socket (options malformed) "p" "k" (demo malformed)

-- Two keys of one period, and another, reported with five percent more.
abbrev counted : Server Hundredths
counted = record {
  opts = record {
    provider = "demo";
    tokens = [];
    delay_min = pos 1;
    delay_max = pos 1;
    failure = no_failure;
    fail_after_tokens = pos 0;
    split_frames = false;
    usage_offset_pct = some (pos 500);
    random_failure_pct = pos 0;
  };
  per_model = [];
  usage = ("p|a", pos 60) ∷ ("q|a", pos 7) ∷ ("p|b", pos 40) ∷ [];
}

usage_run : (usage_handler "p" "b" counted ≡ pos 42) × (usage_handler "p" "" counted ≡ pos 105)
unfolding usage_handler stream_guard.Prelude.wrap64 stream_guard.Prelude.◌+ℤ◌ lookup
usage_run = (refl, refl)

-- One whose tokens are counted for two models, and whose random failures are those below fifty.
abbrev serving : Server Hundredths
serving = record {
  opts = record {
    provider = "demo";
    tokens = codes "a" ∷ codes "b" ∷ codes "c" ∷ [];
    delay_min = pos 1;
    delay_max = pos 1;
    failure = no_failure;
    fail_after_tokens = pos 0;
    split_frames = false;
    usage_offset_pct = some (pos 0);
    random_failure_pct = pos 50;
  };
  per_model = [];
  usage = ("p|k", pos 60) ∷ [];
}

abbrev asked : ℤ → String → Request
asked chance key_hash = record {
  chance = chance;
  pick = dead_socket;
  model = none;
  period = "p";
  key_hash = key_hash;
}

-- Two complete ones of the key, one that fails, and one of another key.
abbrev requests : List Request
requests = asked (pos 70) "k" ∷ asked (pos 20) "k" ∷ asked (pos 50) "l" ∷ asked (pos 99) "k" ∷ []

abbrev encode : List (Bytes × Bytes) → Bytes
encode [] = []
encode ((name, value) ∷ rest) = name ++ codes "=" ++ value ++ codes "&" ++ encode rest

abbrev query : Bytes → String → String
query q name =
    if eq_bytes q (codes "period=p&key=k&")
    then if name == "period" then "p" else if name == "key" then "k" else ""
    else ""

abbrev reply : ℤ → Bytes
reply (pos n) = n ∷ []
reply (negsuc n) = 0 ∷ n ∷ []

abbrev decode : Bytes → Option ℤ
decode (n ∷ []) = some (pos n)
decode (zero ∷ n ∷ []) = some (negsuc n)
decode b = none

abbrev answered : Server Hundredths → Option Bytes → Option Bytes
answered s none = none
answered s (some q) = some (answer query reply s q)

-- The demo provider stands at the host `h`.
abbrev get : Bytes → Option Bytes
get url = answered (all_served toy quoted requests serving) (after_prefix (codes "h/usage?") url)

decode-reply : (n : ℤ) → decode (reply n) ≡ some n
decode-reply (pos n) = refl
decode-reply (negsuc n) = refl

no_offset : (n : ℤ) → added (some (pos 0)) n ≡ pos 0
no_offset (pos n) = ground arith
no_offset (negsuc n) = ground arith

fetch_usage-served_example :
    fetch_usage encode get decode
      (record {
        name = "demo";
        kind = [];
        priority = pos 1;
        base_url = codes "h/";
        circuit_breaker = none;
      })
      "k"
      "p"
    ≡ some (pos 66)
unfolding after_prefix eq_bytes stream_guard.Text.trim_right_of lookup MockUpstream.snapshot
    MockUpstream.inject_failure failure_of
fetch_usage-served_example =
    fetch_usage-served toy quoted encode query reply get decode
      (record {
        name = "demo";
        kind = [];
        priority = pos 1;
        base_url = codes "h/";
        circuit_breaker = none;
      })
      "p" "k" requests 60 serving (λ q. refl) (refl, refl) decode-reply no_offset refl refl
      (omega arith)
