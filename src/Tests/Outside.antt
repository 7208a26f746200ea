-- ===== src/Tests/Outside.antt =====
-- What goes out: upstream addresses, usage reports, and a stream as the reference client shows it.
use stream_guard.Prelude.{
  ℕ, pos, true, false, List, [], ◌∷◌, ◌++◌, Option, none, some, String, All, eqb, if◌then◌else◌,
  ◌≡◌, ◌≢◌, ◌↔◌, refl, arith,
}
use stream_guard.Text.{Bytes, codes, eq_bytes}
use stream_guard.Address.{Net}
use stream_guard.Server.Dialing.{
  upstream_request, dial, refused, restricted, validated_dial_address,
}
use stream_guard.Server.Dialing.Guard.{Permitted, validated_dial_address_iff}
use stream_guard.Config.{Provider, provider_type}
use stream_guard.Config.Url.{Url, restricted_host, validate_provider_url}
use stream_guard.Server.Dialing.Reachable.{validated_url_dials}
use stream_guard.Budget.{ApiKeyRecord}
use stream_guard.RateLimit
use stream_guard.Ledger
use stream_guard.Server.Replies.{write_reply, validated_transport, blocked}
use stream_guard.Server.Replies.Health.{Outcome, handle_health_cases}
use stream_guard.Client.Request.{prompt_of}
use stream_guard.Reconcile.Fetching.{usage_url}
use stream_guard.Server.Endpoints.{unauthorized, handle_health, Server, usage, handle_usage}
use stream_guard.Server.Endpoints.Access.{Granted, handle_usage_iff}
use stream_guard.Protocol.{Json, Payload, regenerating, content}
use stream_guard.Parser.RoundTrip.{IsObject}
use stream_guard.Client.{Shown, show_stream}
use stream_guard.Client.Display.{IsCarried, sent_all, shown, show_stream-sent}

-- An address is one byte, 10 the private one; a host of one byte is an address, `up` has two.
abbrev parse_one : Bytes → Option ℕ
parse_one (b ∷ []) = some b
parse_one _ = none

abbrev cut_port : Bytes → Option (Bytes × Bytes)
cut_port b = if eq_bytes b (codes "up:443") then some (codes "up", codes "443") else none

abbrev net : Net
net = record {
  Ip = ℕ;
  parse_addr = parse_one;
  addr_from_slice = parse_one;
  unmap = λ ip. ip;
  is_private = λ ip. eqb ip 10;
  is_loopback = λ ip. eqb ip 127;
  is_link_local_unicast = λ ip. false;
  is_link_local_multicast = λ ip. false;
  is_unspecified = λ ip. eqb ip 0;
  text_of = λ ip. ip ∷ [];
  split_host_port = cut_port;
  join_host_port = λ host port. host ++ codes ":" ++ port;
  lookup = λ host. some ((8 ∷ []) ∷ (10 ∷ []) ∷ []);
}

-- The second address of the name is private.
dial_run : validated_dial_address net (codes "up:443") false ≡ refused restricted
unfolding validated_dial_address eq_bytes
dial_run = refl

dial_allowed_run : validated_dial_address net (codes "up:443") true ≡ dial (8 ∷ codes ":443")
unfolding validated_dial_address eq_bytes
dial_allowed_run = refl

validated_dial_address_iff_example :
    (validated_dial_address net (codes "up:443") false ≡ dial (8 ∷ codes ":443"))
    ↔ Permitted net false (codes "up:443") (8 ∷ codes ":443")
validated_dial_address_iff_example =
    validated_dial_address_iff net false (codes "up:443") (8 ∷ codes ":443")

-- The same name, with public addresses.
abbrev public : Net
public = record net { lookup = λ host. some ((8 ∷ []) ∷ (9 ∷ []) ∷ []) }

abbrev provider : Provider
provider = record {
  name = "one";
  kind = codes "openai";
  priority = pos 0;
  base_url = codes "https://up";
  circuit_breaker = none;
}

abbrev url : Url
url = record { scheme = codes "https"; host = codes "up"; hostname = codes "up" }

url_run : validate_provider_url public (λ b. some url) provider ≡ none
unfolding validate_provider_url
url_run = refl

refused_url_run : validate_provider_url net (λ b. some url) provider ≡ some restricted_host
unfolding validate_provider_url
refused_url_run = refl

no_mock : eq_bytes (provider_type provider) (codes "mock") ≡ false
unfolding eq_bytes provider_type
no_mock = refl

some_address : public.lookup url.hostname ≢ some []
some_address e = cc

validated_url_dials_example :
    (t : Bytes) × (validated_dial_address public (codes "up:443") false ≡ dial t)
unfolding eq_bytes
validated_url_dials_example =
    validated_url_dials public (λ b. some url) provider url (codes "up:443") (codes "443")
      (λ ip. refl) url_run no_mock refl refl some_address

abbrev key : ApiKeyRecord
key = record {
  key_hash = "h";
  provider_allowlist = "one" ∷ [];
  token_budget = pos 100;
  tokens_used = pos 40;
  budget_period = pos 3600000000000;
  budget_period_start = pos 1000;
}

abbrev server : Server
server = record {
  auth = record { by_hash = ("h", key) ∷ []; raw_hash = []; period = pos 0 };
  ledger = Ledger.new (pos 0);
  limit = RateLimit.new (pos 60000000000) (pos 1000);
  breakers = [];
  registry = [];
}

abbrev toy_hash : String → String
toy_hash raw = "h"

abbrev toy_text : Bytes → String
toy_text b = "sg_live_***"

abbrev nothing_billed : Ledger.Summary
nothing_billed = record {
  api_key = "sg_live_***";
  tokens_billed = pos 0;
  truncated_requests = pos 0;
  last_reconciled_at = none;
  drift_flag = false;
}

usage_run :
    handle_usage toy_hash toy_text true
      (codes "/usage/sg_live_demo")
      (codes "Bearer sg_live_demo")
      server
    ≡ usage nothing_billed
unfolding handle_usage stream_guard.Text.trim_space eq_bytes stream_guard.Auth.lookup_raw
    stream_guard.Prelude.lookup Ledger.summary Ledger.new
usage_run = refl

handle_usage_iff_example :
    (handle_usage toy_hash toy_text true
        (codes "/usage/sg_live_demo")
        (codes "Bearer sg_live_demo")
        server
      ≡ usage nothing_billed)
    ↔ Granted toy_hash toy_text true
        (codes "/usage/sg_live_demo")
        (codes "Bearer sg_live_demo")
        server
        nothing_billed
handle_usage_iff_example =
    handle_usage_iff toy_hash toy_text true (codes "/usage/sg_live_demo")
      (codes "Bearer sg_live_demo") server nothing_billed

-- Without the operator's token nothing is told, and no breaker is asked.
health_run :
    handle_health (λ name. pos 0) (codes "ops") true (codes "Bearer sg_live_demo") server
    ≡ (server, unauthorized)
unfolding handle_health stream_guard.Text.trim_space eq_bytes
health_run = refl

handle_health_cases_example :
    let (s', reply) =
      handle_health (λ name. pos 0) (codes "ops") true (codes "Bearer ops") server in
    Outcome
      (λ name. pos 0)
      (codes "ops")
      true
      (codes "Bearer ops")
      server
      s'
      reply
      (write_reply [] reply).status
handle_health_cases_example =
    handle_health_cases (λ name. pos 0) (codes "ops") [] true (codes "Bearer ops") server

-- The transport does not dial a private address.
blocked_run :
    validated_transport net (λ address. address) false (codes "up:443") ≡ blocked restricted
unfolding validated_transport eq_bytes
blocked_run = refl

prompt_run :
    (prompt_of (codes "two" ∷ codes "words" ∷ []) [] ≡ codes "two words")
    × (prompt_of [] (codes " typed \n") ≡ codes "typed")
unfolding prompt_of
prompt_run = (refl, refl)

usage_url_run :
    usage_url (λ pairs. codes "q") (codes "https://a.org/") "h" "p" ≡ codes "https://a.org/usage?q"
unfolding usage_url
usage_url_run = refl

-- The key of OpenAI goes to no other provider.
mock_run :
    upstream_request
      (λ url. true)
      (record { openai_api_key = codes "sk"; anthropic_api_key = [] })
      (record provider { kind = codes " Mock"; base_url = codes "http://up/" })
      (codes "{}")
      (codes "h")
    ≡ some (record {
      allow_private = true;
      url = codes "http://up/v1/stream";
      body = codes "{}";
      headers =
          ("Content-Type", codes "application/json") ∷ ("X-StreamGuard-Key-Hash", codes "h") ∷ [];
    })
unfolding upstream_request
mock_run = refl

abbrev kept_object : Bytes
kept_object = codes "{\"keep\":true}"

abbrev text_object : Bytes
text_object = codes "{\"text\":\"Hi\"}"

abbrev toy_marshal : Payload → Bytes
toy_marshal (content t) = text_object
toy_marshal p = kept_object

-- It knows one text.
abbrev toy : Json
toy = record {
  marshal = toy_marshal;
  to_status = λ b. none;
  to_failover = λ b. none;
  to_regenerating = λ b. some (record { keep_partial_visible = true });
  to_truncated = λ b. none;
  to_choices = λ b. some (codes "Hi" ∷ []);
  to_delta = λ b. none;
  to_usage = λ b. none;
}

abbrev payloads : List Payload
payloads =
    content (codes "Hi")
    ∷ regenerating (record { keep_partial_visible = true })
    ∷ content (codes "Hi")
    ∷ content (codes "Hi")
    ∷ []

shown_run :
    show_stream toy (sent_all toy payloads)
    ≡ Shown.text (codes "Hi")
      ∷ Shown.marker
      ∷ Shown.undim
      ∷ Shown.text (codes "Hi")
      ∷ Shown.text (codes "Hi")
      ∷ []
unfolding show_stream stream_guard.Parser.RoundTrip.sent stream_guard.Protocol.write_content
    stream_guard.Protocol.write_sse
shown_run = refl

kept-IsObject : IsObject kept_object
unfolding stream_guard.Text.trim_space
kept-IsObject = record {
  line = ground arith;
  trimmed = refl;
  opened = (codes "\"keep\":true}", refl);
}

text-IsObject : IsObject text_object
unfolding stream_guard.Text.trim_space
text-IsObject = record {
  line = ground arith;
  trimmed = refl;
  opened = (codes "\"text\":\"Hi\"}", refl);
}

payloads-IsCarried : All (IsCarried toy) payloads
payloads-IsCarried = (
  (text-IsObject, refl),
  ((kept-IsObject, refl), ((text-IsObject, refl), ((text-IsObject, refl), tt))),
)

show_stream-sent_example : show_stream toy (sent_all toy payloads) ≡ shown payloads false
show_stream-sent_example = show_stream-sent toy payloads payloads-IsCarried
