-- ===== src/Server/Replies.antt =====
-- The routes of `Handler` and the JSON replies of internal/server/server.go: `writeError`, `writeJSON`
-- and `handleLivez`; `mux` is how net/http finds the pattern of a path. With them the accessors of the
-- server, and the dialler that `newValidatedTransport` gives to the HTTP client.
pub mod Health
use stream_guard.Prelude.{
  ℕ, Bool, not, List, [], ◌∷◌, Option, String, lookup, length, if◌then◌else◌,
}
use stream_guard.Text.{Bytes, codes}
use stream_guard.Address.{Net}
use stream_guard.Breaker.{ProviderCircuitState, Snapshot}
use stream_guard.Ledger
use stream_guard.Server.Dialing.{Dial, DialError, refused, dial, validated_dial_address}
use stream_guard.Server.Endpoints.{Server, Reply, usage, health}
use stream_guard.Server.Endpoints
use stream_guard.Server.Handler.{Refusal, status_code}
use stream_guard.Server.Handler
use stream_guard.Server.Sessions.{Sessions}

pub data Endpoint : Type 0 where
  stream_endpoint usage_endpoint health_endpoint livez_endpoint : Endpoint

abbrev pub routes : List (Bytes × Endpoint)
routes =
    (codes "/v1/stream", stream_endpoint)
    ∷ (codes "/usage/", usage_endpoint)
    ∷ (codes "/healthz", health_endpoint)
    ∷ (codes "/livez", livez_endpoint)
    ∷ []

-- `Handler`: the endpoint that a path is served by, if any.
unfoldable pub handler :
    (List (Bytes × Endpoint) → Bytes → Option Endpoint) → Bytes → Option Endpoint
handler mux path = mux routes path

-- What is written as JSON.
pub data Body : Type 0 where
  error_body : Bytes → Bytes → Body
  ok_body : Body
  summary_body : Ledger.Summary → Body
  breakers_body : List (String × Snapshot) → Body

pub record Response : Type 0 where
  pub content_type : Bytes
  pub status : ℕ
  pub body : Body

unfoldable pub write_json : ℕ → Body → Response
write_json status body = record {
  content_type = codes "application/json";
  status = status;
  body = body;
}

unfoldable pub write_error : ℕ → Bytes → Bytes → Response
unfolding write_json
write_error status code msg = write_json status (error_body code msg)

unfoldable handle_livez : Response
unfolding write_json
handle_livez = write_json 200 ok_body

abbrev code_of : Refusal → Bytes
code_of Handler.server_shutting_down = codes "server_shutting_down"
code_of Handler.not_found = codes "not_found"
code_of Handler.invalid_request_body = codes "invalid_request_body"
code_of Handler.invalid_api_key = codes "invalid_api_key"
code_of Handler.provider_not_allowed = codes "provider_not_allowed"
code_of Handler.budget_exhausted = codes "budget_exhausted"
code_of Handler.rate_limited = codes "rate_limited"

-- `unread` tells the two refusals of a body apart.
abbrev message_of : Bool → Refusal → Bytes
message_of unread Handler.server_shutting_down = codes "server is draining in-flight streams"
message_of unread Handler.not_found = codes "endpoint not found"
message_of unread Handler.invalid_request_body =
    if unread
    then codes "failed to read request body"
    else codes "body must include model and messages"
message_of unread Handler.invalid_api_key = codes "missing or invalid API key"
message_of unread Handler.provider_not_allowed =
    codes "no configured provider is allowed for this key"
message_of unread Handler.budget_exhausted = codes "token budget is exhausted"
message_of unread Handler.rate_limited = codes "rate limit window is saturated"

-- What the checks of `handleStream` write for a refusal.
unfoldable refuse : Bool → Refusal → Response
unfolding write_error status_code
refuse unread r = write_error (status_code r) (code_of r) (message_of unread r)

-- What `handleUsage` and `handleHealth` write; `denied` is the message to who is not authorized.
unfoldable pub write_reply : Bytes → Reply → Response
unfolding write_json write_error
write_reply denied Endpoints.not_found =
    write_error 404 (codes "not_found") (codes "endpoint not found")
write_reply denied Endpoints.unauthorized = write_error 403 (codes "unauthorized") denied
write_reply denied (usage sum) = write_json 200 (summary_body sum)
write_reply denied (health snaps) = write_json 200 (breakers_body snaps)

-- `Breaker`, for a name that may be missing.
unfoldable pub breaker : String → Server → Option ProviderCircuitState
breaker name s = lookup name s.breakers

unfoldable active_sessions : Sessions → ℕ
active_sessions s = length s.active

pub data Dialed {ℓ} (C : Type ℓ) : Type ℓ where
  blocked : DialError → Dialed C
  dialed : C → Dialed C

-- The `DialContext` of `newValidatedTransport`: `dial_context` is the dialler of the package net, and
-- `allow` what the context of the request says.
module _ {ℓ} {C : Type ℓ} (net : Net) (dial_context : Bytes → C) where
  abbrev dial_checked : Dial → Dialed C
  dial_checked (refused e) = blocked e
  dial_checked (dial address) = dialed (dial_context address)

  unfoldable pub validated_transport : Bool → Bytes → Dialed C
  unfolding validated_dial_address
  validated_transport allow address = dial_checked (validated_dial_address net address allow)
