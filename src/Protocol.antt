-- ===== src/Protocol.antt =====
-- internal/protocol/protocol.go: the gateway's events and the bytes that they are sent as. A value
-- of one of the JSON structs is a `Payload`; encoding/json itself is the parameter `Json`.
use stream_guard.Prelude.{ℤ, Bool, ◌||◌, List, [], ◌∷◌, ◌++◌, Option, String}
use stream_guard.Text.{Bytes, codes, eq_bytes}

abbrev pub event_status : Bytes
event_status = codes "gateway_status"

abbrev pub event_failover : Bytes
event_failover = codes "gateway_failover"

abbrev pub event_regenerating : Bytes
event_regenerating = codes "gateway_regenerating"

abbrev pub event_truncated : Bytes
event_truncated = codes "gateway_truncated"

pub data FailoverReason : Type 0 where
  dead_socket silent_hang malformed : FailoverReason

abbrev pub failover_name : FailoverReason → String
failover_name dead_socket = "dead_socket"
failover_name silent_hang = "silent_hang"
failover_name malformed = "malformed"

abbrev pub failover_text : FailoverReason → Bytes
failover_text r = codes (failover_name r)

pub data TruncatedReason : Type 0 where
  all_providers_exhausted budget_exceeded : TruncatedReason

abbrev pub truncated_text : TruncatedReason → Bytes
truncated_text all_providers_exhausted = codes "all_providers_exhausted"
truncated_text budget_exceeded = codes "budget_exceeded"

pub record StatusData : Type 0 where
  pub state : Bytes
  pub provider : Bytes

-- A reason received is any text.
pub record FailoverData : Type 0 where
  pub reason : Bytes
  pub tokens_delivered_before_failure : ℤ
  pub provider_from : Bytes
  pub provider_to : Bytes
  pub attempt : ℤ

pub record RegeneratingData : Type 0 where
  pub keep_partial_visible : Bool

pub record TruncatedData : Type 0 where
  pub reason : Bytes
  pub tokens_delivered : ℤ
  pub final : Bool

-- `content` is the payload of `WriteContent`: one choice with this text.
pub data Payload : Type 0 where
  status : StatusData → Payload
  failover : FailoverData → Payload
  regenerating : RegeneratingData → Payload
  truncated : TruncatedData → Payload
  content : Bytes → Payload

-- encoding/json on the structs of the program: what `Marshal` writes, and what `Unmarshal` reads
-- into each struct, `none` for its error. `choices` are the texts of an OpenAI chunk's choices,
-- `delta` the type and text of an Anthropic one, `usage` its output tokens.
pub record Json : Type 0 where
  pub marshal : Payload → Bytes
  pub to_status : Bytes → Option StatusData
  pub to_failover : Bytes → Option FailoverData
  pub to_regenerating : Bytes → Option RegeneratingData
  pub to_truncated : Bytes → Option TruncatedData
  pub to_choices : Bytes → Option (List Bytes)
  pub to_delta : Bytes → Option (Bytes × Bytes)
  pub to_usage : Bytes → Option ℤ

unfoldable pub validate_failover_reason : Bytes → Bool
unfolding eq_bytes
validate_failover_reason reason =
    eq_bytes reason (codes "dead_socket")
    || (eq_bytes reason (codes "silent_hang") || eq_bytes reason (codes "malformed"))

unfoldable pub validate_truncated_reason : Bytes → Bool
unfolding eq_bytes
validate_truncated_reason reason =
    eq_bytes reason (codes "all_providers_exhausted") || eq_bytes reason (codes "budget_exceeded")

-- The bytes written; `Marshal` does not fail on these structs.
unfoldable pub write_sse : Json → Bytes → Payload → Bytes
write_sse j event payload =
    codes "event: "
    ++ (event ++ (b'\n' ∷ codes "data: " ++ (j.marshal payload ++ b'\n' ∷ b'\n' ∷ [])))

unfoldable pub write_content : Json → Bytes → Bytes
write_content j text = codes "data: " ++ (j.marshal (content text) ++ b'\n' ∷ b'\n' ∷ [])
