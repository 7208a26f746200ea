-- ===== src/Parser/RoundTrip.antt =====
-- Every event that the gateway sends is read back by the OpenAI reader of internal/parser/parser.go
-- as the event that it is, and an event of any other content is refused.
use stream_guard.Prelude.{
  ℕ, ℤ, pos, true, false, [], ◌∷◌, ◌++◌, some, ltb_ℤ, ◌≡◌, refl, ap, ◌∙◌, ◌≤ℤ◌, arith,
}
use stream_guard.Text.{Bytes, codes, eq_bytes, trim_space}
use stream_guard.Protocol.{
  Json, Payload, status, failover, regenerating, truncated, content, write_sse, write_content,
  event_status, event_failover, event_regenerating, event_truncated, FailoverReason, dead_socket,
  failover_text, TruncatedReason, all_providers_exhausted, truncated_text, validate_failover_reason,
  validate_truncated_reason,
}
use stream_guard.Parser.{Frame, empty_frame, read_raw, interpret, parse_frame, read_frame}
use stream_guard.Parser.Framing.{
  IsLine, IsTrimmed, read_raw-write_sse, parse_frame-write_sse, read_raw-write_content,
  parse_frame-write_content,
}

-- What the documentation of encoding/json says of the text of a struct: an object on one line.
pub record IsObject (text : Bytes) : Type 0 where
  pub line : IsLine text
  pub trimmed : IsTrimmed text
  pub opened : (rest : Bytes) × (text ≡ b'{' ∷ rest)

-- `Unmarshal` of what `Marshal` wrote.
abbrev pub Decodes : Json → Payload → Type 0
Decodes j (status d) = j.to_status (j.marshal (status d)) ≡ some d
Decodes j (failover d) = j.to_failover (j.marshal (failover d)) ≡ some d
Decodes j (regenerating d) = j.to_regenerating (j.marshal (regenerating d)) ≡ some d
Decodes j (truncated d) = j.to_truncated (j.marshal (truncated d)) ≡ some d
Decodes j (content text) = j.to_choices (j.marshal (content text)) ≡ some (text ∷ [])

-- The event that a payload is sent under; content has none.
abbrev pub event_of : Payload → Bytes
event_of (status d) = event_status
event_of (failover d) = event_failover
event_of (regenerating d) = event_regenerating
event_of (truncated d) = event_truncated
event_of (content text) = []

-- The payloads that the server builds.
pub data IsSent : Payload → Type 0 where
  healthy :
      (b : ℕ) (bs : Bytes) → IsSent (status (record { state = codes "healthy"; provider = b ∷ bs }))
  failed_over :
      (r : FailoverReason) (delivered : ℤ) (from to : Bytes) (attempt : ℤ)
      → pos 1 ≤ℤ attempt
      → IsSent (
          failover (record {
            reason = failover_text r;
            tokens_delivered_before_failure = delivered;
            provider_from = from;
            provider_to = to;
            attempt = attempt;
          }))
  kept : IsSent (regenerating (record { keep_partial_visible = true }))
  ended :
      (r : TruncatedReason) (delivered : ℤ)
      → IsSent (
          truncated
            (record { reason = truncated_text r; tokens_delivered = delivered; final = true }))
  text : (t : Bytes) → IsSent (content t)

-- The bytes that a payload is sent as.
unfoldable pub sent : Json → Payload → Bytes
sent j (content t) = write_content j t
sent j p = write_sse j (event_of p) p

abbrev pub text_of : Payload → Bytes
text_of (content t) = t
text_of p = []

abbrev pub frame_of : Json → Payload → Frame
frame_of j p = record empty_frame { event = event_of p; body = j.marshal p; text = text_of p }

not_done : (t : Bytes) → IsObject t → eq_bytes (trim_space t) (codes "[DONE]") ≡ false
unfolding eq_bytes
not_done t o = rw (o.trimmed, o.opened.1) refl

failover_valid : (r : FailoverReason) → validate_failover_reason (failover_text r) ≡ true
unfolding validate_failover_reason
failover_valid dead_socket = refl
failover_valid _ = refl

truncated_valid : (r : TruncatedReason) → validate_truncated_reason (truncated_text r) ≡ true
unfolding validate_truncated_reason
truncated_valid all_providers_exhausted = refl
truncated_valid _ = refl

not_below : (n : ℤ) → pos 1 ≤ℤ n → ltb_ℤ n (pos 1) ≡ false
not_below n h = ground arith

interpret_sent :
    (j : Json) (p : Payload)
    → IsSent p
    → IsObject (j.marshal p)
    → Decodes j p
    → interpret j (codes "openai") (record empty_frame { event = event_of p; body = j.marshal p })
      ≡ some (frame_of j p)
unfolding interpret
interpret_sent j (status d) (healthy b bs) o e = rw (not_done _ o) (rw e)
interpret_sent j (failover d) (failed_over r delivered from to attempt h) o e =
    rw (not_done _ o) (rw (e, failover_valid r, not_below attempt h))
interpret_sent j (regenerating d) kept o e = rw (not_done _ o) (rw e)
interpret_sent j (truncated d) (ended r delivered) o e =
    rw (not_done _ o) (rw (e, truncated_valid r))
interpret_sent j (content t) (text _) o e = rw (not_done _ o) (rw e)

-- The names of the events are words.
pub event_word : (p : Payload) → IsLine (event_of p) × IsTrimmed (event_of p)
unfolding trim_space
event_word (status d) = (ground arith, refl)
event_word (failover d) = (ground arith, refl)
event_word (regenerating d) = (ground arith, refl)
event_word (truncated d) = (ground arith, refl)
event_word (content t) = (tt, refl)

parse_sent :
    (j : Json) (p : Payload)
    → IsObject (j.marshal p)
    → parse_frame j (sent j p) (codes "openai")
      ≡ interpret j (codes "openai") (record empty_frame { event = event_of p; body = j.marshal p })
unfolding sent
parse_sent j (content t) o = parse_frame-write_content j t (codes "openai") o.line o.trimmed
parse_sent j p o =
    let (l, t) = event_word p in
    parse_frame-write_sse j (event_of p) (codes "openai") p l t o.line o.trimmed

read_raw_sent :
    (j : Json) (p : Payload) (rest : Bytes)
    → IsObject (j.marshal p)
    → read_raw [] (sent j p ++ rest) ≡ some (sent j p, rest)
unfolding sent
read_raw_sent j (content t) rest o = read_raw-write_content j t rest o.line
read_raw_sent j p rest o = read_raw-write_sse j (event_of p) p rest (event_word p).0 o.line

-- A stream that begins with a payload that the server builds is read as that payload's frame and the
-- rest, if JSON writes the payload as an object on one line and reads it back.
pub read_frame-sent :
    (j : Json) (p : Payload) (rest : Bytes)
    → IsSent p
    → IsObject (j.marshal p)
    → Decodes j p
    → read_frame j (codes "openai") (sent j p ++ rest) ≡ some (some (frame_of j p), rest)
unfolding read_frame
read_frame-sent j p rest v o e =
    rw (read_raw_sent j p rest o, read_frame)
      (ap (λ f. some (f, rest)) (parse_sent j p o ∙ interpret_sent j p v o e))
