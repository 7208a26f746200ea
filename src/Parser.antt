-- ===== src/Parser.antt =====
-- internal/parser/parser.go: frames of an upstream's event stream. JSON decoding is the parameter
-- `Json` of Protocol.antt.
pub mod Next
pub mod Framing
pub mod RoundTrip
use stream_guard.Prelude.{
  ℕ, ℤ, pos, Bool, true, false, not, ◌&&◌, ◌||◌, List, [], ◌∷◌, ◌++◌, Option, none, some, ltb_ℤ,
  eqb, if◌then◌else◌,
}
use stream_guard.Text.{
  Bytes, codes, eq_bytes, is_empty, after_prefix, trim_space, to_lower, replace_crlf, split, join,
}
use stream_guard.Protocol.{
  Json, StatusData, FailoverData, RegeneratingData, TruncatedData, event_status, event_failover,
  event_regenerating, event_truncated, validate_failover_reason, validate_truncated_reason,
}

pub record Frame : Type 0 where
  pub event : Bytes
  pub body : Bytes  -- `Data`
  pub text : Bytes
  pub usage_tokens : ℤ
  pub has_usage : Bool

abbrev pub empty_frame : Frame
empty_frame = record { event = []; body = []; text = []; usage_tokens = pos 0; has_usage = false }

-- `none` is ErrMalformed.
abbrev Parsed : Type 0
Parsed = Option Frame

-- The format that a reader settles on.
unfoldable reader_format : Bytes → Bytes
unfolding to_lower trim_space eq_bytes
reader_format format =
    let f = to_lower (trim_space format) in
    if is_empty f || eq_bytes f (codes "mock") then codes "openai" else f

-- The loop over the lines: the last `event:` counts, and all `data:`.
unfoldable pub scan_lines : List Bytes → Bytes → List Bytes → Bytes × List Bytes
unfolding after_prefix trim_space
scan_lines [] event fields = (event, fields)
scan_lines (line ∷ lines) event fields =
    scan_lines lines
      (elim (after_prefix (codes "event:") line) [ none ↦ event | some v ↦ trim_space v ])
      (elim (after_prefix (codes "data:") line) [
        | none ↦ fields
        | some v ↦ fields ++ trim_space v ∷ []
      ])

-- `extractContent`: the first choice, if any.
abbrev first_choice : List Bytes → Bytes
first_choice [] = []
first_choice (text ∷ rest) = text

unfoldable extract_content : Json → Bytes → Option Bytes
extract_content j body = elim (j.to_choices body) [
  | none ↦ none
  | some choices ↦ some (first_choice choices)
]

-- Whether the frame is one of the gateway's own events, well formed.
unfoldable validate_gateway_event : Json → Frame → Bool
unfolding eq_bytes validate_failover_reason validate_truncated_reason
validate_gateway_event j frame =
    if eq_bytes frame.event event_status
    then elim (j.to_status frame.body) [
      | none ↦ false
      | some v ↦ eq_bytes v.state (codes "healthy") && not (is_empty v.provider)
    ]
    else if eq_bytes frame.event event_failover
    then elim (j.to_failover frame.body) [
      | none ↦ false
      | some v ↦ validate_failover_reason v.reason && not (ltb_ℤ v.attempt (pos 1))
    ]
    else if eq_bytes frame.event event_regenerating
    then elim (j.to_regenerating frame.body) [ none ↦ false | some v ↦ v.keep_partial_visible ]
    else if eq_bytes frame.event event_truncated
    then elim (j.to_truncated frame.body) [
      | none ↦ false
      | some v ↦ validate_truncated_reason v.reason && v.final
    ]
    else false

abbrev with_delta : Frame → Bytes × Bytes → Frame
with_delta frame (typ, text) =
    if eq_bytes typ (codes "text_delta") then record frame { event = []; text = text } else frame

abbrev with_usage : Frame → ℤ → Frame
with_usage frame n =
    if ltb_ℤ (pos 0) n then record frame { usage_tokens = n; has_usage = true } else frame

unfoldable parse_anthropic_frame : Json → Frame → Option Frame
unfolding eq_bytes
parse_anthropic_frame j frame =
    if eq_bytes frame.event (codes "content_block_delta")
    then elim (j.to_delta frame.body) [ none ↦ none | some d ↦ some (with_delta frame d) ]
    else if eq_bytes frame.event (codes "message_delta")
    then elim (j.to_usage frame.body) [ none ↦ none | some n ↦ some (with_usage frame n) ]
    else if eq_bytes frame.event (codes "message_stop")
    then some (record frame { event = codes "done" })
    else if eq_bytes frame.event (codes "error")
    then none
    else some frame

-- What follows the loop, on a frame with its event and its joined data.
unfoldable pub interpret : Json → Bytes → Frame → Option Frame
unfolding eq_bytes trim_space to_lower parse_anthropic_frame extract_content validate_gateway_event
interpret j format frame =
    if eq_bytes (trim_space frame.body) (codes "[DONE]")
    then some (record frame { event = codes "done" })
    else if eq_bytes (to_lower (trim_space format)) (codes "anthropic")
    then parse_anthropic_frame j frame
    else if is_empty frame.event
    then elim (extract_content j frame.body) [
      | none ↦ none
      | some text ↦ some (record frame { text = text })
    ]
    else if validate_gateway_event j frame
    then some frame
    else none

abbrev join_fields : Json → Bytes → Bytes × List Bytes → Option Frame
join_fields j format (event, []) = none
join_fields j format (event, field ∷ fields) =
    interpret j format (record empty_frame { event = event; body = join b'\n' (field ∷ fields) })

-- `ParseFrameForProvider`.
unfoldable pub parse_frame : Json → Bytes → Bytes → Option Frame
unfolding scan_lines split replace_crlf interpret join
parse_frame j raw format = join_fields j format (scan_lines (split b'\n' (replace_crlf raw)) [] [])

-- Whether the buffer, its last byte first, ends in a blank line.
unfoldable ends_frame : Bytes → Bool
ends_frame (a ∷ b ∷ rest) =
    eqb a b'\n'
    && (eqb b b'\n'
        || eqb b b'\r' && elim rest [
          | [] ↦ false
          | c ∷ more ↦ eqb c b'\n' && elim more [ [] ↦ false | d ∷ _ ↦ eqb d b'\r' ]
        ])
ends_frame _ = false

-- A list put, reversed, in front of another.
unfoldable pub rev_onto : Bytes → Bytes → Bytes
rev_onto [] acc = acc
rev_onto (b ∷ bs) acc = rev_onto bs (b ∷ acc)

-- The loop of `readFrame` on the bytes still to come, with the buffer's last byte first: the raw
-- frame and what is left, or `none` at the end of the stream with an empty buffer.
unfoldable pub read_raw : Bytes → Bytes → Option (Bytes × Bytes)
unfolding ends_frame rev_onto
read_raw [] [] = none
read_raw (b ∷ buf) [] = some (rev_onto (b ∷ buf) [], [])
read_raw buf (b ∷ bs) =
    let rest = read_raw (b ∷ buf) bs in
    if ends_frame (b ∷ buf) then some (rev_onto (b ∷ buf) [], bs) else rest

-- What one call of `readFrame` gives: the end of the stream, or a frame (`none` if malformed) and
-- the rest of the stream.
unfoldable pub read_frame : Json → Bytes → Bytes → Option (Option Frame × Bytes)
unfolding read_raw parse_frame
read_frame j format stream = elim (read_raw [] stream) [
  | none ↦ none
  | some (raw, rest) ↦ some (parse_frame j raw format, rest)
]
