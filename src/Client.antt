-- ===== src/Client.antt =====
-- client-ref/main.go: how the reference client reads a stream (`readFrame`, `extractText`) and what its
-- loop in `main` shows. The stream is a list of bytes that ends with an error, the end of the file among
-- them. What is printed is data: colours and wording are left out, `undim` is the reset that ends the
-- faint output. An event whose JSON is not read is shown with what was read of it, here `none`.
pub mod Request
pub mod Display
use stream_guard.Prelude.{
  ℕ, zero, suc, Bool, true, false, ◌&&◌, ◌||◌, List, [], ◌∷◌, ◌++◌, Option, none, some, eqb, length,
  if◌then◌else◌,
}
use stream_guard.Text.{Bytes, codes, eq_bytes, is_empty, after_prefix, trim_space}
use stream_guard.Protocol.{
  Json, StatusData, FailoverData, TruncatedData, event_status, event_failover, event_regenerating,
  event_truncated,
}

pub record ClientFrame : Type 0 where
  pub event : Bytes
  pub body : Bytes

-- `strings.TrimRight(line, "\r\n")`.
unfoldable pub trim_line : Bytes → Bytes
trim_line [] = []
trim_line (b ∷ bs) =
    let rest = trim_line bs in if (eqb b 13 || eqb b 10) && is_empty rest then [] else b ∷ rest

-- The loop of `readFrame`: its lines and the rest of the stream, or `none` for an error. `line` is what
-- has been read of the current line.
unfoldable pub read_lines : Bytes → List Bytes → Bytes → Option (List Bytes × Bytes)
unfolding trim_line
read_lines line lines [] = none
read_lines line lines (b ∷ bs) = elim (eqb b 10) [
  | false ↦ read_lines (line ++ b ∷ []) lines bs
  | true ↦ elim (is_empty (trim_line line)) [
    | true ↦ some (lines, bs)
    | false ↦ read_lines [] (lines ++ trim_line line ∷ []) bs
  ]
]

abbrev set_event : ClientFrame → Option Bytes → ClientFrame
set_event fr none = fr
set_event fr (some v) = record fr { event = trim_space v }

abbrev set_data : ClientFrame → Option Bytes → ClientFrame
set_data fr none = fr
set_data fr (some v) = record fr { body = trim_space v }

-- The loop over the lines.
unfoldable pub scan_fields : List Bytes → ClientFrame → ClientFrame
unfolding after_prefix trim_space
scan_fields [] fr = fr
scan_fields (line ∷ lines) fr = scan_fields lines (
    set_data (set_event fr (after_prefix (codes "event:") line))
      (after_prefix (codes "data:") line))

abbrev frame_from : Option (List Bytes × Bytes) → Option (ClientFrame × Bytes)
frame_from none = none
frame_from (some (lines, rest)) = some (scan_fields lines (record { event = []; body = [] }), rest)

-- `readFrame`.
unfoldable pub read_frame : Bytes → Option (ClientFrame × Bytes)
unfolding read_lines scan_fields
read_frame stream = frame_from (read_lines [] [] stream)

abbrev first_text : Option (List Bytes) → Bytes
first_text none = []
first_text (some []) = []
first_text (some (text ∷ texts)) = text

unfoldable extract_text : Json → Bytes → Bytes
extract_text j body = first_text (j.to_choices body)

pub data Shown : Type 0 where
  status_line : Option StatusData → Shown
  failover_line : Option FailoverData → Shown
  marker : Shown
  truncated_line : Option TruncatedData → Shown
  undim : Shown
  text : Bytes → Shown

-- A round of the loop: what is shown, and the variable `dimmed`, or `none` for the return.
unfoldable pub show_frame : Json → ClientFrame → Bool → List Shown × Option Bool
unfolding eq_bytes extract_text
show_frame j fr dimmed =
    if eq_bytes fr.event event_status
    then (status_line (j.to_status fr.body) ∷ [], some dimmed)
    else if eq_bytes fr.event event_failover
    then (failover_line (j.to_failover fr.body) ∷ [], some dimmed)
    else if eq_bytes fr.event event_regenerating
    then (marker ∷ [], some true)
    else if eq_bytes fr.event event_truncated
    then (truncated_line (j.to_truncated fr.body) ∷ [], none)
    else if dimmed
    then (undim ∷ text (extract_text j fr.body) ∷ [], some false)
    else (text (extract_text j fr.body) ∷ [], some false)

abbrev pub after_frame : List Shown × Option Bool → (Bool → List Shown) → List Shown
after_frame (out, none) f = out
after_frame (out, some dimmed) f = out ++ f dimmed

-- The loop of `main`, on fuel: every frame takes a byte of the stream at least.
unfoldable pub display : Json → ℕ → Bytes → Bool → List Shown
unfolding read_frame show_frame
display j zero stream dimmed = []
display j (suc n) stream dimmed = elim (read_frame stream) [
  | none ↦ []
  | some (fr, rest) ↦ after_frame (show_frame j fr dimmed) (display j n rest)
]

-- The loop from its start.
unfoldable pub show_stream : Json → Bytes → List Shown
unfolding display
show_stream j stream = display j (length stream) stream false
