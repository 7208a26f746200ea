-- ===== src/Client/Display.antt =====
-- What the reference client (client-ref/main.go) shows of what the server sends.
use stream_guard.Prelude.{
  ℕ, zero, suc, ◌≤◌, Bool, true, false, List, [], ◌∷◌, ◌++◌, Option, none, some, eqb, length,
  length-append, All, append_assoc, append-nil, ◌≡◌, ◌≢◌, refl, ap, ap₂, ◌∙◌, arith,
}
use stream_guard.Text.{Bytes, codes, is_empty}
use stream_guard.Protocol.{
  Json, Payload, status, failover, regenerating, truncated, content, write_sse, write_content,
}
use stream_guard.Parser.Framing.{IsLine, event-IsLine, data-IsLine}
use stream_guard.Parser.RoundTrip.{IsObject, Decodes, event_of, sent, event_word}
use stream_guard.Client.{
  ClientFrame, trim_line, read_lines, scan_fields, read_frame, Shown, status_line, failover_line,
  marker, truncated_line, undim, text, show_frame, after_frame, display, show_stream,
}

trim_line-IsLine : (xs : Bytes) → IsLine xs → trim_line xs ≡ xs
unfolding trim_line
trim_line-IsLine [] h = refl
trim_line-IsLine (x ∷ xs) h = ground (arith, trim_line-IsLine xs h.1)

not_lf : (b : ℕ) → b ≢ b'\n' → eqb b 10 ≡ false
not_lf b h = ground arith

-- The bytes of a line are collected up to its line feed.
read_lines-bytes :
    (xs line : Bytes) (lines : List Bytes) (bs : Bytes)
    → IsLine xs
    → read_lines line lines (xs ++ b'\n' ∷ bs) ≡ read_lines (line ++ xs) lines (b'\n' ∷ bs)
unfolding read_lines
read_lines-bytes [] line lines bs h = rw (append-nil line) refl
read_lines-bytes (x ∷ xs) line lines bs h =
    rw (not_lf x h.0.0, read_lines)
      (read_lines-bytes xs (line ++ x ∷ []) lines bs h.1
        ∙ ap (λ l. read_lines l lines (b'\n' ∷ bs)) (append_assoc line (x ∷ []) xs))

-- The test of a line that is not empty.
line_ends :
    (x : ℕ) (xs : Bytes) (lines : List Bytes) (bs l : Bytes)
    → l ≡ x ∷ xs
    → elim (is_empty l) [ true ↦ some (lines, bs) | false ↦ read_lines [] (lines ++ l ∷ []) bs ]
      ≡ read_lines [] (lines ++ (x ∷ xs) ∷ []) bs
line_ends x xs lines bs l e =
    ap
      (λ t. elim (is_empty t) as (λ b. Option (List Bytes × Bytes)) [
        | true ↦ some (lines, bs)
        | false ↦ read_lines [] (lines ++ t ∷ []) bs
      ])
      e

-- A line that is not empty is added.
read_lines-line :
    (x : ℕ) (xs : Bytes) (lines : List Bytes) (bs : Bytes)
    → IsLine (x ∷ xs)
    → read_lines [] lines (x ∷ xs ++ b'\n' ∷ bs) ≡ read_lines [] (lines ++ (x ∷ xs) ∷ []) bs
unfolding read_lines
read_lines-line x xs lines bs h =
    read_lines-bytes (x ∷ xs) [] lines bs h
    ∙ line_ends x xs lines bs (trim_line (x ∷ xs)) (trim_line-IsLine (x ∷ xs) h)

read_lines-blank :
    (lines : List Bytes) (bs : Bytes) → read_lines [] lines (b'\n' ∷ bs) ≡ some (lines, bs)
unfolding read_lines trim_line
read_lines-blank lines bs = refl

abbrev frame_of : Json → Payload → ClientFrame
frame_of j p = record { event = event_of p; body = j.marshal p }

-- An event, and a content chunk.
read_sse :
    (j : Json) (event : Bytes) (p : Payload) (rest : Bytes)
    → IsLine event
    → IsLine (j.marshal p)
    → read_lines [] [] (write_sse j event p ++ rest)
      ≡ some ((codes "event: " ++ event) ∷ (codes "data: " ++ j.marshal p) ∷ [], rest)
unfolding write_sse
read_sse j event p rest he hp = simp append_assoc (
    read_lines-line b'e' (codes "vent: " ++ event) []
      (codes "data: " ++ j.marshal p ++ b'\n' ∷ b'\n' ∷ rest) (event-IsLine event he)
    ∙ read_lines-line b'd' (codes "ata: " ++ j.marshal p) ((codes "event: " ++ event) ∷ [])
        (b'\n' ∷ rest) (data-IsLine (j.marshal p) hp)
    ∙ read_lines-blank _ rest)

read_content :
    (j : Json) (t rest : Bytes)
    → IsLine (j.marshal (content t))
    → read_lines [] [] (write_content j t ++ rest)
      ≡ some ((codes "data: " ++ j.marshal (content t)) ∷ [], rest)
unfolding write_content
read_content j t rest hp = simp append_assoc (
    read_lines-line b'd' (codes "ata: " ++ j.marshal (content t)) [] (b'\n' ∷ rest)
      (data-IsLine (j.marshal (content t)) hp)
    ∙ read_lines-blank _ rest)

read_frame-sse :
    (j : Json) (p : Payload) (rest : Bytes)
    → IsObject (j.marshal p)
    → read_frame (write_sse j (event_of p) p ++ rest) ≡ some (frame_of j p, rest)
unfolding read_frame scan_fields
read_frame-sse j p rest o =
    let (l, t) = event_word p in
    rw (read_sse j (event_of p) p rest l o.line)
      (ap₂ (λ e b. some (record { event = e; body = b }, rest)) t o.trimmed)

read_frame-content :
    (j : Json) (t rest : Bytes)
    → IsObject (j.marshal (content t))
    → read_frame (write_content j t ++ rest) ≡ some (frame_of j (content t), rest)
unfolding read_frame scan_fields
read_frame-content j t rest o =
    rw (read_content j t rest o.line)
      (ap (λ b. some (record { event = []; body = b }, rest)) o.trimmed)

-- The client reads the frame of every payload that the server sends.
read_frame-sent :
    (j : Json) (p : Payload) (rest : Bytes)
    → IsObject (j.marshal p)
    → read_frame (sent j p ++ rest) ≡ some (frame_of j p, rest)
unfolding sent
read_frame-sent j (content t) rest o = read_frame-content j t rest o
read_frame-sent j p rest o = read_frame-sse j p rest o

-- What the client is to show of a payload, and whether what follows is to be undimmed first.
abbrev shown_of : Payload → Bool → List Shown × Option Bool
shown_of (status d) dimmed = (status_line (some d) ∷ [], some dimmed)
shown_of (failover d) dimmed = (failover_line (some d) ∷ [], some dimmed)
shown_of (regenerating d) dimmed = (marker ∷ [], some true)
shown_of (truncated d) dimmed = (truncated_line (some d) ∷ [], none)
shown_of (content t) true = (undim ∷ text t ∷ [], some false)
shown_of (content t) false = (text t ∷ [], some false)

-- Payload by payload, up to the first that says that the stream was truncated.
abbrev pub shown : List Payload → Bool → List Shown
shown [] dimmed = []
shown (p ∷ ps) dimmed = after_frame (shown_of p dimmed) (shown ps)

show_frame-sent :
    (j : Json) (p : Payload) (dimmed : Bool)
    → Decodes j p
    → show_frame j (frame_of j p) dimmed ≡ shown_of p dimmed
unfolding show_frame
show_frame-sent j (status d) dimmed e = rw e refl
show_frame-sent j (failover d) dimmed e = rw e refl
show_frame-sent j (regenerating d) dimmed e = refl
show_frame-sent j (truncated d) dimmed e = rw e refl
show_frame-sent j (content t) true e = rw e refl
show_frame-sent j (content t) false e = rw e refl

-- The bytes of a stream.
abbrev pub sent_all : Json → List Payload → Bytes
sent_all j [] = []
sent_all j (p ∷ ps) = sent j p ++ sent_all j ps

-- What JSON does with a payload: one line, and read back.
abbrev pub IsCarried : Json → Payload → Type 0
IsCarried j p = IsObject (j.marshal p) × Decodes j p

after_frame_agree :
    (r : List Shown × Option Bool) (f g : Bool → List Shown)
    → ((dimmed : Bool) → f dimmed ≡ g dimmed)
    → after_frame r f ≡ after_frame r g
after_frame_agree (out, none) f g h = refl
after_frame_agree (out, some dimmed) f g h = ap (λ l. out ++ l) (h dimmed)

display-sent :
    (j : Json) (ps : List Payload) (n : ℕ) (dimmed : Bool)
    → All (IsCarried j) ps
    → length ps ≤ n
    → display j n (sent_all j ps) dimmed ≡ shown ps dimmed
unfolding display read_frame read_lines
display-sent j [] zero dimmed h fuel = refl
display-sent j [] (suc n) dimmed h fuel = refl
display-sent j (p ∷ ps) zero dimmed h fuel = absurd (omega arith)
display-sent j (p ∷ ps) (suc n) dimmed h fuel =
    rw (read_frame-sent j p (sent_all j ps) h.0.0, display)
      (ap (λ r. after_frame r (display j n (sent_all j ps))) (show_frame-sent j p dimmed h.0.1)
        ∙ after_frame_agree (shown_of p dimmed) (display j n (sent_all j ps)) (shown ps)
            (λ d. display-sent j ps n d h.1 (omega arith)))

length-sent : (j : Json) (p : Payload) → 1 ≤ length (sent j p)
unfolding sent write_sse write_content
length-sent j (content t) = omega arith
length-sent j (status d) = omega arith
length-sent j (failover d) = omega arith
length-sent j (regenerating d) = omega arith
length-sent j (truncated d) = omega arith

length-sent_all : (j : Json) (ps : List Payload) → length ps ≤ length (sent_all j ps)
length-sent_all j [] = omega arith
length-sent_all j (p ∷ ps) =
    omega (arith, length-append (sent j p) (sent_all j ps), length-sent j p, length-sent_all j ps)

-- Let JSON write every payload of a stream as an object on one line and read it back. Then the client
-- shows of the stream exactly its payloads, in order, each text as it was sent, up to the first that says
-- that the stream was truncated; the first text after a regeneration is undimmed.
pub show_stream-sent :
    (j : Json) (ps : List Payload)
    → All (IsCarried j) ps
    → show_stream j (sent_all j ps) ≡ shown ps false
unfolding show_stream
show_stream-sent j ps h = display-sent j ps _ false h (length-sent_all j ps)
