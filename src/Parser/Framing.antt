-- ===== src/Parser/Framing.antt =====
-- Reading back what internal/protocol/protocol.go writes: internal/parser/parser.go cuts the stream
-- at each frame and finds its event and its payload.
use stream_guard.Prelude.{
  ℕ, [], ◌∷◌, ◌++◌, some, ◌≡◌, ◌≢◌, refl, ap, ap₂, ◌∙◌, arith, All, All-append, append_assoc,
}
use stream_guard.Text.{Bytes, codes, trim_space, replace_crlf, split}
use stream_guard.Text.Laws.{Lacks, split-piece}
use stream_guard.Protocol.{Json, Payload, content, write_sse, write_content}
use stream_guard.Parser.{
  empty_frame, join_fields, scan_lines, interpret, parse_frame, rev_onto, read_raw,
}

-- A text that fits on a line: no line feed and no carriage return.
abbrev pub IsLine : Bytes → Type 0
IsLine = All λ b. (b ≢ b'\n') × (b ≢ b'\r')

rev_onto-rev_onto : (xs buf acc : Bytes) → rev_onto (rev_onto xs buf) acc ≡ rev_onto buf (xs ++ acc)
unfolding rev_onto
rev_onto-rev_onto [] buf acc = refl
rev_onto-rev_onto (x ∷ xs) buf acc = rev_onto-rev_onto xs (x ∷ buf) acc

read_raw-byte : (b : ℕ) (buf bs : Bytes) → b ≢ b'\n' → read_raw buf (b ∷ bs) ≡ read_raw (b ∷ buf) bs
unfolding read_raw
read_raw-byte b [] bs h = ground arith
read_raw-byte b (c ∷ buf) bs h = ground arith

read_raw-newline :
    (c : ℕ) (buf bs : Bytes)
    → c ≢ b'\n'
    → c ≢ b'\r'
    → read_raw (c ∷ buf) (b'\n' ∷ bs) ≡ read_raw (b'\n' ∷ c ∷ buf) bs
unfolding read_raw
read_raw-newline c buf bs h k = ground arith

-- A line that is not empty never ends the frame.
read_raw-line :
    (c : ℕ) (xs buf bs : Bytes)
    → IsLine (c ∷ xs)
    → read_raw (c ∷ buf) (xs ++ b'\n' ∷ bs) ≡ read_raw (b'\n' ∷ rev_onto xs (c ∷ buf)) bs
unfolding rev_onto
read_raw-line c [] buf bs h = read_raw-newline c buf bs h.0.0 h.0.1
read_raw-line c (x ∷ xs) buf bs h =
    read_raw-byte x (c ∷ buf) (xs ++ b'\n' ∷ bs) h.1.0.0 ∙ read_raw-line x xs (c ∷ buf) bs h.1

-- The blank line after it does.
read_raw-blank :
    (buf bs : Bytes)
    → read_raw (b'\n' ∷ buf) (b'\n' ∷ bs) ≡ some (rev_onto (b'\n' ∷ b'\n' ∷ buf) [], bs)
unfolding read_raw
read_raw-blank buf bs = refl

replace_crlf-Lacks : (xs : Bytes) → Lacks b'\r' xs → replace_crlf xs ≡ xs
unfolding replace_crlf
replace_crlf-Lacks [] h = refl
replace_crlf-Lacks (x ∷ []) h = refl
replace_crlf-Lacks (x ∷ y ∷ xs) h = ground (arith, replace_crlf-Lacks (y ∷ xs) h.1)

-- A frame of one line.
read_raw-one :
    (c : ℕ) (xs rest : Bytes)
    → IsLine (c ∷ xs)
    → read_raw [] (c ∷ xs ++ b'\n' ∷ b'\n' ∷ rest) ≡ some (c ∷ xs ++ b'\n' ∷ b'\n' ∷ [], rest)
unfolding rev_onto
read_raw-one c xs rest h =
    read_raw-byte c [] _ h.0.0
    ∙ read_raw-line c xs [] (b'\n' ∷ rest) h
    ∙ read_raw-blank (rev_onto xs (c ∷ [])) rest
    ∙ ap (λ t. some (t, rest)) (rev_onto-rev_onto xs (c ∷ []) (b'\n' ∷ b'\n' ∷ []))

-- A frame of two.
read_raw-two :
    (c d : ℕ) (xs ys rest : Bytes)
    → IsLine (c ∷ xs)
    → IsLine (d ∷ ys)
    → read_raw [] (c ∷ (xs ++ b'\n' ∷ d ∷ (ys ++ b'\n' ∷ b'\n' ∷ rest)))
      ≡ some (c ∷ (xs ++ b'\n' ∷ d ∷ (ys ++ b'\n' ∷ b'\n' ∷ [])), rest)
unfolding rev_onto
read_raw-two c d xs ys rest h k =
    let first = rev_onto xs (c ∷ []) in
    read_raw-byte c [] _ h.0.0
    ∙ read_raw-line c xs [] _ h
    ∙ read_raw-byte d (b'\n' ∷ first) _ k.0.0
    ∙ read_raw-line d ys (b'\n' ∷ first) (b'\n' ∷ rest) k
    ∙ read_raw-blank (rev_onto ys (d ∷ b'\n' ∷ first)) rest
    ∙ ap (λ t. some (t, rest))
        (rev_onto-rev_onto ys (d ∷ b'\n' ∷ first) (b'\n' ∷ b'\n' ∷ [])
          ∙ rev_onto-rev_onto xs (c ∷ []) (b'\n' ∷ d ∷ (ys ++ b'\n' ∷ b'\n' ∷ [])))

pub event-IsLine : (event : Bytes) → IsLine event → IsLine (codes "event: " ++ event)
event-IsLine event h =
    All-append (λ b. (b ≢ b'\n') × (b ≢ b'\r')) (codes "event: ") event (ground arith) h

pub data-IsLine : (body : Bytes) → IsLine body → IsLine (codes "data: " ++ body)
data-IsLine body h =
    All-append (λ b. (b ≢ b'\n') × (b ≢ b'\r')) (codes "data: ") body (ground arith) h

-- An event whose name and payload fit on a line is cut off the stream exactly, whatever follows it.
pub read_raw-write_sse :
    (j : Json) (event : Bytes) (p : Payload) (rest : Bytes)
    → IsLine event
    → IsLine (j.marshal p)
    → read_raw [] (write_sse j event p ++ rest) ≡ some (write_sse j event p, rest)
unfolding write_sse
read_raw-write_sse j event p rest he hp = simp append_assoc (
    read_raw-two b'e' b'd' (codes "vent: " ++ event) (codes "ata: " ++ j.marshal p) rest
      (event-IsLine event he) (data-IsLine (j.marshal p) hp))

-- A content chunk whose payload fits on a line is cut off the stream exactly, whatever follows it.
pub read_raw-write_content :
    (j : Json) (text rest : Bytes)
    → IsLine (j.marshal (content text))
    → read_raw [] (write_content j text ++ rest) ≡ some (write_content j text, rest)
unfolding write_content
read_raw-write_content j text rest hp = simp append_assoc (
    read_raw-one b'd' (codes "ata: " ++ j.marshal (content text)) rest
      (data-IsLine (j.marshal (content text)) hp))

IsLine-Lacks_cr : (xs : Bytes) → IsLine xs → Lacks b'\r' xs
IsLine-Lacks_cr [] h = tt
IsLine-Lacks_cr (x ∷ xs) h = (h.0.1, IsLine-Lacks_cr xs h.1)

IsLine-Lacks_lf : (xs : Bytes) → IsLine xs → Lacks b'\n' xs
IsLine-Lacks_lf [] h = tt
IsLine-Lacks_lf (x ∷ xs) h = (h.0.0, IsLine-Lacks_lf xs h.1)

end_Lacks_cr : (m : Bytes) → IsLine m → Lacks b'\r' (m ++ b'\n' ∷ b'\n' ∷ [])
end_Lacks_cr m h = All-append (λ b. b ≢ b'\r') m _ (IsLine-Lacks_cr m h) (ground arith)

-- The lines of an event.
sse_lines :
    (l m : Bytes)
    → IsLine l
    → IsLine m
    → split b'\n' (replace_crlf (l ++ b'\n' ∷ (m ++ b'\n' ∷ b'\n' ∷ []))) ≡ l ∷ m ∷ [] ∷ [] ∷ []
unfolding split
sse_lines l m hl hm =
    rw
      (replace_crlf-Lacks (l ++ b'\n' ∷ (m ++ b'\n' ∷ b'\n' ∷ [])) (
        All-append (λ b. b ≢ b'\r') l _ (IsLine-Lacks_cr l hl)
          ((λ e. omega arith), end_Lacks_cr m hm)))
      (split-piece b'\n' l (m ++ b'\n' ∷ b'\n' ∷ []) (IsLine-Lacks_lf l hl)
        ∙ ap (◌∷◌ l) (split-piece b'\n' m (b'\n' ∷ []) (IsLine-Lacks_lf m hm)))

content_lines :
    (m : Bytes) → IsLine m → split b'\n' (replace_crlf (m ++ b'\n' ∷ b'\n' ∷ [])) ≡ m ∷ [] ∷ [] ∷ []
unfolding split
content_lines m hm =
    rw (replace_crlf-Lacks (m ++ b'\n' ∷ b'\n' ∷ []) (end_Lacks_cr m hm))
      (split-piece b'\n' m (b'\n' ∷ []) (IsLine-Lacks_lf m hm))

-- A text with no white space at either end.
abbrev pub IsTrimmed : Bytes → Type 0
IsTrimmed s = trim_space s ≡ s

scan_sse :
    (event body : Bytes)
    → scan_lines ((codes "event: " ++ event) ∷ (codes "data: " ++ body) ∷ [] ∷ [] ∷ []) [] []
      ≡ (trim_space event, trim_space body ∷ [])
unfolding scan_lines
scan_sse event body = refl

scan_content :
    (body : Bytes)
    → scan_lines ((codes "data: " ++ body) ∷ [] ∷ [] ∷ []) [] [] ≡ ([], trim_space body ∷ [])
unfolding scan_lines
scan_content body = refl

-- What the parser makes of an event that the gateway wrote.
pub parse_frame-write_sse :
    (j : Json) (event format : Bytes) (p : Payload)
    → IsLine event
    → IsTrimmed event
    → IsLine (j.marshal p)
    → IsTrimmed (j.marshal p)
    → parse_frame j (write_sse j event p) format
      ≡ interpret j format (record empty_frame { event = event; body = j.marshal p })
unfolding write_sse parse_frame
parse_frame-write_sse j event format p he te hp tp =
    ap (λ ls. join_fields j format (scan_lines ls [] []))
      (sse_lines (codes "event: " ++ event) (codes "data: " ++ j.marshal p) (event-IsLine event he)
        (data-IsLine (j.marshal p) hp))
    ∙ ap (join_fields j format) (scan_sse event (j.marshal p) ∙ ap₂ (λ e b. (e, b ∷ [])) te tp)

-- What the parser makes of a content chunk that the gateway wrote.
pub parse_frame-write_content :
    (j : Json) (text format : Bytes)
    → IsLine (j.marshal (content text))
    → IsTrimmed (j.marshal (content text))
    → parse_frame j (write_content j text) format
      ≡ interpret j format (record empty_frame { body = j.marshal (content text) })
unfolding write_content parse_frame
parse_frame-write_content j text format hp tp =
    ap (λ ls. join_fields j format (scan_lines ls [] []))
      (content_lines (codes "data: " ++ j.marshal (content text))
        (data-IsLine (j.marshal (content text)) hp))
    ∙ ap (join_fields j format)
        (scan_content (j.marshal (content text)) ∙ ap (λ b. ([], b ∷ [])) tp)
