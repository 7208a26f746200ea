-- ===== src/Tests/Wire.antt =====
-- A stand-in for encoding/json that knows two kinds of payload, and the frames that it makes.
use stream_guard.Prelude.{true, [], ◌∷◌, ◌++◌, none, some, if◌then◌else◌, ◌≡◌, refl, arith}
use stream_guard.Text.{Bytes, codes, eq_bytes}
use stream_guard.Protocol.{Json, Payload, regenerating, content, write_content}
use stream_guard.Parser.{read_frame}
use stream_guard.Parser.RoundTrip.{IsObject, kept, sent, frame_of, read_frame-sent}

abbrev kept_object : Bytes
kept_object = codes "{\"keep_partial_visible\":true}"

abbrev toy_marshal : Payload → Bytes
toy_marshal (content t) = codes "{\"choices\":1}"
toy_marshal p = kept_object

abbrev toy : Json
toy = record {
  marshal = toy_marshal;
  to_status = λ b. none;
  to_failover = λ b. none;
  to_regenerating =
      λ b. if eq_bytes b kept_object then some (record { keep_partial_visible = true }) else none;
  to_truncated = λ b. none;
  to_choices = λ b. some (codes "Hi" ∷ []);
  to_delta = λ b. none;
  to_usage = λ b. none;
}

abbrev keeping : Payload
keeping = regenerating (record { keep_partial_visible = true })

abbrev tail : Bytes
tail = codes "data: [DONE]"

kept_object-IsObject : IsObject kept_object
unfolding stream_guard.Text.trim_space
kept_object-IsObject = record {
  line = ground arith;
  trimmed = refl;
  opened = (codes "\"keep_partial_visible\":true}", refl);
}

keeping_decodes :
    toy.to_regenerating (toy.marshal keeping) ≡ some (record { keep_partial_visible = true })
unfolding eq_bytes
keeping_decodes = refl

read_frame-sent_example :
    read_frame toy (codes "openai") (sent toy keeping ++ tail)
    ≡ some (some (frame_of toy keeping), tail)
read_frame-sent_example = read_frame-sent toy keeping tail kept kept_object-IsObject keeping_decodes

read_frame_run :
    read_frame toy (codes "openai") (sent toy (content (codes "Hi")) ++ tail)
    ≡ some (some (frame_of toy (content (codes "Hi"))), tail)
unfolding read_frame sent write_content
read_frame_run = refl
