-- ===== src/Client/Request.antt =====
-- What client-ref/main.go does before its loop: the prompt, the request and the answer's status; and the
-- marks that it prints. `marshal` writes the request for a prompt as JSON, and `send` is net/http.
use stream_guard.Prelude.{ℕ, Bool, List, [], ◌∷◌, ◌++◌, eqb, if◌then◌else◌}
use stream_guard.Text.{Bytes, codes, is_empty, join, trim_space}

-- The prompt: the arguments, or else the line that is read.
unfoldable pub prompt_of : List Bytes → Bytes → Bytes
unfolding join trim_space
prompt_of args line =
    let prompt = join b' ' args in if is_empty prompt then trim_space line else prompt

pub record Post : Type 0 where
  pub endpoint : Bytes
  pub body : Bytes
  pub authorization : Bytes
  pub content_type : Bytes

unfoldable request_of : (Bytes → Bytes) → Bytes → Bytes → Bytes → Post
request_of marshal endpoint api_key prompt = record {
  endpoint = endpoint;
  body = marshal prompt;
  authorization = codes "Bearer " ++ api_key;
  content_type = codes "application/json";
}

-- What comes of the request: an error, or a status with its text and the body.
pub data Reply : Type 0 where
  unsent : Reply
  replied : ℕ → Bytes → Bytes → Reply

-- How the program goes on: it ends with status 1, with the line it prints for a refusal, or it shows
-- the stream.
data Opened : Type 0 where
  fatal : Opened
  request_failed : Bytes → Opened
  opened : Bytes → Opened

abbrev opened_by : Reply → Opened
opened_by unsent = fatal
opened_by (replied code status body) =
    if eqb code 200
    then opened body
    else request_failed
        (codes "request failed: " ++ (status ++ (codes " " ++ (trim_space body ++ codes "\n"))))

unfoldable open_stream :
    (Bytes → Bytes) → (Post → Reply) → Bytes → Bytes → List Bytes → Bytes → Opened
unfolding prompt_of request_of trim_space
open_stream marshal send endpoint api_key args line =
    opened_by (send (request_of marshal endpoint api_key (prompt_of args line)))

-- The escape character is byte 27.
unfoldable badge : Bytes → Bool → Bytes
badge s no_color =
    if no_color
    then codes "[" ++ (s ++ codes "]")
    else (27 ∷ codes "[36m[") ++ (s ++ (codes "]" ++ (27 ∷ codes "[0m")))

unfoldable faint : Bool → Bytes
faint no_color = if no_color then [] else 27 ∷ codes "[2m"

unfoldable reset : Bool → Bytes
reset no_color = if no_color then [] else 27 ∷ codes "[0m"
