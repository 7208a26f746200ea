-- ===== src/Server/Handler.antt =====
-- The checks of `handleStream` in internal/server/server.go before the first provider is tried, in
-- their order. The JSON of the request is read by a parameter, `decode`: the model, and whether there
-- are messages. Registering the session comes after them.
pub mod Admission
pub mod Asked
use stream_guard.Prelude.{
  ℕ, ℤ, Bool, true, false, not, ◌||◌, List, [], ◌∷◌, Option, none, some, String, ◌==◌,
  if◌then◌else◌,
}
use stream_guard.Text.{Bytes, codes, after_prefix, trim_space, is_empty}
use stream_guard.Budget.{ApiKeyRecord, exhausted, contains}
use stream_guard.Auth
use stream_guard.RateLimit.{Limiter}
use stream_guard.RateLimit
use stream_guard.Config.{Provider}

pub data Refusal : Type 0 where
  server_shutting_down not_found invalid_request_body invalid_api_key : Refusal
  provider_not_allowed budget_exhausted rate_limited : Refusal

-- The HTTP status that `writeError` gets.
unfoldable pub status_code : Refusal → ℕ
status_code server_shutting_down = 503
status_code not_found = 404
status_code invalid_request_body = 400
status_code invalid_api_key = 401
status_code provider_not_allowed = 403
status_code budget_exhausted = 429
status_code rate_limited = 429

-- `body` is `none` if reading it fails.
pub record Request : Type 0 where
  pub is_post : Bool
  pub body : Option Bytes
  pub authorization : Bytes

pub record Gate : Type 0 where
  pub draining : Bool
  pub providers : List Provider
  pub auth : Auth.Store
  pub limiter : Limiter

pub data Answer : Type 0 where
  refused : Refusal → Answer
  admitted : Bytes → ApiKeyRecord → List Provider → Answer

abbrev pub nonempty : Bytes → Option Bytes
nonempty token = if is_empty token then none else some token

abbrev pub token_of : Option Bytes → Option Bytes
token_of none = none
token_of (some rest) = nonempty (trim_space rest)

unfoldable pub bearer : Bytes → Option Bytes
unfolding after_prefix
bearer v = token_of (after_prefix (codes "Bearer ") v)

unfoldable pub allowed_providers : List Provider → List String → List Provider
unfolding contains
allowed_providers [] allow = []
allowed_providers (p ∷ ps) allow =
    let rest = allowed_providers ps allow in if contains allow p.name then p ∷ rest else rest

abbrev pub model_of : Option (Bytes × Bool) → Option Bytes
model_of none = none
model_of (some (model, has_messages)) =
    if is_empty model || not has_messages then none else some model

-- The key, once found, with its providers: its budget and its window.
unfoldable pub check_key : ℤ → Gate → Bytes → ApiKeyRecord → List Provider → Gate × Answer
unfolding exhausted
check_key now g model key [] = (g, refused provider_not_allowed)
check_key now g model key (p ∷ ps) =
    if exhausted key
    then (g, refused budget_exhausted)
    else let (limiter, ok) = RateLimit.admit key.key_hash now g.limiter in
      (
        record g { limiter = limiter },
        if ok then admitted model key (p ∷ ps) else refused rate_limited,
      )

abbrev pub check_found : ℤ → Gate → Bytes → Option ApiKeyRecord → Gate × Answer
check_found now g model none = (g, refused invalid_api_key)
check_found now g model (some key) =
    check_key now g model key (allowed_providers g.providers key.provider_allowlist)

-- `find` is the lookup of a bearer token.
abbrev pub check_token :
    (Bytes → Option ApiKeyRecord) → ℤ → Gate → Bytes → Option Bytes → Gate × Answer
check_token find now g model none = (g, refused invalid_api_key)
check_token find now g model (some raw) = check_found now g model (find raw)

abbrev pub check_model :
    (Bytes → Option ApiKeyRecord) → ℤ → Gate → Bytes → Option Bytes → Gate × Answer
check_model find now g authorization none = (g, refused invalid_request_body)
check_model find now g authorization (some model) =
    check_token find now g model (bearer authorization)

abbrev pub and_decode : (Bytes → Option (Bytes × Bool)) → Option Bytes → Option Bytes
and_decode decode none = none
and_decode decode (some body) = model_of (decode body)

-- `text` is the conversion of bytes to the text that the store is asked for, and `hash` is SHA-256.
module _ (hash : String → String) (text : Bytes → String)
    (decode : Bytes → Option (Bytes × Bool)) where
  unfoldable pub admit : ℤ → Request → Gate → Gate × Answer
  unfolding check_key bearer
  admit now r g =
      if g.draining
      then (g, refused server_shutting_down)
      else if not r.is_post
      then (g, refused not_found)
      else check_model (λ raw. Auth.lookup_raw hash (text raw) g.auth) now g r.authorization
          (and_decode decode r.body)
