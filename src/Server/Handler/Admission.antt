-- ===== src/Server/Handler/Admission.antt =====
-- Which requests the checks of `handleStream` (internal/server/server.go) let through.
use stream_guard.Prelude.{
  ℤ, ◌<ℤ◌, Bool, true, false, not, List, [], ◌∷◌, Option, none, some, String, ◌≡◌, ◌≢◌, ◌↔◌, refl,
  arith, if◌then◌else◌, ap, ◌∙◌, subst,
}
use stream_guard.Text.{Bytes}
use stream_guard.Budget.{ApiKeyRecord, exhausted}
use stream_guard.Auth
use stream_guard.RateLimit
use stream_guard.Config.{Provider}
use stream_guard.Server.Handler.Asked.{
  Picked, IsRead, Bears, allowed_providers-Picked, Picked-allowed_providers, and_decode-IsRead,
  IsRead-and_decode, bearer-Bears, Bears-bearer,
}
use stream_guard.Server.Handler.{
  Refusal, server_shutting_down, not_found, Request, Gate, Answer, refused, admitted, bearer,
  allowed_providers, check_key, check_found, check_token, check_model, and_decode, admit,
}

-- What the checks ask of a request, for the model, the key and the providers that they pass on.
pub record IsAdmissible (hash : String → String) (text : Bytes → String)
    (decode : Bytes → Option (Bytes × Bool)) (now : ℤ) (r : Request) (g : Gate) (model : Bytes)
    (key : ApiKeyRecord) (providers : List Provider) : Type 0 where
  pub open_gate : g.draining ≡ false
  pub post : r.is_post ≡ true
  pub readable : IsRead decode r.body model
  pub token :
      (raw : Bytes) × Bears r.authorization raw
      × (Auth.lookup_raw hash (text raw) g.auth ≡ some key)
  pub allowed : Picked key.provider_allowlist g.providers providers
  pub some_allowed : providers ≢ []
  pub within_budget : key.tokens_used <ℤ key.token_budget
  pub within_window : (RateLimit.admit key.key_hash now g.limiter).1 ≡ true

check_key_facts :
    (now : ℤ) (g : Gate) (model m : Bytes) (key k : ApiKeyRecord) (xs ps : List Provider)
    → (check_key now g model key xs).1 ≡ admitted m k ps
    → (model ≡ m)
      × (key ≡ k)
      × (xs ≡ ps)
      × (xs ≢ [])
      × (key.tokens_used <ℤ key.token_budget)
      × ((RateLimit.admit key.key_hash now g.limiter).1 ≡ true)
unfolding check_key exhausted
check_key_facts now g model m key k [] ps h = cc
check_key_facts now g model m key k (x ∷ xs) ps h = ground arith

-- The converse.
check_key_admits :
    (now : ℤ) (g : Gate) (model : Bytes) (key : ApiKeyRecord) (xs : List Provider)
    → xs ≢ []
    → key.tokens_used <ℤ key.token_budget
    → (RateLimit.admit key.key_hash now g.limiter).1 ≡ true
    → (check_key now g model key xs).1 ≡ admitted model key xs
unfolding check_key exhausted
check_key_admits now g model key [] ne b w = absurd (ne refl)
check_key_admits now g model key (x ∷ xs) ne b w = ground arith

-- The facts of the token's part.
TokenFacts :
    (Bytes → Option ApiKeyRecord) → ℤ → Gate → Option Bytes → ApiKeyRecord → List Provider → Type 0
TokenFacts find now g token key ps =
    ((raw : Bytes) × (token ≡ some raw) × (find raw ≡ some key))
    × (allowed_providers g.providers key.provider_allowlist ≡ ps)
    × (ps ≢ [])
    × (key.tokens_used <ℤ key.token_budget)
    × ((RateLimit.admit key.key_hash now g.limiter).1 ≡ true)

found_facts :
    (find : Bytes → Option ApiKeyRecord) (raw : Bytes) (now : ℤ) (g : Gate) (model m : Bytes)
    (found : Option ApiKeyRecord) (k : ApiKeyRecord) (ps : List Provider)
    → find raw ≡ found
    → (check_found now g model found).1 ≡ admitted m k ps
    → (model ≡ m) × TokenFacts find now g (some raw) k ps
unfolding TokenFacts
found_facts find raw now g model m none k ps e h = cc
found_facts find raw now g model m (some key) k ps e h =
    let (em, ek, ex, ne, b, w) =
      check_key_facts now g model m key k (allowed_providers g.providers key.provider_allowlist) ps
        h in
    (em, ((raw, refl, e ∙ ap some ek), rw (← ek) ex, rw (← ex) ne, rw (← ek) b, rw (← ek) w))

token_facts :
    (find : Bytes → Option ApiKeyRecord) (now : ℤ) (g : Gate) (model m : Bytes)
    (token : Option Bytes) (k : ApiKeyRecord) (ps : List Provider)
    → (check_token find now g model token).1 ≡ admitted m k ps
    → (model ≡ m) × TokenFacts find now g token k ps
unfolding TokenFacts
token_facts find now g model m none k ps h = cc
token_facts find now g model m (some raw) k ps h =
    found_facts find raw now g model m (find raw) k ps refl h

model_facts :
    (find : Bytes → Option ApiKeyRecord) (now : ℤ) (g : Gate) (auth : Bytes) (read : Option Bytes)
    (m : Bytes) (k : ApiKeyRecord) (ps : List Provider)
    → (check_model find now g auth read).1 ≡ admitted m k ps
    → (read ≡ some m) × TokenFacts find now g (bearer auth) k ps
model_facts find now g auth none m k ps h = cc
model_facts find now g auth (some model) m k ps h =
    let (e, f) = token_facts find now g model m (bearer auth) k ps h in (ap some e, f)

-- The first two checks.
gate_facts :
    (d q : Bool) (g : Gate) (a b : Refusal) (z : Gate × Answer) (m : Bytes) (k : ApiKeyRecord)
    (ps : List Provider)
    → (if d then (g, refused a) else if not q then (g, refused b) else z).1 ≡ admitted m k ps
    → (d ≡ false) × (q ≡ true) × (z.1 ≡ admitted m k ps)
gate_facts true q g a b z m k ps h = cc
gate_facts false false g a b z m k ps h = cc
gate_facts false true g a b z m k ps h = (refl, refl, h)

gate_passes :
    (d q : Bool) (x y z : Gate × Answer)
    → d ≡ false
    → q ≡ true
    → (if d then x else if not q then y else z) ≡ z
gate_passes d q x y z e f = rw (e, f) refl

admit-IsAdmissible :
    (hash : String → String) (text : Bytes → String) (decode : Bytes → Option (Bytes × Bool))
    (now : ℤ) (r : Request) (g : Gate) (m : Bytes) (k : ApiKeyRecord) (ps : List Provider)
    → (admit hash text decode now r g).1 ≡ admitted m k ps
    → IsAdmissible hash text decode now r g m k ps
unfolding admit TokenFacts
admit-IsAdmissible hash text decode now r g m k ps h =
    let (d, q, h') = gate_facts g.draining r.is_post g server_shutting_down not_found _ m k ps h in
    let (e, f) =
      model_facts (λ raw. Auth.lookup_raw hash (text raw) g.auth) now g r.authorization
        (and_decode decode r.body) m k ps h' in
    record {
      open_gate = d;
      post = q;
      readable = and_decode-IsRead decode r.body m e;
      token = (f.0.0, bearer-Bears r.authorization f.0.0 f.0.1, f.0.2);
      allowed =
          subst (Picked k.provider_allowlist g.providers) f.1
            (allowed_providers-Picked g.providers k.provider_allowlist);
      some_allowed = f.2;
      within_budget = f.3;
      within_window = f.4;
    }

model_admits :
    (find : Bytes → Option ApiKeyRecord) (now : ℤ) (g : Gate) (auth raw : Bytes)
    (read : Option Bytes) (m : Bytes) (k : ApiKeyRecord) (ps : List Provider)
    → read ≡ some m
    → bearer auth ≡ some raw
    → find raw ≡ some k
    → allowed_providers g.providers k.provider_allowlist ≡ ps
    → check_model find now g auth read ≡ check_key now g m k ps
model_admits find now g auth raw read m k ps e f l a = rw (e, f, l, a) refl

IsAdmissible-admit :
    (hash : String → String) (text : Bytes → String) (decode : Bytes → Option (Bytes × Bool))
    (now : ℤ) (r : Request) (g : Gate) (m : Bytes) (k : ApiKeyRecord) (ps : List Provider)
    → IsAdmissible hash text decode now r g m k ps
    → (admit hash text decode now r g).1 ≡ admitted m k ps
unfolding admit
IsAdmissible-admit hash text decode now r g m k ps v =
    let (raw, bears, f) = v.token in
    let e = Bears-bearer r.authorization raw bears in
    let read = IsRead-and_decode decode r.body m v.readable in
    let allowed = Picked-allowed_providers k.provider_allowlist v.allowed in
    ap (λ t. t.1)
      (gate_passes g.draining r.is_post _ _ _ v.open_gate v.post
        ∙ model_admits (λ raw. Auth.lookup_raw hash (text raw) g.auth) now g r.authorization raw
            (and_decode decode r.body) m k ps read e f allowed)
    ∙ check_key_admits now g m k ps v.some_allowed v.within_budget v.within_window

-- The checks pass a model, a key and providers on exactly if the server is not draining, the method
-- is POST, the body is read and has that model and messages, the bearer token is that of the stored
-- key, the providers are the configured ones on its list, in their order, and there is one, the
-- key's budget is not used up, and its window has room.
pub admit_iff :
    (hash : String → String) (text : Bytes → String) (decode : Bytes → Option (Bytes × Bool))
    (now : ℤ) (r : Request) (g : Gate) (m : Bytes) (k : ApiKeyRecord) (ps : List Provider)
    → ((admit hash text decode now r g).1 ≡ admitted m k ps)
      ↔ IsAdmissible hash text decode now r g m k ps
admit_iff hash text decode now r g m k ps = (
  admit-IsAdmissible hash text decode now r g m k ps,
  IsAdmissible-admit hash text decode now r g m k ps,
)
