-- ===== src/Server/Endpoints/Access.antt =====
-- Who learns what from /usage and /healthz (internal/server/server.go).
use stream_guard.Prelude.{
  ℕ, zero, suc, ◌≤◌, [], ◌∷◌, ◌++◌, length, take, leb, if◌then◌else◌, ap, ◌∙◌, arith, Bool, true,
  false, some, String, ◌≡◌, ◌↔◌, refl, sym, subst, Bool-cases, Option-cases, inl, inr,
}
use stream_guard.Text.{Bytes, codes, eq_bytes, trim_prefix}
use stream_guard.Text.Laws.{eq_bytes_iff}
use stream_guard.Ledger
use stream_guard.Auth
use stream_guard.Server.Handler.{bearer}
use stream_guard.Budget.{ApiKeyRecord}
use stream_guard.Server.Endpoints.{Server, Reply, not_found, unauthorized, usage, handle_usage}

-- What is shown of a token: its first eight bytes, or its first three if it has no more than eight, and
-- three stars.
abbrev pub masked : Bytes → Bytes
masked raw = take (if leb (length raw) 8 then 3 else 8) raw ++ codes "***"

take_all : (raw : Bytes) (n : ℕ) → length raw ≤ n → take (length raw) raw ≡ take n raw
take_all [] zero le = refl
take_all [] (suc n) le = refl
take_all (b ∷ bs) zero le = absurd (omega arith)
take_all (b ∷ bs) (suc n) le = ap (λ l. b ∷ l) (take_all bs n (omega arith))

redact-masked : (raw : Bytes) → Auth.redact raw ≡ masked raw
unfolding Auth.redact
redact-masked raw = ground (arith, take_all raw 3)

module _ (hash : String → String) (text : Bytes → String) where
  -- What /usage asks for before it shows a summary.
  pub data Granted (is_get : Bool) (path authorization : Bytes) (s : Server)
      : Ledger.Summary → Type 0 where
    granted :
        (raw : Bytes) (key : ApiKeyRecord)
        → is_get ≡ true
        → bearer authorization ≡ some raw
        → trim_prefix (codes "/usage/") path ≡ raw
        → Auth.lookup_raw hash (text raw) s.auth ≡ some key
        → Granted is_get path authorization s
            (Ledger.summary key.key_hash (text (masked raw)) s.ledger)

  not_usage : (r : Reply) (out : Ledger.Summary) → unauthorized ≡ usage out → ⊥
  not_usage r out h = cc

  same_usage : {out out' : Ledger.Summary} → usage out ≡ usage out' → out ≡ out'
  same_usage h = cc

  reply-Granted :
      (is_get : Bool) (path authorization : Bytes) (s : Server) (out : Ledger.Summary)
      → handle_usage hash text is_get path authorization s ≡ usage out
      → Granted is_get path authorization s out
  unfolding handle_usage
  reply-Granted false path authorization s out h = cc
  reply-Granted true path authorization s out h = elim (Option-cases (bearer authorization)) [
    | inl e ↦ absurd (not_usage not_found out (rw e at h))
    | inr (raw, e) ↦ elim (Bool-cases (eq_bytes raw (trim_prefix (codes "/usage/") path))) [
      | inr other ↦ absurd (not_usage not_found out (rw (e, other) at h))
      | inl same ↦ elim (Option-cases (Auth.lookup_raw hash (text raw) s.auth)) [
        | inl unknown ↦ absurd (not_usage not_found out (rw (e, same, unknown) at h))
        | inr (key, found) ↦
            subst (Granted true path authorization s)
              (ap (λ name. Ledger.summary key.key_hash (text name) s.ledger)
                  (sym (redact-masked raw))
                ∙ same_usage (rw (e, same, found) at h))
              (granted raw key refl e (sym ((eq_bytes_iff _ _).0 same)) found)
      ]
    ]
  ]

  reply_of_Granted :
      (is_get : Bool) (path authorization : Bytes) (s : Server) (out : Ledger.Summary)
      → Granted is_get path authorization s out
      → handle_usage hash text is_get path authorization s ≡ usage out
  unfolding handle_usage
  reply_of_Granted is_get path authorization s _ (granted raw key get e same found) =
      rw (get, e, (eq_bytes_iff raw _).1 (sym same), found, redact-masked raw) refl

  -- /usage shows a summary exactly if the method is GET, the bearer token is that in the path, and it is
  -- a stored key: the summary is that of the key's hash, under what is shown of the token.
  pub handle_usage_iff :
      (is_get : Bool) (path authorization : Bytes) (s : Server) (out : Ledger.Summary)
      → (handle_usage hash text is_get path authorization s ≡ usage out)
        ↔ Granted is_get path authorization s out
  handle_usage_iff is_get path authorization s out = (
    reply-Granted is_get path authorization s out,
    reply_of_Granted is_get path authorization s out,
  )
