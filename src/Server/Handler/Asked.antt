-- ===== src/Server/Handler/Asked.antt =====
-- What the checks of `handleStream` (internal/server/server.go) ask of a request's body, its header and
-- the providers, told without the code's own functions.
use stream_guard.Prelude.{
  Bool, true, false, List, [], ◌∷◌, ◌++◌, Option, none, some, String, ◌==◌, eq_iff, ◌≡◌, ◌≢◌, ◌⊎◌,
  refl, sym, ap, arith, Bool-cases, Option-cases, inl, inr,
}
use stream_guard.Text.{Bytes, codes, trim_space, after_prefix}
use stream_guard.Text.Laws.{after_prefix-some}
use stream_guard.Budget.{contains}
use stream_guard.Config.{Provider}
use stream_guard.Server.Handler.{bearer, allowed_providers, model_of, nonempty, and_decode}

-- A name on a list.
abbrev pub IsListed : List String → String → Type 0
IsListed [] name = ⊥
IsListed (a ∷ rest) name = (a ≡ name) ⊎ IsListed rest name

-- The providers whose names are on a list, in their order.
pub data Picked (allow : List String) : List Provider → List Provider → Type 0 where
  end : Picked allow [] []
  listed :
      {ps qs : List Provider} (p : Provider)
      → IsListed allow p.name
      → Picked allow ps qs
      → Picked allow (p ∷ ps) (p ∷ qs)
  unlisted :
      {ps qs : List Provider} (p : Provider)
      → ¬ IsListed allow p.name
      → Picked allow ps qs
      → Picked allow (p ∷ ps) qs

-- A body that JSON reads as a request for a model, which is named, with messages.
abbrev pub IsRead : (Bytes → Option (Bytes × Bool)) → Option Bytes → Bytes → Type 0
IsRead decode read model =
    (body : Bytes) × (read ≡ some body) × (decode body ≡ some (model, true)) × (model ≢ [])

-- A header that bears a token.
abbrev pub Bears : Bytes → Bytes → Type 0
Bears header raw =
    (rest : Bytes) × (header ≡ codes "Bearer " ++ rest) × (trim_space rest ≡ raw) × (raw ≢ [])

contains-IsListed :
    (allow : List String) (name : String) → contains allow name ≡ true → IsListed allow name
unfolding contains
contains-IsListed [] name h = cc
contains-IsListed (a ∷ rest) name h = elim (Bool-cases (a == name)) [
  | inl same ↦ inl ((eq_iff a name).0 same)
  | inr other ↦ inr (contains-IsListed rest name (ground arith))
]

IsListed-contains :
    (allow : List String) (name : String) → IsListed allow name → contains allow name ≡ true
unfolding contains
IsListed-contains [] name on = elim on [ ]
IsListed-contains (a ∷ rest) name (inl same) = ground (arith, eq_iff a name)
IsListed-contains (a ∷ rest) name (inr later) = ground (arith, IsListed-contains rest name later)

pub allowed_providers-Picked :
    (ps : List Provider) (allow : List String) → Picked allow ps (allowed_providers ps allow)
unfolding allowed_providers
allowed_providers-Picked [] allow = end
allowed_providers-Picked (p ∷ ps) allow = elim (Bool-cases (contains allow p.name)) [
  | inl found ↦
      rw found (listed p (contains-IsListed allow p.name found) (allowed_providers-Picked ps allow))
  | inr missing ↦ rw missing (
      unlisted p (λ on. let found = IsListed-contains allow p.name on in cc)
        (allowed_providers-Picked ps allow))
]

pub Picked-allowed_providers :
    (allow : List String) {ps qs : List Provider}
    → Picked allow ps qs
    → allowed_providers ps allow ≡ qs
unfolding allowed_providers
Picked-allowed_providers allow end = refl
Picked-allowed_providers allow (listed p on rest) =
    rw (IsListed-contains allow p.name on) (ap (λ l. p ∷ l) (Picked-allowed_providers allow rest))
Picked-allowed_providers allow (unlisted {ps} p off rest) =
    elim (Bool-cases (contains allow p.name)) [
      | inl found ↦ absurd (off (contains-IsListed allow p.name found))
      | inr missing ↦ rw missing (Picked-allowed_providers allow rest)
    ]

model_of-some :
    (found : Option (Bytes × Bool)) (model : Bytes)
    → model_of found ≡ some model
    → (found ≡ some (model, true)) × (model ≢ [])
model_of-some none model h = cc
model_of-some (some ([], messages)) model h = cc
model_of-some (some (b ∷ bs, true)) model h = (cc, λ e. cc)
model_of-some (some (b ∷ bs, false)) model h = cc

pub and_decode-IsRead :
    (decode : Bytes → Option (Bytes × Bool)) (read : Option Bytes) (model : Bytes)
    → and_decode decode read ≡ some model
    → IsRead decode read model
and_decode-IsRead decode none model h = cc
and_decode-IsRead decode (some body) model h =
    let (e, named) = model_of-some (decode body) model h in (body, refl, e, named)

pub IsRead-and_decode :
    (decode : Bytes → Option (Bytes × Bool)) (read : Option Bytes) (model : Bytes)
    → IsRead decode read model
    → and_decode decode read ≡ some model
IsRead-and_decode decode read [] (body, e, f, some_model) = absurd (some_model refl)
IsRead-and_decode decode read (b ∷ bs) (body, e, f, some_model) = rw (e, f) refl

nonempty-some : (token raw : Bytes) → nonempty token ≡ some raw → (token ≡ raw) × (raw ≢ [])
nonempty-some [] raw h = cc
nonempty-some (b ∷ bs) raw h = (cc, λ e. cc)

nonempty-full : (token raw : Bytes) → token ≡ raw → raw ≢ [] → nonempty token ≡ some raw
nonempty-full [] raw e full = absurd (full (sym e))
nonempty-full (b ∷ bs) raw e full = ap some e

pub bearer-Bears : (header raw : Bytes) → bearer header ≡ some raw → Bears header raw
unfolding bearer
bearer-Bears header raw h = elim (Option-cases (after_prefix (codes "Bearer ") header)) [
  | inl other ↦ let e : none ≡ some raw = rw other at h in cc
  | inr (rest, found) ↦
      let (e, full) = nonempty-some (trim_space rest) raw (rw found at h) in
      (rest, after_prefix-some (codes "Bearer ") header rest found, e, full)
]

pub Bears-bearer : (header raw : Bytes) → Bears header raw → bearer header ≡ some raw
unfolding bearer
Bears-bearer header raw (rest, e, trimmed, full) =
    rw e (nonempty-full (trim_space rest) raw trimmed full)
