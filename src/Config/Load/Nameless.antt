-- ===== src/Config/Load/Nameless.antt =====
-- Providers of the settings file (internal/config/config.go) that get no name.
use stream_guard.Prelude.{
  Bool, true, false, List, [], ◌∷◌, ◌++◌, All, ◌≡◌, ◌⊎◌, inl, inr, refl, ◌∙◌,
}
use stream_guard.Config.{Provider, Config, Environment}
use stream_guard.Config.Validation.{IsUsable}
use stream_guard.Config.File.{empty_provider, on_last}

-- There is a provider without a name that gets none any more: it is not the last, or the last is not
-- written to (`shut`).
abbrev pub HasLost : Bool → List Provider → Type 0
HasLost shut [] = ⊥
HasLost shut (p ∷ []) = (p.name ≡ "") × (shut ≡ true)
HasLost shut (p ∷ q ∷ ps) = (p.name ≡ "") ⊎ HasLost shut (q ∷ ps)

pub HasLost-append :
    (shut shut' : Bool) (ps : List Provider)
    → HasLost shut ps
    → HasLost shut' (ps ++ empty_provider ∷ [])
HasLost-append shut shut' [] h = elim h [ ]
HasLost-append shut shut' (p ∷ []) h = inl h.0
HasLost-append shut shut' (p ∷ q ∷ ps) h = elim h [
  | inl e ↦ inl e
  | inr l ↦ inr (HasLost-append shut shut' (q ∷ ps) l)
]

pub HasLost-shut : (shut : Bool) (ps : List Provider) → HasLost shut ps → HasLost true ps
HasLost-shut shut [] h = elim h [ ]
HasLost-shut shut (p ∷ []) h = (h.0, refl)
HasLost-shut shut (p ∷ q ∷ ps) h = elim h [
  | inl e ↦ inl e
  | inr l ↦ inr (HasLost-shut shut (q ∷ ps) l)
]

pub appended-HasLost : (ps : List Provider) → HasLost true (ps ++ empty_provider ∷ [])
appended-HasLost [] = (refl, refl)
appended-HasLost (p ∷ []) = inr (refl, refl)
appended-HasLost (p ∷ q ∷ ps) = inr (appended-HasLost (q ∷ ps))

-- A write to the last provider that leaves its name.
pub HasLost-kept :
    (f : Provider → Provider) (shut : Bool) (ps : List Provider)
    → ((p : Provider) → (f p).name ≡ p.name)
    → HasLost shut ps
    → HasLost shut (on_last f ps)
HasLost-kept f shut [] same h = h
HasLost-kept f shut (p ∷ []) same h = (same p ∙ h.0, h.1)
HasLost-kept f shut (p ∷ q ∷ []) same h = elim h [ inl e ↦ inl e | inr l ↦ inr (same q ∙ l.0, l.1) ]
HasLost-kept f shut (p ∷ q ∷ r ∷ ps) same h = elim h [
  | inl e ↦ inl e
  | inr l ↦ inr (HasLost-kept f shut (q ∷ r ∷ ps) same l)
]

not_shut : false ≡ true → ⊥
not_shut e = cc

-- Any write to the last provider, if that is not the lost one.
pub HasLost-renamed :
    (f : Provider → Provider) (ps : List Provider) → HasLost false ps → HasLost false (on_last f ps)
HasLost-renamed f [] h = h
HasLost-renamed f (p ∷ []) h = absurd (not_shut h.1)
HasLost-renamed f (p ∷ q ∷ []) h = elim h [ inl e ↦ inl e | inr l ↦ absurd (not_shut l.1) ]
HasLost-renamed f (p ∷ q ∷ r ∷ ps) h = elim h [
  | inl e ↦ inl e
  | inr l ↦ inr (HasLost-renamed f (q ∷ r ∷ ps) l)
]

pub not_usable :
    (env : Environment) (c : Config) (shut : Bool) (ps : List Provider)
    → HasLost shut ps
    → All (IsUsable env c) ps
    → ⊥
not_usable env c shut [] h u = h
not_usable env c shut (p ∷ []) h u = u.0.named h.0
not_usable env c shut (p ∷ q ∷ ps) h u = elim h [
  | inl e ↦ u.0.named e
  | inr l ↦ not_usable env c shut (q ∷ ps) l u.1
]
