-- ===== src/Prelude/Maps.antt =====
-- A Go map with text keys, as an association list: a new key goes to the end, a key stands once.
use Prim.Native.String.{String}
use text.Mathlib.Text.{◌==◌}
use text.Mathlib.TextEquality.{eq_iff}
use mathlib.Core.Path.{◌≡◌, refl}
use mathlib.Core.List.{List, [], ◌∷◌}
use mathlib.Core.Option.{Option, none, some}
use native.Mathlib.Omega.{arith}
use stream_guard.Prelude.Tests.{if◌then◌else◌}

abbrev pub Dict {ℓ} : Type ℓ → Type ℓ
Dict V = List (String × V)

module _ {ℓ} {V : Type ℓ} where
  unfoldable pub lookup : String → Dict V → Option V
  lookup k [] = none
  lookup k ((j, v) ∷ m) = if j == k then some v else lookup k m

  unfoldable pub insert : String → V → Dict V → Dict V
  insert key new [] = (key, new) ∷ []
  insert key new ((at, old) ∷ rest) =
      if at == key then (key, new) ∷ rest else (at, old) ∷ insert key new rest

  unfoldable pub delete : String → Dict V → Dict V
  delete key [] = []
  delete key ((at, old) ∷ rest) = if at == key then delete key rest else (at, old) ∷ delete key rest

  pub lookup-insert :
      (key asked : String) (new : V) (dict : Dict V)
      → lookup asked (insert key new dict) ≡ (if key == asked then some new else lookup asked dict)
  unfolding lookup insert
  lookup-insert key asked new [] = refl
  lookup-insert key asked new ((at, old) ∷ rest) =
      ground
        (arith, lookup-insert key asked new rest, eq_iff at asked, eq_iff at key, eq_iff key asked)

  pub lookup-delete :
      (key asked : String) (dict : Dict V)
      → lookup asked (delete key dict) ≡ (if key == asked then none else lookup asked dict)
  unfolding lookup delete
  lookup-delete key asked [] = ground arith
  lookup-delete key asked ((at, old) ∷ rest) =
      ground (arith, lookup-delete key asked rest, eq_iff at asked, eq_iff at key, eq_iff key asked)
