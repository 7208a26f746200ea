-- ===== src/Text.antt =====
-- Texts that the program walks, as lists of bytes, with the functions of Go's `strings` and `bytes`
-- that it calls. White space is that of ASCII: in the texts at hand (headers, event lines, keys,
-- settings) Go's further Unicode spaces are not modelled.
pub mod Laws
use Prim.Native.Char.{code}
use stream_guard.Prelude.{
  ℕ, ◌+◌, Bool, true, false, not, ◌&&◌, ◌||◌, List, [], ◌∷◌, ◌++◌, Option, none, some, String, eqb,
  leb, select, if◌then◌else◌,
}

abbrev pub Bytes : Type 0
Bytes = List ℕ

-- The bytes of an ASCII literal.
abbrev pub codes : String → Bytes
codes String.[] = []
codes (String.◌∷◌ c s) = code c ∷ codes s

unfoldable pub eq_bytes : Bytes → Bytes → Bool
eq_bytes [] [] = true
eq_bytes (a ∷ as_) (b ∷ bs) = eqb a b && eq_bytes as_ bs
eq_bytes _ _ = false

abbrev pub is_empty : Bytes → Bool
is_empty [] = true
is_empty (b ∷ bs) = false

-- What follows the prefix, if the text has it: `strings.HasPrefix` and `strings.TrimPrefix`.
unfoldable pub after_prefix : Bytes → Bytes → Option Bytes
after_prefix [] s = some s
after_prefix (p ∷ ps) [] = none
after_prefix (p ∷ ps) (b ∷ bs) = if eqb p b then after_prefix ps bs else none

-- Tab to carriage return, and blank.
unfoldable is_space : ℕ → Bool
is_space b = eqb b 32 || leb 9 b && leb b 13

unfoldable trim_left : Bytes → Bytes
unfolding is_space
trim_left [] = []
trim_left (b ∷ bs) = if is_space b then trim_left bs else b ∷ bs

-- Without its trailing white space: a byte goes if it is white space and nothing is left after it.
unfoldable trim_right : Bytes → Bytes
unfolding is_space
trim_right [] = []
trim_right (b ∷ bs) =
    let rest = trim_right bs in if is_space b && is_empty rest then [] else b ∷ rest

unfoldable pub trim_space : Bytes → Bytes
unfolding trim_left trim_right
trim_space s = trim_right (trim_left s)

unfoldable pub to_lower : Bytes → Bytes
to_lower [] = []
to_lower (b ∷ bs) = (if leb b'A' b && leb b b'Z' then b + 32 else b) ∷ to_lower bs

-- `strings.ReplaceAll(s, "\r\n", "\n")`.
unfoldable pub replace_crlf : Bytes → Bytes
replace_crlf [] = []
replace_crlf (a ∷ []) = a ∷ []
replace_crlf (a ∷ b ∷ bs) =
    let rest = replace_crlf (b ∷ bs) in if eqb a 13 && eqb b 10 then rest else a ∷ rest

-- The first piece of a split, and the others.
abbrev extend_first : ℕ → List Bytes → List Bytes
extend_first b [] = (b ∷ []) ∷ []
extend_first b (piece ∷ pieces) = (b ∷ piece) ∷ pieces

-- `strings.Split` at one byte: always at least one piece.
unfoldable pub split : ℕ → Bytes → List Bytes
split sep [] = [] ∷ []
split sep (b ∷ bs) = let rest = split sep bs in if eqb b sep then [] ∷ rest else extend_first b rest

-- `strings.Join` with one byte between.
unfoldable pub join : ℕ → List Bytes → Bytes
join sep [] = []
join sep (piece ∷ []) = piece
join sep (piece ∷ next ∷ pieces) = piece ++ sep ∷ join sep (next ∷ pieces)

-- The pieces between white space, some of them empty.
unfoldable split_spaces : Bytes → List Bytes
unfolding is_space
split_spaces [] = [] ∷ []
split_spaces (b ∷ bs) =
    let rest = split_spaces bs in if is_space b then [] ∷ rest else extend_first b rest

-- `strings.Fields`.
unfoldable pub fields : Bytes → List Bytes
unfolding split_spaces
fields s = select (λ piece. not (is_empty piece)) (split_spaces s)

abbrev is_some : Option Bytes → Bool
is_some none = false
is_some (some s) = true

unfoldable pub has_prefix : Bytes → Bytes → Bool
unfolding after_prefix
has_prefix p s = is_some (after_prefix p s)

-- `strings.Contains`.
unfoldable pub contains_text : Bytes → Bytes → Bool
unfolding has_prefix
contains_text [] p = has_prefix p []
contains_text (b ∷ bs) p = has_prefix p (b ∷ bs) || contains_text bs p

-- Without the given byte at the left, and at the right: `strings.TrimLeft`, `TrimRight` and `Trim` for a
-- set of one byte.
unfoldable trim_left_of : ℕ → Bytes → Bytes
trim_left_of c [] = []
trim_left_of c (b ∷ bs) = if eqb b c then trim_left_of c bs else b ∷ bs

unfoldable pub trim_right_of : ℕ → Bytes → Bytes
trim_right_of c [] = []
trim_right_of c (b ∷ bs) =
    let rest = trim_right_of c bs in if eqb b c && is_empty rest then [] else b ∷ rest

unfoldable pub trim_of : ℕ → Bytes → Bytes
unfolding trim_left_of trim_right_of
trim_of c s = trim_right_of c (trim_left_of c s)

-- What comes before the last byte, if it is the given one.
abbrev before_nil : ℕ → ℕ → Option Bytes
before_nil c b = if eqb b c then some [] else none

abbrev on_some : (Bytes → Bytes) → Option Bytes → Option Bytes
on_some f none = none
on_some f (some s) = some (f s)

unfoldable pub before_suffix : ℕ → Bytes → Option Bytes
before_suffix c [] = none
before_suffix c (b ∷ []) = before_nil c b
before_suffix c (b ∷ b' ∷ bs) = let rest = before_suffix c (b' ∷ bs) in on_some (λ s. b ∷ s) rest

-- `strings.TrimPrefix`.
abbrev pub or_text : Bytes → Option Bytes → Bytes
or_text s none = s
or_text s (some rest) = rest

unfoldable pub trim_prefix : Bytes → Bytes → Bytes
unfolding after_prefix
trim_prefix p s = or_text s (after_prefix p s)

-- `strings.Cut` at one byte.
abbrev extend_cut : ℕ → Option (Bytes × Bytes) → Option (Bytes × Bytes)
extend_cut b none = none
extend_cut b (some (before, after)) = some (b ∷ before, after)

unfoldable pub cut : ℕ → Bytes → Option (Bytes × Bytes)
cut sep [] = none
cut sep (b ∷ bs) = let rest = cut sep bs in if eqb b sep then some ([], bs) else extend_cut b rest
