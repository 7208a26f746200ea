-- ===== src/Text/Laws.antt =====
-- Laws of the text functions.
use stream_guard.Prelude.{
  ℕ, true, [], ◌∷◌, ◌++◌, some, eqb_refl, eqb_iff, ◌≡◌, ◌≢◌, ◌↔◌, refl, arith, All,
}
use stream_guard.Text.{Bytes, eq_bytes, after_prefix, split}

pub eq_bytes_iff : (xs ys : Bytes) → (eq_bytes xs ys ≡ true) ↔ (xs ≡ ys)
unfolding eq_bytes
eq_bytes_iff [] [] = ground arith
eq_bytes_iff [] (y ∷ ys) = ground arith
eq_bytes_iff (x ∷ xs) [] = ground arith
eq_bytes_iff (x ∷ xs) (y ∷ ys) = ground (arith, eq_bytes_iff xs ys)

eq_bytes_refl : (xs : Bytes) → eq_bytes xs xs ≡ true
eq_bytes_refl xs = (eq_bytes_iff xs xs).1 refl

after_prefix-append : (p s : Bytes) → after_prefix p (p ++ s) ≡ some s
unfolding after_prefix
after_prefix-append [] s = refl
after_prefix-append (p ∷ ps) s = rw (eqb_refl p) (after_prefix-append ps s)

pub after_prefix-some : (p s rest : Bytes) → after_prefix p s ≡ some rest → s ≡ p ++ rest
unfolding after_prefix
after_prefix-some [] s rest h = cc
after_prefix-some (p ∷ ps) [] rest h = cc
after_prefix-some (p ∷ ps) (b ∷ bs) rest h =
    ground (arith, eqb_iff p b, after_prefix-some ps bs rest)

-- No byte of the text is `b`.
abbrev pub Lacks : ℕ → Bytes → Type 0
Lacks b = All λ x. x ≢ b

-- A text without the separator is one piece.
split-Lacks : (sep : ℕ) (xs : Bytes) → Lacks sep xs → split sep xs ≡ xs ∷ []
unfolding split
split-Lacks sep [] h = refl
split-Lacks sep (x ∷ xs) h = ground (arith, split-Lacks sep xs h.1)

pub split-piece :
    (sep : ℕ) (xs ys : Bytes) → Lacks sep xs → split sep (xs ++ sep ∷ ys) ≡ xs ∷ split sep ys
unfolding split
split-piece sep [] ys h = ground arith
split-piece sep (x ∷ xs) ys h = ground (arith, split-piece sep xs ys h.1)
