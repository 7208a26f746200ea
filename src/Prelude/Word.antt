-- ===== src/Prelude/Word.antt =====
-- Go's `int64`, and its `int` on a 64-bit platform: an integer that every operation brings back
-- into the range from -2^63 to 2^63 - 1.
use Prim.Native.Nat.{ℕ, ◌+◌, ◌-◌, ◌%◌, ◌≤◌, ◌<◌}
use mathlib.Core.Path.{◌≡◌, refl, sym, ap, ◌∙◌}
use native.Mathlib.Omega.{arith}
use stream_guard.Prelude.Tests.{ltb, if◌then◌else◌}
use stream_guard.Prelude.Int.{ℤ, pos, negsuc, pos_part, neg_part, ◌+ℤ◌, ◌-ℤ◌, int_laws}

-- 2^63 and 2^64.
abbrev pub half_word : ℕ
half_word = 9223372036854775808

abbrev pub word : ℕ
word = 18446744073709551616

-- The residue modulo 2^64, read as a signed number.
abbrev signed : ℕ → ℤ
signed m = if ltb m half_word then pos m else negsuc (word - 1 - m)

unfoldable pub wrap64 : ℤ → ℤ
wrap64 (pos n) = signed (n % word)
wrap64 (negsuc n) = signed (word - 1 - n % word)

-- A value of the type.
abbrev pub IsInt64 : ℤ → Type 0
IsInt64 a = (pos_part a < half_word) × (neg_part a ≤ half_word)

abbrev pub add64 : ℤ → ℤ → ℤ
add64 a b = wrap64 (a +ℤ b)

abbrev pub sub64 : ℤ → ℤ → ℤ
sub64 a b = wrap64 (a -ℤ b)

pub wrap64-IsInt64 : (a : ℤ) → IsInt64 (wrap64 a)
unfolding wrap64
wrap64-IsInt64 (pos n) = ground arith
wrap64-IsInt64 (negsuc n) = ground arith

-- In range nothing wraps.
pub wrap64_id : (a : ℤ) → IsInt64 a → wrap64 a ≡ a
unfolding wrap64
wrap64_id (pos n) h = ground arith
wrap64_id (negsuc n) h = ground arith

-- Above the range the value comes out 2^64 lower.
pub wrap64_above : (a : ℤ) → half_word ≤ pos_part a → pos_part a < word → wrap64 a ≡ a -ℤ pos word
unfolding wrap64 ◌-ℤ◌
wrap64_above (pos n) h k = ground arith
wrap64_above (negsuc n) h k = absurd (omega arith)

residue : ℤ → ℕ
residue (pos n) = n % word
residue (negsuc n) = word - 1 - n % word

wrap64-residue : (a : ℤ) → wrap64 a ≡ signed (residue a)
unfolding wrap64 residue
wrap64-residue (pos n) = refl
wrap64-residue (negsuc n) = refl

residue-add : (a b : ℤ) → residue (a +ℤ b) ≡ (residue a + residue b) % word
unfolding residue ◌+ℤ◌
residue-add (pos m) (pos n) = ground arith
residue-add (pos m) (negsuc n) = ground arith
residue-add (negsuc m) (pos n) = ground arith
residue-add (negsuc m) (negsuc n) = ground arith

residue-wrap64 : (a : ℤ) → residue (wrap64 a) ≡ residue a
unfolding wrap64 residue
residue-wrap64 (pos n) = ground arith
residue-wrap64 (negsuc n) = ground arith

-- Sums may be brought back into range at any point.
pub wrap64-add_left : (a b : ℤ) → add64 (wrap64 a) b ≡ wrap64 (a +ℤ b)
wrap64-add_left a b = rw (
  wrap64-residue (wrap64 a +ℤ b),
  wrap64-residue (a +ℤ b),
  residue-add (wrap64 a) b,
  residue-add a b,
  residue-wrap64 a,
)

pub add64_pos : (m n : ℕ) → m + n < half_word → add64 (pos m) (pos n) ≡ pos (m + n)
unfolding ◌+ℤ◌
add64_pos m n small = ground (arith, wrap64_id (pos (m + n)))

pub add64_comm : (a b : ℤ) → add64 a b ≡ add64 b a
add64_comm a b = let e : a +ℤ b ≡ b +ℤ a = omega int_laws in rw e

pub add64_assoc : (a b c : ℤ) → add64 (add64 a b) c ≡ add64 a (add64 b c)
add64_assoc a b c =
    let e : a +ℤ b +ℤ c ≡ b +ℤ c +ℤ a = omega int_laws in
    wrap64-add_left (a +ℤ b) c ∙ ap wrap64 e ∙ sym (wrap64-add_left (b +ℤ c) a) ∙ add64_comm _ a

pub add64_swap : (a b c : ℤ) → add64 (add64 a b) c ≡ add64 (add64 a c) b
add64_swap a b c = add64_assoc a b c ∙ ap (add64 a) (add64_comm b c) ∙ sym (add64_assoc a c b)

-- Adding zero on the way makes no difference.
pub add64_zero_between : (a b : ℤ) → add64 (add64 a (pos 0)) b ≡ add64 a b
add64_zero_between a b =
    let e : a +ℤ pos 0 ≡ a = omega int_laws in
    wrap64-add_left (a +ℤ pos 0) b ∙ ap (λ x. wrap64 (x +ℤ b)) e

pub add64_zero_after : (a b : ℤ) → add64 (add64 a b) (pos 0) ≡ add64 a b
add64_zero_after a b =
    let e : a +ℤ b +ℤ pos 0 ≡ a +ℤ b = omega int_laws in
    wrap64-add_left (a +ℤ b) (pos 0) ∙ ap wrap64 e
