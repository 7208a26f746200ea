-- ===== src/Tests/Hundredths.antt =====
-- A `Double` of hundredths, with a NaN, whose comparisons are those of IEEE 754.
use stream_guard.Prelude.{
  ◌+◌, ◌*◌, ◌/◌, ℤ, pos, negsuc, pos_part, neg_part, ltb_ℤ, leb_ℤ, eqb_ℤ, Bool, true, false, Option,
  none, some, arith,
}
use stream_guard.Double.{Double, IsOrdered}

-- `none` is NaN.
abbrev pub Hundredths : Type 0
Hundredths = Option ℤ

abbrev of_ℤ : ℤ → Hundredths
of_ℤ (pos n) = some (pos (n * 100))
of_ℤ (negsuc n) = some (negsuc (n * 100 + 99))

abbrev test : (ℤ → ℤ → Bool) → Hundredths → Hundredths → Bool
test f none y = false
test f (some x) none = false
test f (some x) (some y) = f x y

abbrev combine : (ℤ → ℤ → ℤ) → Hundredths → Hundredths → Hundredths
combine f none y = none
combine f (some x) none = none
combine f (some x) (some y) = some (f x y)

-- Exact where the factors are not negative.
abbrev mul : ℤ → ℤ → ℤ
mul x y = pos (pos_part x * pos_part y / 100)

abbrev div : ℤ → ℤ → ℤ
div x y = pos (pos_part x * 100 / pos_part y)

abbrev abs : Hundredths → Hundredths
abs none = none
abs (some x) = some (pos (pos_part x + neg_part x))

abbrev ceil : Hundredths → ℤ
ceil none = pos 0
ceil (some x) = pos ((pos_part x + 99) / 100)

abbrev trunc : Hundredths → ℤ
trunc none = pos 0
trunc (some x) = pos (pos_part x / 100)

abbrev is_nan : Hundredths → Bool
is_nan none = true
is_nan (some x) = false

instance abbrev pub hundredths_double : Double Hundredths
hundredths_double = record {
  of_ℤ = of_ℤ;
  lt = test ltb_ℤ;
  le = test leb_ℤ;
  eq = test eqb_ℤ;
  mul = combine mul;
  div = combine div;
  abs = abs;
  ceil = ceil;
  trunc = trunc;
  is_nan = is_nan;
  is_inf = λ x. false;
}

pub Hundredths-IsOrdered : IsOrdered Hundredths
Hundredths-IsOrdered = ground arith
