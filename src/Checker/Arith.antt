-- ===== src/Checker/Arith.antt =====
-- The arithmetic wrappers of rumur/resources/header.c, on a `value_t` with the limits of the target, for
-- compilers that have the built-ins which detect overflow.
pub mod Laws
use rumur.Prelude.{
  ℕ, zero, suc, ◌+◌, ◌-◌, ◌*◌, ◌/◌, ◌%◌, ◌^◌, Bool, true, false, if◌then◌else◌, ltb, leb, ◌==◌,
  ◌&&◌, not,
}
use rumur.Prelude.Int.{
  ℤ, pos, negsuc, pos_part, neg_part, ◌+ℤ◌, ◌-ℤ◌, ◌*ℤ◌, neg, ltb_ℤ, leb_ℤ, ◌==ℤ◌,
}
use rumur.Prelude.Results.{Result, ok, throw_if, ◌>>=◌, ◌>>◌}
use rumur.Checker.Faults.{
  overflow_in_addition, overflow_in_subtraction, overflow_in_multiplication, divisor_of_zero,
  overflow_in_division, modulus_of_zero, overflow_in_negation,
}
use rumur.Checker.Value.{Target, fits_value}

unfoldable pub add : Target → ℤ → ℤ → Result ℤ
add c a b = throw_if (not (fits_value c (a +ℤ b))) overflow_in_addition >> ok (a +ℤ b)

unfoldable pub sub : Target → ℤ → ℤ → Result ℤ
sub c a b = throw_if (not (fits_value c (a -ℤ b))) overflow_in_subtraction >> ok (a -ℤ b)

unfoldable pub mul : Target → ℤ → ℤ → Result ℤ
mul c a b = throw_if (not (fits_value c (a *ℤ b))) overflow_in_multiplication >> ok (a *ℤ b)

abbrev pub magnitude : ℤ → ℕ
magnitude a = pos_part a + neg_part a

-- `a / b` and `a % b` of C, which round towards 0
unfoldable pub quotient : ℤ → ℤ → ℤ
quotient a b =
    let q = magnitude a / magnitude b in
    if (neg_part a == 0) && (neg_part b == 0)
    then pos q
    else if (ltb 0 (neg_part a)) && (ltb 0 (neg_part b))
    then pos q
    else neg (pos q)

unfoldable pub remainder : ℤ → ℤ → ℤ
remainder a b = let r = magnitude a % magnitude b in if neg_part a == 0 then pos r else neg (pos r)

-- `VALUE_MIN != 0 && a == VALUE_MIN`, and with `b == (value_t)-1`
abbrev pub is_least : Target → ℤ → Bool
is_least c a = not (c.value_min ==ℤ pos 0) && (a ==ℤ c.value_min)

unfoldable pub divide : Target → ℤ → ℤ → Result ℤ
divide c a b = do
  throw_if (b ==ℤ pos 0) divisor_of_zero
  throw_if (is_least c a && (b ==ℤ negsuc 0)) overflow_in_division
  ok (quotient a b)

unfoldable pub mod_value : Target → ℤ → ℤ → Result ℤ
mod_value c a b = do
  throw_if (b ==ℤ pos 0) modulus_of_zero
  ok (if is_least c a && (b ==ℤ negsuc 0) then pos 0 else remainder a b)

-- a result converted to `value_t`, which wraps round where the type is unsigned
unfoldable pub convert : Target → ℤ → ℤ
convert c n =
    if fits_value c n
    then n
    else if ltb_ℤ n (pos 0)
    then n +ℤ pos (2 ^ c.raw_bits)
    else n -ℤ pos (2 ^ c.raw_bits)

unfoldable pub negate : Target → ℤ → Result ℤ
negate c a = do throw_if (is_least c a) overflow_in_negation; ok (convert c (neg a))
