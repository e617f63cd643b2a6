-- ===== src/TypeExpr/Size/Bits.antt =====
-- `TypeExpr::width` of a type with a count is the least number of bits in which its values can be numbered from 0.
use mathlib.Core.WellFounded.{Acc}
use mathlib.Core.Logic.{dif_pos, dif_neg}
use native.Mathlib.Bridge.{le_prop}
use native.Mathlib.Nat.{zero-add, pow-suc, pow-le-pow_right}
use rumur.Prelude.{ℕ, suc, ◌+◌, ◌*◌, ◌/◌, ◌^◌, ◌<◌, ◌≤◌, ◌-◌, ◌≡◌, dec_lt, dec_le, arith, ap, ◌∙◌}
use rumur.Prelude.Int.{pos, pos_part, ◌-ℤ◌}
use rumur.Prelude.Order.{lt_wf}
use rumur.Prelude.Results.{ok, ◌>>=◌}
use rumur.Ast.{TypeExpr, range, scalarset, enum, record_type, array, type_expr_id, union}
use rumur.Gmp.{Gmp}
use rumur.TypeExpr.Size.{bits_loop, bits_of, simple_width, count, width}

-- The loop adds the number of bits of its argument: the least `k` with `n < 2 ^ k`.
bits_loop-bounds :
    (n : ℕ) (w : Acc ◌<◌ n) (bits : ℕ)
    → (k : ℕ) × (bits_loop n w bits ≡ bits + k) × (n < 2 ^ k) × (2 ^ k ≤ 2 * n + (1 - n))
unfolding bits_loop
bits_loop-bounds n (Acc.intro _ smaller) bits = elim (dec_lt 0 n) [
  | yes p ↦
      let (k, e, lt, le) = bits_loop-bounds (n / 2) (smaller (n / 2) (omega arith)) (bits + 1) in
      (
        suc k,
        rw (dif_pos _ le_prop p) (omega (arith, e)),
        rw pow-suc (omega arith),
        rw pow-suc (omega arith),
      )
  | no p ↦ (0, rw (dif_neg _ p) (omega arith), omega arith, omega arith)
]

least-pow : (k j n : ℕ) → 2 ^ k ≤ 2 * (n - 1) → 1 < n → n ≤ 2 ^ j → k ≤ j
least-pow k j n low big h = elim (dec_le k j) [
  | yes p ↦ p
  | no p ↦ absurd (
      omega (
        arith,
        pow-le-pow_right {n = 2} (omega arith) {i = suc j} {j = k} (omega arith),
        pow-suc 2 j,
      ))
]

pub pos_part-pred : (n : ℕ) → pos_part (pos n -ℤ pos 1) ≡ n - 1
unfolding ◌-ℤ◌
pos_part-pred n = ground arith

simple_width-bits_of : (n : ℕ) → 1 < n → simple_width (pos n) ≡ pos (bits_of (n - 1))
unfolding simple_width
simple_width-bits_of n h = ground (arith, pos_part-pred n)

simple_width-small : (n : ℕ) → n ≤ 1 → simple_width (pos n) ≡ pos 0
unfolding simple_width
simple_width-small n h = ground arith

pub simple_width-least :
    (n : ℕ) → (k : ℕ) × (simple_width (pos n) ≡ pos k) × (n ≤ 2 ^ k) × ((j : ℕ) → n ≤ 2 ^ j → k ≤ j)
unfolding bits_of
simple_width-least n = elim (dec_lt 1 n) [
  | yes big ↦
      let (k, e, lt, le) = bits_loop-bounds (n - 1) (lt_wf.apply (n - 1)) 0 in
      (
        k,
        simple_width-bits_of n big ∙ ap pos (e ∙ zero-add k),
        omega arith,
        λ j h. least-pow k j n (omega arith) big h,
      )
  | no small ↦ (0, simple_width-small n (omega arith), omega arith, λ j h. omega arith)
]

-- The classes of types that inherit `TypeExpr::width`.
abbrev pub InheritsWidth : TypeExpr → Type 0
InheritsWidth (range min max) = Unit
InheritsWidth (scalarset bound) = Unit
InheritsWidth (enum members) = Unit
InheritsWidth _ = ⊥

width-simple_width :
    (g : Gmp) (t : TypeExpr) (n : ℕ)
    → InheritsWidth t
    → count g t ≡ ok (pos n)
    → width g t ≡ ok (simple_width (pos n))
unfolding width
width-simple_width g (range min max) n simple counted =
    ap (λ r. r >>= λ c. ok (simple_width c)) counted
width-simple_width g (scalarset bound) n simple counted =
    ap (λ r. r >>= λ c. ok (simple_width c)) counted
width-simple_width g (enum members) n simple counted =
    ap (λ r. r >>= λ c. ok (simple_width c)) counted
width-simple_width g (record_type fields) n simple counted = absurd simple
width-simple_width g (array index element) n simple counted = absurd simple
width-simple_width g (type_expr_id name referent) n simple counted = absurd simple
width-simple_width g (union members) n simple counted = absurd simple

-- The width of a range, a scalarset or an enumeration whose count returns `n` is the least number of
-- bits that tell `n` values apart.
pub width-least :
    (g : Gmp) (t : TypeExpr) (n : ℕ)
    → InheritsWidth t
    → count g t ≡ ok (pos n)
    → (k : ℕ) × (width g t ≡ ok (pos k)) × (n ≤ 2 ^ k) × ((j : ℕ) → n ≤ 2 ^ j → k ≤ j)
width-least g t n simple counted =
    let (k, e, enough, least) = simple_width-least n in
    (k, width-simple_width g t n simple counted ∙ ap ok e, enough, least)
