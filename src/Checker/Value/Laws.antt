-- ===== src/Checker/Value/Laws.antt =====
-- `handle_write` and `handle_read` of a variable of a range type.
use rumur.Prelude.{
  ℕ, ◌+◌, ◌-◌, ◌^◌, ◌≤◌, ◌<◌, ◌≡◌, refl, sym, ◌∙◌, ap, subst, true, false, ◌==◌, arith,
}
use native.Mathlib.Nat.{pow-le-pow_right}
use rumur.Prelude.Int.{
  ℤ, pos, negsuc, pos_part, neg_part, ◌+ℤ◌, ◌-ℤ◌, ◌≤ℤ◌, ltb_ℤ, +ℤ_parts, -ℤ_parts, eq_of_parts,
}
use rumur.Prelude.Results.{ok, throw_if, ◌>>=◌}
use rumur.Checker.Faults.{undefined_read}
use rumur.TypeExpr.Size.{simple_width, range_count}
use rumur.TypeExpr.Size.Bits.{simple_width-least}
use rumur.Checker.Memory.{Memory, IsBytes}
use rumur.Checker.Handle.{Handle}
use rumur.Checker.Value.Stored.{IsSimple, handle_read_raw-handle_write_raw}
use rumur.Checker.Value.{
  Target, in_bounds, handle_read_raw, fits_value, decode_value, handle_read, handle_write_raw,
  fits_raw, handle_write, handle_isundefined,
}

-- what is stored for a value
abbrev pub code : ℤ → ℤ → ℕ
code lb value = pos_part (value -ℤ lb +ℤ pos 1)

pub nonneg : (z : ℤ) → pos 0 ≤ℤ z → neg_part z ≡ 0
nonneg (pos n) le = refl
nonneg (negsuc n) le = absurd (omega arith)

-- the parts of the stored number
code_parts :
    (lb value : ℤ)
    → lb ≤ℤ value
    → (neg_part (value -ℤ lb) ≡ 0)
      × (neg_part (value -ℤ lb +ℤ pos 1) ≡ 0)
      × (code lb value ≡ pos_part (value -ℤ lb) + 1)
      × (pos_part (value -ℤ lb) + pos_part lb + neg_part value ≡ pos_part value + neg_part lb)
code_parts lb value le =
    let d = -ℤ_parts value lb in
    let e = +ℤ_parts (value -ℤ lb) (pos 1) in
    let p : neg_part (value -ℤ lb) ≡ 0 = nonneg (value -ℤ lb) (omega arith) in
    let q : neg_part (value -ℤ lb +ℤ pos 1) ≡ 0 = nonneg (value -ℤ lb +ℤ pos 1) (omega arith) in
    (p, q, omega arith, omega arith)

decoded : (lb value : ℤ) → lb ≤ℤ value → pos (code lb value - 1) +ℤ lb ≡ value
decoded lb value le =
    let (p, q, r, s) = code_parts lb value le in
    eq_of_parts _ _ (omega (arith, +ℤ_parts (pos (code lb value - 1)) lb))

decode-code :
    (c : Target) (lb ub value : ℤ)
    → lb ≤ℤ value
    → value ≤ℤ ub
    → c.value_min ≤ℤ lb
    → ub ≤ℤ c.value_max
    → decode_value c lb ub (code lb value) ≡ ok value
unfolding decode_value
decode-code c lb ub value le ge least most =
    let (p, q, r, s) = code_parts lb value le in
    let set : (code lb value == 0) ≡ false = ground arith in
    let fits : fits_value c value ≡ true = ground arith in
    let above : ltb_ℤ value lb ≡ false = ground arith in
    let below : ltb_ℤ ub value ≡ false = ground arith in
    rw (decoded lb value le, set, fits, above, below) refl

range_codes :
    (lb ub value : ℤ) (w : ℕ)
    → lb ≤ℤ value
    → value ≤ℤ ub
    → simple_width (range_count lb ub) ≡ pos w
    → code lb value < 2 ^ w
unfolding range_count
range_codes lb ub value w le ge e =
    let (p, q, r, s) = code_parts lb value le in
    let d = -ℤ_parts ub lb in
    let f = +ℤ_parts (ub -ℤ lb) (pos 2) in
    let n = pos_part (ub -ℤ lb +ℤ pos 2) in
    let g : neg_part (ub -ℤ lb +ℤ pos 2) ≡ 0 = nonneg (ub -ℤ lb +ℤ pos 2) (omega arith) in
    let count : ub -ℤ lb +ℤ pos 2 ≡ pos n = eq_of_parts _ _ (omega arith) in
    let (k, width, le, least) = simple_width-least n in
    let same : k ≡ w = ap pos_part (sym width ∙ ap simple_width (sym count) ∙ e) in
    let bound : n ≤ 2 ^ w = subst (λ j. n ≤ 2 ^ j) same le in omega arith

-- A variable of the range lb..ub, in a handle as wide as the type.
abbrev pub IsRangeHandle : Target → ℕ → ℤ → ℤ → Handle → Type 0
IsRangeHandle c s_data lb ub h =
    IsSimple c h
    × (in_bounds c s_data h ≡ true)
    × (simple_width (range_count lb ub) ≡ pos h.width)
    × (c.value_min ≤ℤ lb)
    × (ub ≤ℤ c.value_max)

fits_raw-code :
    (c : Target) (lb value : ℤ)
    → lb ≤ℤ value
    → code lb value < 2 ^ c.raw_bits
    → (fits_raw c (value -ℤ lb) ≡ true) × (fits_raw c (value -ℤ lb +ℤ pos 1) ≡ true)
unfolding fits_raw
fits_raw-code c lb value le lt =
    let (p, q, r, s) = code_parts lb value le in (ground arith, ground arith)

handle_write-code :
    (c : Target) (s_data : ℕ) (m : Memory) (lb ub : ℤ) (h : Handle) (value : ℤ)
    → IsRangeHandle c s_data lb ub h
    → lb ≤ℤ value
    → value ≤ℤ ub
    → handle_write c s_data m lb ub h value ≡ handle_write_raw c m h (code lb value)
unfolding handle_write
handle_write-code c s_data m lb ub h value ((p, narrow, simple), bounds, width, least, most) le ge =
    let lt = range_codes lb ub value h.width le ge width in
    let raw : code lb value < 2 ^ c.raw_bits =
      omega (arith, pow-le-pow_right {n = 2} (omega arith) narrow) in
    let (f, f') = fits_raw-code c lb value le raw in
    let above : ltb_ℤ value lb ≡ false = ground arith in
    let below : ltb_ℤ ub value ≡ false = ground arith in rw (bounds, above, below, f, f') refl

handle_read-code :
    (c : Target) (s_data : ℕ) (m : Memory) (lb ub : ℤ) (h : Handle) (value : ℤ)
    → IsRangeHandle c s_data lb ub h
    → lb ≤ℤ value
    → value ≤ℤ ub
    → handle_read_raw c m h ≡ ok (code lb value)
    → handle_read c s_data m lb ub h ≡ ok value
unfolding handle_read
handle_read-code c s_data m lb ub h value (_, bounds, _, least, most) le ge read =
    let (_, _, r, _) = code_parts lb value le in
    let set : (code lb value == 0) ≡ false = ground arith in
    rw (bounds, read)
      (ap (λ t. throw_if t undefined_read >>= λ _. decode_value c lb ub (code lb value)) set
        ∙ decode-code c lb ub value le ge least most)

-- A variable of a range type, in a handle of the width that TypeExpr::width gives the type: each value
-- of the range can be written, is read back, and is not undefined.
pub handle_read-handle_write :
    (c : Target) (s_data : ℕ) (m : Memory) (lb ub : ℤ) (h : Handle) (value : ℤ)
    → IsBytes m
    → IsRangeHandle c s_data lb ub h
    → lb ≤ℤ value
    → value ≤ℤ ub
    → (m' : Memory) × (handle_write c s_data m lb ub h value ≡ ok m')
      × (handle_read c s_data m' lb ub h ≡ ok value)
      × (handle_isundefined c m' h ≡ ok false)
unfolding handle_isundefined
handle_read-handle_write c s_data m lb ub h value b p le ge =
    let (simple, bounds, width, least, most) = p in
    let (m', wrote, read) =
      handle_read_raw-handle_write_raw c m h (code lb value) b simple
        (range_codes lb ub value h.width le ge width) in
    let (_, _, r, _) = code_parts lb value le in
    let set : (code lb value == 0) ≡ false = ground arith in
    (
      m',
      handle_write-code c s_data m lb ub h value p le ge ∙ wrote,
      handle_read-code c s_data m' lb ub h value p le ge read,
      rw (read, set) refl,
    )
