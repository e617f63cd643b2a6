-- ===== src/Checker/Handle/Align.antt =====
-- `handle_align`, and the bits of a handle.
use rumur.Prelude.{ℕ, ◌+◌, ◌*◌, ◌/◌, ◌≤◌, ◌<◌, ◌≡◌, refl, Bool, true, false, ltb, ◌&&◌, ◌||◌, arith}
use rumur.Prelude.Results.{ok}
use rumur.Checker.Handle.{Handle, aligned_width, handle_align}

-- A handle as the checker makes it: the offset lies in the first byte.
abbrev pub IsHandle : Handle → Type 0
IsHandle h = (h.offset < 8) × (h.width ≤ 64)

-- the index of a handle's first bit
abbrev pub start : Handle → ℕ
start h = 8 * h.base + h.offset

abbrev pub aligned : Handle → Handle
aligned h = record { base = h.base; offset = 0; width = aligned_width h }

pub aligned_width_lem :
    (h : Handle)
    → (aligned_width h / 8 * 8 ≡ aligned_width h)
      × (h.width + h.offset ≤ aligned_width h)
      × (aligned_width h < h.width + h.offset + 8)
unfolding aligned_width
aligned_width_lem h = (ground arith, ground arith, ground arith)

pub handle_align-ok : (h : Handle) → IsHandle h → handle_align h ≡ ok (aligned h)
unfolding handle_align
handle_align-ok h (o, w) = let in_byte : ltb h.offset 8 ≡ true = ground arith in rw in_byte refl

-- Boolean units that no computation removes.
pub and_true : (p : Bool) → (p && true) ≡ p
and_true true = refl
and_true false = refl

pub and_false : (p : Bool) → (p && false) ≡ false
and_false true = refl
and_false false = refl

pub or_false : (p : Bool) → (p || false) ≡ p
or_false true = refl
or_false false = refl
