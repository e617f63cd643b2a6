-- ===== src/Checker/Slot.antt =====
-- `slot_t` of rumur/resources/header.c: a pointer to a state with bits of the state's hash above it. A
-- slot has 64 bits.
pub mod Laws
use Prim.Native.Nat.{bit_and, bit_or}
use rumur.Prelude.{
  ℕ, ◌+◌, ◌-◌, ◌*◌, ◌/◌, ◌^◌, Bool, true, false, if◌then◌else◌, ltb, ◌==◌, ◌&&◌, not,
}
use rumur.Prelude.Results.{Result, ok, err, abort, assert, ◌>>=◌, ◌>>◌}

abbrev pub slot_empty : ℕ
slot_empty = 0

abbrev pub slot_is_empty : ℕ → Bool
slot_is_empty s = s == slot_empty

abbrev pub slot_tombstone : ℕ
slot_tombstone = 2 ^ 64 - 1

abbrev pub slot_is_tombstone : ℕ → Bool
slot_is_tombstone s = s == slot_tombstone

-- `POINTER_BITS > 0 && POINTER_BITS < sizeof(void *) * CHAR_BIT`
abbrev pub has_spare_bits : ℕ → Bool
has_spare_bits pointer_bits = ltb 0 pointer_bits && ltb pointer_bits 64

unfoldable pub slot_to_state : ℕ → ℕ → Result ℕ
slot_to_state pointer_bits s = do
  assert (not (slot_is_empty s))
  assert (not (slot_is_tombstone s))
  ok (if has_spare_bits pointer_bits then bit_and s (2 ^ pointer_bits - 1) else s)

unfoldable pub state_to_slot : ℕ → ℕ → ℕ → Result ℕ
state_to_slot pointer_bits s hash =
    if has_spare_bits pointer_bits
    then (do
      assert (s / 2 ^ pointer_bits == 0)
      ok (bit_or s (hash / 2 ^ pointer_bits * 2 ^ pointer_bits)))
    else ok s

unfoldable pub slot_neq : ℕ → ℕ → ℕ → Bool
slot_neq pointer_bits a b =
    has_spare_bits pointer_bits && not (a / 2 ^ pointer_bits == b / 2 ^ pointer_bits)
