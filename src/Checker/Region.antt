-- ===== src/Checker/Region.antt =====
-- `handle_zero`, `handle_copy` and `handle_eq` of rumur/resources/header.c, on handles of any width.
pub mod Bytes
pub mod Zero
pub mod Copy
pub mod Equal
use Prim.Native.Nat.{bit_and, bit_or}
use rumur.Prelude.{
  ℕ, zero, suc, ◌+◌, ◌-◌, ◌*◌, ◌/◌, ◌%◌, ◌^◌, Bool, true, false, if◌then◌else◌, ltb, leb, ◌==◌,
  ◌&&◌, not,
}
use rumur.Prelude.Results.{Result, ok, abort, assert, ◌>>=◌, ◌>>◌}
use rumur.Prelude.Bits.{testbit}
use rumur.Checker.Memory.{Memory, bit}
use rumur.Checker.Handle.{Handle}

-- `*p = x;`
unfoldable pub set_byte : Memory → ℕ → ℕ → Memory
set_byte m p x a = if a == p then x else m a

-- `memset(p, 0, size);`
unfoldable pub clear_bytes : Memory → ℕ → ℕ → Memory
clear_bytes m p size a = if leb p a && ltb a (p + size) then 0 else m a

-- from a byte boundary on: the whole bytes, then the trailing bits of the last one
unfoldable pub zero_bytes : Memory → ℕ → ℕ → Memory
unfolding set_byte clear_bytes
zero_bytes m p width =
    let m' = clear_bytes m p (width / 8) in
    let p' = p + width / 8 in
    let rest = width - width / 8 * 8 in
    if ltb 0 rest then set_byte m' p' (bit_and (m' p') (255 - (2 ^ rest - 1))) else m'

-- the bits of the first byte that stay
unfoldable pub zero_mask : ℕ → ℕ → ℕ
zero_mask offset width =
    let mask = 2 ^ offset - 1 in
    if ltb width (8 - offset)
    then bit_or mask (bit_and 255 (255 - (2 ^ (offset + width) - 1)))
    else mask

unfoldable pub handle_zero : Memory → Handle → Memory
unfolding set_byte zero_mask zero_bytes
handle_zero m h =
    let p = h.base + h.offset / 8 in
    let offset = h.offset % 8 in
    if offset == 0
    then zero_bytes m p h.width
    else let m' = set_byte m p (bit_and (m p) (zero_mask offset h.width)) in
      if ltb h.width (8 - offset) then m' else zero_bytes m' (p + 1) (h.width - (8 - offset))

-- one bit of `src` moved to `dst`
unfoldable pub copy_bit : Memory → ℕ → ℕ → ℕ → ℕ → Memory
unfolding set_byte
copy_bit m dst dst_off src src_off =
    let or_mask = bit_and (m src / 2 ^ src_off) 1 * 2 ^ dst_off in
    let and_mask = 255 - 2 ^ dst_off in set_byte m dst (bit_or (bit_and (m dst) and_mask) or_mask)

-- `for (; i < a.width; i++)`, with the number of rounds that are left
unfoldable pub copy_bits : Memory → Handle → Handle → ℕ → ℕ → Memory
unfolding copy_bit
copy_bits m a b i zero = m
copy_bits m a b i (suc rounds) =
    let m' =
      copy_bit m (a.base + (a.offset + i) / 8) ((a.offset + i) % 8) (b.base + (b.offset + i) / 8)
        ((b.offset + i) % 8) in
    copy_bits m' a b (i + 1) rounds

unfoldable pub handle_copy : Memory → Handle → Handle → Result Memory
unfolding copy_bits
handle_copy m a b = do assert (a.width == b.width); ok (copy_bits m a b 0 a.width)

unfoldable pub eq_bits : Memory → Handle → Handle → ℕ → ℕ → Bool
eq_bits m a b i zero = true
eq_bits m a b i (suc rounds) =
    let x_bit = bit_and (m (a.base + (a.offset + i) / 8) / 2 ^ ((a.offset + i) % 8)) 1 in
    let y_bit = bit_and (m (b.base + (b.offset + i) / 8) / 2 ^ ((b.offset + i) % 8)) 1 in
    let rest = eq_bits m a b (i + 1) rounds in if not (x_bit == y_bit) then false else rest

unfoldable pub handle_eq : Memory → Handle → Handle → Result Bool
unfolding eq_bits
handle_eq m a b = do assert (a.width == b.width); ok (eq_bits m a b 0 a.width)
