-- ===== src/Checker/Handle.antt =====
-- `struct handle`, `read_raw` and `write_raw` of rumur/resources/header.c, with and without the
-- compiler's `__int128`.
pub mod Align
pub mod ReadWord
pub mod Read
pub mod Words
pub mod Write
pub mod ReadWrite
use Prim.Native.Nat.{min, bit_and, bit_or}
use rumur.Prelude.{
  ℕ, ◌+◌, ◌-◌, ◌*◌, ◌/◌, ◌%◌, ◌^◌, Bool, true, false, if◌then◌else◌, ltb, leb, ◌==◌, ◌&&◌, ◌||◌,
  not,
}
use rumur.Prelude.Results.{Result, ok, err, abort, assert, ◌>>=◌, ◌>>◌}
use rumur.Checker.Memory.{Memory, copy_out, copy_in}

pub record Handle : Type 0 where
  pub base : ℕ
  pub offset : ℕ
  pub width : ℕ

-- the width and the offset, rounded up to whole bytes
unfoldable pub aligned_width : Handle → ℕ
aligned_width h =
    let width = h.width + h.offset in if width % 8 == 0 then width else width + (8 - width % 8)

unfoldable pub handle_align : Handle → Result Handle
unfolding aligned_width
handle_align h = do
  assert (ltb h.offset 8)
  ok (record { base = h.base; offset = 0; width = aligned_width h })

-- The word that the code reads into has `size` bytes: 16 for `unsigned __int128`, 8 for `uint64_t`.
-- The bytes of a handle that the first word takes.
abbrev pub low_size : ℕ → Handle → ℕ
low_size size aligned = min (aligned.width / 8) size

abbrev pub high_size : ℕ → Handle → ℕ
high_size size aligned = aligned.width / 8 - low_size size aligned

-- the optimisation hints: more than one word is needed only by what is wider than all but one byte of it
abbrev pub fits_hint : ℕ → Handle → Bool
fits_hint size aligned = leb (aligned.width / 8) size || ltb ((size - 1) * 8) aligned.width

-- the two words, combined and shifted down
unfoldable pub read_word : ℕ → Memory → Handle → Handle → ℕ
unfolding copy_out
read_word size m h aligned =
    let bits = 8 * size in
    let low = copy_out m aligned.base (low_size size aligned) / 2 ^ h.offset in
    if high_size size aligned == 0
    then low
    else let high = copy_out m (aligned.base + size) (high_size size aligned) in
      bit_or low (high * 2 ^ (bits - h.offset) % 2 ^ bits)

-- the mask of the handle's width
unfoldable pub read_words : ℕ → Memory → Handle → Handle → Result ℕ
unfolding read_word
read_words size m h aligned = do
  assert (fits_hint size aligned)
  let word = read_word size m h aligned
  ok (if ltb h.width (8 * size) then bit_and word (2 ^ h.width - 1) else word)

unfoldable pub read_raw : Bool → Memory → Handle → Result ℕ
unfolding handle_align read_words
read_raw has_int128 m h = do
  assert (leb h.width 64)
  if h.width == 0 then ok 0 else (do
    aligned ← handle_align h
    assert (aligned.offset == 0)
    if has_int128 && ltb (7 * 8) aligned.width
        then (do low ← read_words 16 m h aligned; assert (leb low (2 ^ 64 - 1)); ok low)
        else read_words 8 m h aligned)

-- the bits of the low word that the write sets, and those that it keeps
unfoldable pub low_or_mask : ℕ → Handle → Handle → ℕ → ℕ
low_or_mask size h aligned v =
    let or_mask = v * 2 ^ h.offset % 2 ^ (8 * size) in
    if ltb (low_size size aligned) size
    then bit_and or_mask (2 ^ (low_size size aligned * 8) - 1)
    else or_mask

unfoldable pub low_and_mask : ℕ → Handle → Handle → ℕ
low_and_mask size h aligned =
    let and_mask = 2 ^ h.offset - 1 in
    let high_bits = aligned.width - h.offset - h.width in
    if ltb (h.width + h.offset) (8 * size)
    then bit_or and_mask
        ((2 ^ high_bits - 1) * 2 ^ (low_size size aligned * 8 - high_bits) % 2 ^ (8 * size))
    else and_mask

unfoldable pub write_low : ℕ → Memory → Handle → Handle → ℕ → Memory
unfolding copy_out copy_in low_or_mask low_and_mask
write_low size m h aligned v =
    let low = copy_out m aligned.base (low_size size aligned) in
    copy_in m aligned.base
      (bit_or (bit_and low (low_and_mask size h aligned)) (low_or_mask size h aligned v))
      (low_size size aligned)

unfoldable pub write_high : ℕ → Memory → Handle → Handle → ℕ → Memory
unfolding copy_out copy_in
write_high size m h aligned v =
    let bits = 8 * size in
    let high = copy_out m (aligned.base + size) (high_size size aligned) in
    let or_mask = v / 2 ^ (bits - h.offset) in
    let and_mask = 2 ^ bits - 1 - (2 ^ (h.width + h.offset - bits) - 1) in
    copy_in m (aligned.base + size) (bit_or (bit_and high and_mask) or_mask)
      (high_size size aligned)

unfoldable pub write_words : ℕ → Memory → Handle → Handle → ℕ → Result Memory
unfolding write_low write_high
write_words size m h aligned v = do
  assert (fits_hint size aligned)
  let m' = write_low size m h aligned v
  ok (if high_size size aligned == 0 then m' else write_high size m' h aligned v)

unfoldable pub write_raw : Bool → Memory → Handle → ℕ → Result Memory
unfolding handle_align write_words
write_raw has_int128 m h v = if h.width == 0 then ok m else (do
  let value = if ltb h.width 64 then bit_and v (2 ^ h.width - 1) else v
  aligned ← handle_align h
  assert (aligned.offset == 0)
  write_words (if has_int128 && ltb (7 * 8) aligned.width then 16 else 8) m h aligned value)
