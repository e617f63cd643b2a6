-- ===== src/Checker/Place.antt =====
-- How the checker makes handles: `state_handle`, `handle_narrow` and `handle_index` of
-- rumur/resources/header.c. A `size_t` has 64 bits.
pub mod Laws
pub mod Variables
use rumur.Prelude.{
  ℕ, ◌+◌, ◌*◌, ◌/◌, ◌%◌, ◌^◌, Bool, true, false, if◌then◌else◌, ltb, leb, ◌==◌, ◌&&◌, ◌||◌, not,
}
use rumur.Prelude.Int.{ℤ, pos, pos_part, ◌-ℤ◌, ltb_ℤ, leb_ℤ}
use rumur.Prelude.Results.{Result, ok, err, abort, assert, throw_if, ◌>>=◌, ◌>>◌}
use rumur.Checker.Faults.{index_out_of_range, index_overflow}
use rumur.Checker.Handle.{Handle}
use rumur.Checker.Value.{Target, bits_left}

unfoldable pub state_handle : Target → ℕ → ℕ → ℕ → Result Handle
unfolding bits_left
state_handle c s_data offset width = do
  assert (leb offset (bits_left c width))
  ok (record { base = s_data + offset / 8; offset = offset % 8; width = width })

-- whether a result overflows `size_t`
unfoldable pub fits_size : ℕ → Bool
fits_size n = ltb n (2 ^ 64)

unfoldable pub handle_narrow : Handle → ℕ → ℕ → Result Handle
unfolding fits_size
handle_narrow h offset width = do
  assert (leb ((h.offset + offset + width) % 2 ^ 64) ((h.offset + h.width) % 2 ^ 64))
  assert (fits_size (h.offset + offset))
  ok (record {
    base = h.base + (h.offset + offset) / 8;
    offset = (h.offset + offset) % 8;
    width = width;
  })

unfoldable pub handle_index : ℕ → ℤ → ℤ → Handle → ℤ → Result Handle
unfolding fits_size
handle_index element_width index_min index_max root index = do
  throw_if (ltb_ℤ index index_min || ltb_ℤ index_max index) index_out_of_range
  let r1 = index -ℤ index_min
  let r2 = pos_part r1 * element_width
  throw_if (not (leb_ℤ (pos 0) r1 && fits_size (pos_part r1)) || not (fits_size r2)) index_overflow
  assert (fits_size (root.offset + r2))
  ok (record {
    base = root.base + (root.offset + r2) / 8;
    offset = (root.offset + r2) % 8;
    width = element_width;
  })
