-- ===== src/Checker/Value.antt =====
-- `handle_read`, `handle_write` and the functions below them of rumur/resources/header.c. A variable's
-- bits hold its value, counted from the lower bound of its type and by 1 more: 0 stands for undefined.
pub mod Stored
pub mod Laws
pub mod Undefined
use rumur.Prelude.{
  ℕ, ◌+◌, ◌-◌, ◌*◌, ◌/◌, ◌%◌, ◌^◌, Bool, true, false, if◌then◌else◌, ltb, leb, ◌==◌, ◌&&◌, ◌||◌,
  not,
}
use rumur.Prelude.Int.{ℤ, pos, pos_part, ◌+ℤ◌, ◌-ℤ◌, ltb_ℤ, leb_ℤ}
use rumur.Prelude.Results.{Result, ok, err, abort, assert, throw_if, ◌>>=◌, ◌>>◌}
use rumur.Checker.Faults.{wide_read, wide_write, undefined_read, out_of_range_write}
use rumur.Checker.Memory.{Memory}
use rumur.Checker.Handle.{Handle, read_raw, write_raw}

-- What the generated code and its compiler fix: `__SIZEOF_INT128__`, the limits of `value_t`, the bits
-- of `raw_value_t`, `MAX_SIMPLE_WIDTH`, and the size of a state's data in bytes.
pub record Target : Type 0 where
  pub has_int128 : Bool
  pub value_min : ℤ
  pub value_max : ℤ
  pub raw_bits : ℕ
  pub max_simple_width : ℕ
  pub state_size : ℕ

-- `sizeof(s->data) * CHAR_BIT - width`, in `size_t`
unfoldable pub bits_left : Target → ℕ → ℕ
bits_left c width = (c.state_size * 8 + 2 ^ 64 - width) % 2 ^ 64

-- the bounds check of a handle into the current state, whose data is at the given address
unfoldable pub in_bounds : Target → ℕ → Handle → Bool
unfolding bits_left
in_bounds c s_data h = not (h.base == s_data) || leb h.offset (bits_left c h.width)

unfoldable pub handle_read_raw : Target → Memory → Handle → Result ℕ
unfolding read_raw
handle_read_raw c m h = do
  throw_if (ltb c.raw_bits h.width) wide_read
  assert (leb h.width c.max_simple_width)
  raw ← read_raw c.has_int128 m h
  ok (raw % 2 ^ c.raw_bits)

-- whether a sum overflows `value_t`
unfoldable pub fits_value : Target → ℤ → Bool
fits_value c n = leb_ℤ c.value_min n && leb_ℤ n c.value_max

unfoldable pub decode_value : Target → ℤ → ℤ → ℕ → Result ℤ
unfolding fits_value
decode_value c lb ub v =
    let dest = pos (v - 1) +ℤ lb in
    let r = (v == 0) || (not (fits_value c dest) || (ltb_ℤ dest lb || ltb_ℤ ub dest)) in
    assert (not r) >> ok dest

unfoldable pub handle_read : Target → ℕ → Memory → ℤ → ℤ → Handle → Result ℤ
unfolding in_bounds handle_read_raw decode_value
handle_read c s_data m lb ub h = do
  assert (in_bounds c s_data h)
  dest ← handle_read_raw c m h
  throw_if (dest == 0) undefined_read
  decode_value c lb ub dest

unfoldable pub handle_write_raw : Target → Memory → Handle → ℕ → Result Memory
unfolding write_raw
handle_write_raw c m h value = do
  throw_if (ltb c.raw_bits h.width) wide_write
  assert (leb h.width c.max_simple_width)
  assert (leb value (2 ^ 64 - 1))
  write_raw c.has_int128 m h value

-- whether a result overflows `raw_value_t`
unfoldable pub fits_raw : Target → ℤ → Bool
fits_raw c n = leb_ℤ (pos 0) n && ltb_ℤ n (pos (2 ^ c.raw_bits))

unfoldable pub handle_write : Target → ℕ → Memory → ℤ → ℤ → Handle → ℤ → Result Memory
unfolding in_bounds handle_write_raw fits_raw
handle_write c s_data m lb ub h value = do
  assert (in_bounds c s_data h)
  let r = value -ℤ lb
  throw_if
      (ltb_ℤ value lb || (ltb_ℤ ub value || (not (fits_raw c r) || not (fits_raw c (r +ℤ pos 1)))))
      out_of_range_write
  handle_write_raw c m h (pos_part (r +ℤ pos 1))

unfoldable pub handle_isundefined : Target → Memory → Handle → Result Bool
unfolding handle_read_raw
handle_isundefined c m h = do v ← handle_read_raw c m h; ok (v == 0)
