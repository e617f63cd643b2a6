-- ===== src/Checker/Value/Undefined.antt =====
-- A variable after `handle_zero`.
use rumur.Prelude.{
  ℕ, ◌+◌, ◌<◌, ◌≡◌, refl, sym, ◌∙◌, ap, Bool, true, false, Bool-cases, inl, inr, ltb, leb, ◌&&◌,
  not, arith, ◌^◌,
}
use native.Mathlib.Nat.{one-le-pow, mod-eq_of_lt}
use rumur.Prelude.Int.{ℤ}
use rumur.Prelude.Results.{ok, err}
use rumur.Checker.Faults.{undefined_read}
use rumur.Prelude.Bits.{testbit, testbit-zero, testbit_ext}
use rumur.Checker.Memory.{Memory, IsBytes, bit}
use rumur.Checker.Handle.{Handle, read_raw}
use rumur.Checker.Handle.Align.{IsHandle, start}
use rumur.Checker.Handle.Read.{read_raw-Reads}
use rumur.Checker.Region.{handle_zero}
use rumur.Checker.Region.Zero.{bit-handle_zero, handle_zero-IsBytes}
use rumur.Checker.Value.Stored.{IsSimple, handle_read_raw-read}
use rumur.Checker.Value.{Target, in_bounds, handle_read_raw, handle_read, handle_isundefined}

cleared :
    (m : Memory) (h : Handle) (i : ℕ)
    → (ltb i h.width && bit (handle_zero m h) (start h + i)) ≡ false
cleared m h i = elim (Bool-cases (ltb i h.width)) [
  | inl within ↦
      let inside : (leb (start h) (start h + i) && ltb (start h + i) (start h + h.width)) ≡ true =
        ground arith in
      rw within (bit-handle_zero m h (start h + i) ∙ ap (λ b. not b && bit m (start h + i)) inside)
  | inr beyond ↦ rw beyond refl
]

read_raw-handle_zero :
    (has_int128 : Bool) (m : Memory) (h : Handle)
    → IsBytes m
    → IsHandle h
    → read_raw has_int128 (handle_zero m h) h ≡ ok 0
read_raw-handle_zero has_int128 m h b p =
    let (v, read, holds, lt) =
      read_raw-Reads has_int128 (handle_zero m h) h (handle_zero-IsBytes m h b) p in
    let none : (i : ℕ) → testbit v i ≡ testbit 0 i =
      λ i. holds i ∙ cleared m h i ∙ sym (testbit-zero i) in
    read ∙ ap ok (testbit_ext 64 v 0 lt (omega arith) none)

zero_raw :
    (c : Target) (m : Memory) (h : Handle)
    → IsBytes m
    → IsSimple c h
    → handle_read_raw c (handle_zero m h) h ≡ ok 0
zero_raw c m h b p =
    let (handle, _, _) = p in
    let small : 0 < 2 ^ c.raw_bits = one-le-pow c.raw_bits 2 (omega arith) in
    handle_read_raw-read c (handle_zero m h) h p
    ∙ rw (read_raw-handle_zero c.has_int128 m h b handle) (ap ok (mod-eq_of_lt small))

-- After handle_zero a variable of a simple type is undefined, and a read of it is an error.
pub handle_read-handle_zero :
    (c : Target) (s_data : ℕ) (m : Memory) (lb ub : ℤ) (h : Handle)
    → IsBytes m
    → IsSimple c h
    → in_bounds c s_data h ≡ true
    → (handle_isundefined c (handle_zero m h) h ≡ ok true)
      × (handle_read c s_data (handle_zero m h) lb ub h ≡ err undefined_read)
unfolding handle_isundefined handle_read
handle_read-handle_zero c s_data m lb ub h b p bounds =
    let zeroed = zero_raw c m h b p in (rw zeroed refl, rw (bounds, zeroed) refl)
