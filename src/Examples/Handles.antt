-- ===== src/Examples/Handles.antt =====
-- Handles: a memory whose bytes count up, and a target with 16-bit values.
use native.Mathlib.Omega.{arith}
use rumur.Prelude.{
  ℕ, ◌+◌, ◌*◌, ◌%◌, ◌^◌, ◌-◌, ◌≤◌, ◌<◌, ◌≡◌, ◌≢◌, ◌∙◌, ap, refl, Bool-cases, true, false, ltb, leb,
  ◌&&◌, if◌then◌else◌, inl, inr, ◌↔◌,
}
use rumur.Prelude.Int.{pos, pos_part, negsuc, ◌-ℤ◌, ◌+ℤ◌}
use rumur.Prelude.Results.{ok, err, ◌>>=◌}
use rumur.TypeExpr.Size.{simple_width, range_count}
use rumur.TypeExpr.Size.Bits.{simple_width-least}
use rumur.Checker.Handle.ReadWord.{two_pow_le}
use rumur.Checker.Value.Stored.{IsSimple}
use rumur.Checker.Faults.{undefined_read}
use rumur.Checker.Memory.{Memory, IsBytes, bit}
use rumur.Checker.Handle.{Handle, read_raw, write_raw}
use rumur.Checker.Handle.Align.{start}
use rumur.Checker.Handle.ReadWrite.{read_raw-write_raw, Disjoint, int128_alternatives}
use rumur.Checker.Region.{handle_zero, handle_copy, handle_eq}
use rumur.Checker.Region.Copy.{handle_copy_lem}
use rumur.Checker.Region.Equal.{handle_eq_iff}
use rumur.Checker.Value.{Target, handle_read, handle_write, handle_isundefined, in_bounds}
use rumur.Checker.Value.Laws.{handle_read-handle_write}
use rumur.Checker.Value.Undefined.{handle_read-handle_zero}
use rumur.Checker.Place.{handle_index}
use rumur.Checker.Place.Laws.{handle_index-Disjoint, position}

abbrev pub counting : Memory
counting a = a % 256

pub counting-IsBytes : IsBytes counting
counting-IsBytes a = omega arith

-- nine bytes
abbrev wide : Handle
wide = record { base = 3; offset = 5; width = 62 }

read_raw-write_raw_example :
    (write_raw false counting wide 1000 >>= λ m'. read_raw false m' wide) ≡ ok (1000 % 2 ^ 62)
read_raw-write_raw_example =
    read_raw-write_raw false counting wide 1000 counting-IsBytes (omega arith, omega arith)
      (omega arith)

int128_alternatives_example :
    (read_raw true counting wide ≡ read_raw false counting wide)
    × (write_raw true counting wide 1000 ≡ write_raw false counting wide 1000)
int128_alternatives_example =
    int128_alternatives counting wide 1000 counting-IsBytes (omega arith, omega arith) (omega arith)

abbrev later : Handle
later = record { base = 20; offset = 2; width = 62 }

handle_copy_lem_example :
    (m' : Memory) × (handle_copy counting wide later ≡ ok m')
    × ((k : ℕ)
        → bit m' k ≡ (
            if leb (start wide) k && ltb k (start wide + wide.width)
            then bit counting (start later + (k - start wide))
            else bit counting k))
handle_copy_lem_example = handle_copy_lem counting wide later refl (inl (omega arith))

handle_eq_iff_example :
    (handle_eq counting wide later ≡ ok true)
    ↔ ((i : ℕ) → i < wide.width → bit counting (start wide + i) ≡ bit counting (start later + i))
handle_eq_iff_example = handle_eq_iff counting wide later refl

abbrev pub target : Target
target = record {
  has_int128 = true;
  value_min = negsuc 32767;
  value_max = pos 32767;
  raw_bits = 16;
  max_simple_width = 4;
  state_size = 8;
}

-- the variable of -5..8 in the second byte of a state at address 16
abbrev score : Handle
score = record { base = 17; offset = 6; width = 4 }

score-width : simple_width (range_count (negsuc 4) (pos 8)) ≡ pos 4
unfolding range_count ◌-ℤ◌ ◌+ℤ◌
score-width =
    let (k, e, le, least) = simple_width-least 15 in
    let most : k ≤ 4 = least 4 (omega arith) in
    let exact : k ≡ 4 = elim (Bool-cases (leb k 3)) [
      | inl small ↦ let few : 2 ^ k ≤ 2 ^ 3 = two_pow_le k 3 (ground arith) in absurd (omega arith)
      | inr big ↦ ground arith
    ] in
    e ∙ ap pos exact

score-in_bounds : in_bounds target 16 score ≡ true
unfolding in_bounds
score-in_bounds = refl

score-IsSimple : IsSimple target score
score-IsSimple = ((omega arith, omega arith), omega arith, omega arith)

places_differ : pos 2 ≢ pos 4
places_differ e = let no : ◌≡◌ {A = ℕ} 2 4 = ap pos_part e in absurd (omega arith)

handle_read-handle_write_example :
    (m' : Memory) × (handle_write target 16 counting (negsuc 4) (pos 8) score (pos 3) ≡ ok m')
    × (handle_read target 16 m' (negsuc 4) (pos 8) score ≡ ok (pos 3))
    × (handle_isundefined target m' score ≡ ok false)
handle_read-handle_write_example =
    handle_read-handle_write target 16 counting (negsuc 4) (pos 8) score (pos 3) counting-IsBytes
      (score-IsSimple, score-in_bounds, score-width, omega arith, omega arith) (omega arith)
      (omega arith)

handle_read-handle_zero_example :
    (handle_isundefined target (handle_zero counting score) score ≡ ok true)
    × (handle_read target 16 (handle_zero counting score) (negsuc 4) (pos 8) score
        ≡ err undefined_read)
handle_read-handle_zero_example =
    handle_read-handle_zero target 16 counting (negsuc 4) (pos 8) score counting-IsBytes
      score-IsSimple score-in_bounds

last_fits : (position (pos 1) (pos 5) + 1) * 12 ≤ wide.width
unfolding ◌-ℤ◌
last_fits = omega arith

-- the elements 2 and 4 of an array over 1..5
handle_index-Disjoint_example :
    (g : Handle) × (h : Handle) × (handle_index 12 (pos 1) (pos 5) wide (pos 2) ≡ ok g)
    × (handle_index 12 (pos 1) (pos 5) wide (pos 4) ≡ ok h)
    × (g.width ≡ 12)
    × (start wide ≤ start g)
    × (start g + g.width ≤ start wide + wide.width)
    × Disjoint g h
handle_index-Disjoint_example =
    handle_index-Disjoint 12 (pos 1) (pos 5) wide (pos 2) (pos 4)
      (omega arith, last_fits, omega arith) (omega arith) (omega arith) (omega arith) (omega arith)
      places_differ
