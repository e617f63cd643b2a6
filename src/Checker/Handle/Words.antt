-- ===== src/Checker/Handle/Words.antt =====
-- What `write_raw` does to the bits of the one or two words that it touches.
use Prim.Native.Nat.{min, bit_and, bit_or}
use native.Mathlib.Nat.{one-le-pow, pow-le-pow_right}
use rumur.Prelude.{
  ℕ, ◌+◌, ◌-◌, ◌*◌, ◌/◌, ◌%◌, ◌^◌, ◌≤◌, ◌<◌, ◌≡◌, ◌≢◌, refl, sym, ◌∙◌, ap, ap₂, Bool, Bool-cases,
  inl, inr, true, false, if◌then◌else◌, ltb, leb, ◌&&◌, ◌||◌, not, arith,
}
use rumur.Prelude.Bits.{
  testbit, testbit-bit_and, testbit-bit_or, testbit-shl, testbit-shr, testbit-wrap, testbit-mask,
  testbit-complement, testbit-high,
}
use rumur.Checker.Memory.{Memory, IsBytes, bit, copy_out, testbit-copy_out, bit-copy_in}
use rumur.Checker.Handle.Align.{
  IsHandle, start, aligned, aligned_width_lem, and_true, and_false, or_false,
}
use rumur.Checker.Handle.{
  Handle, aligned_width, low_size, high_size, low_or_mask, low_and_mask, write_low, write_high,
}

-- the bits of the handle within its first word
abbrev pub inside : Handle → ℕ → Bool
inside h j = leb h.offset j && ltb j (h.width + h.offset)

-- the part of the mask above the handle
top_bits :
    (size : ℕ) (h : Handle) (j : ℕ)
    → h.width + h.offset < 8 * size
    → j < 8 * low_size size (aligned h)
    → testbit
        ((2 ^ (aligned_width h - h.offset - h.width) - 1)
          * 2 ^ (low_size size (aligned h) * 8 - (aligned_width h - h.offset - h.width))
          % 2 ^ (8 * size))
        j
      ≡ leb (h.width + h.offset) j
top_bits size h j fits lt =
    let a = aligned_width_lem h in
    let above = aligned_width h - h.offset - h.width in
    let shift = low_size size (aligned h) * 8 - above in
    let shift_eq : shift ≡ h.width + h.offset = omega arith in
    testbit-wrap (8 * size) ((2 ^ above - 1) * 2 ^ shift) j
    ∙ ap (λ b. ltb j (8 * size) && b)
        (testbit-shl shift (2 ^ above - 1) j
          ∙ ap (λ b. leb shift j && b) (testbit-mask above (j - shift)))
    ∙ ground arith

testbit-low_and_mask :
    (size : ℕ) (h : Handle) (j : ℕ)
    → j < 8 * low_size size (aligned h)
    → testbit (low_and_mask size h (aligned h)) j ≡ (ltb j h.offset || leb (h.width + h.offset) j)
unfolding low_and_mask
testbit-low_and_mask size h j lt = elim (Bool-cases (ltb (h.width + h.offset) (8 * size))) [
  | inl fits ↦ rw fits (
      testbit-bit_or (2 ^ h.offset - 1) _ j
      ∙ ap₂ (λ b c. b || c) (testbit-mask h.offset j) (top_bits size h j (ground arith) lt))
  | inr wide ↦ rw wide (testbit-mask h.offset j ∙ ground arith)
]

testbit-shifted :
    (size : ℕ) (h : Handle) (v j : ℕ)
    → j < 8 * size
    → testbit (v * 2 ^ h.offset % 2 ^ (8 * size)) j ≡ (leb h.offset j && testbit v (j - h.offset))
testbit-shifted size h v j lt =
    let in_word : ltb j (8 * size) ≡ true = ground arith in
    testbit-wrap (8 * size) (v * 2 ^ h.offset) j
    ∙ ap₂ (λ b c. b && c) in_word (testbit-shl h.offset v j)

testbit-low_or_mask :
    (size : ℕ) (h : Handle) (v j : ℕ)
    → j < 8 * low_size size (aligned h)
    → testbit (low_or_mask size h (aligned h) v) j ≡ (leb h.offset j && testbit v (j - h.offset))
unfolding low_or_mask
testbit-low_or_mask size h v j lt =
    let n = low_size size (aligned h) in
    let shifted = testbit-shifted size h v j (omega arith) in
    let in_low : ltb j (n * 8) ≡ true = ground arith in
    elim (Bool-cases (ltb n size)) [
      | inl less ↦ rw less (
          testbit-bit_and (v * 2 ^ h.offset % 2 ^ (8 * size)) (2 ^ (n * 8) - 1) j
          ∙ ap₂ (λ b c. b && c) shifted (testbit-mask (n * 8) j ∙ in_low)
          ∙ and_true _)
      | inr full ↦ rw full shifted
    ]

merge_low :
    (offset width j : ℕ) (old new : Bool)
    → ((width ≤ j - offset) → new ≡ false)
    → ((old && (ltb j offset || leb (width + offset) j)) || (leb offset j && new))
      ≡ (if leb offset j && ltb j (width + offset) then new else old)
merge_low offset width j true new beyond = ground (arith, beyond)
merge_low offset width j false new beyond = ground (arith, beyond)

-- Outside its handle the low word keeps its bits.
testbit-low_word :
    (size : ℕ) (h : Handle) (low v j : ℕ)
    → v < 2 ^ h.width
    → j < 8 * low_size size (aligned h)
    → testbit
        (bit_or (bit_and low (low_and_mask size h (aligned h))) (low_or_mask size h (aligned h) v))
        j
      ≡ (if inside h j then testbit v (j - h.offset) else testbit low j)
testbit-low_word size h low v j small lt =
    let kept = testbit-bit_and low (low_and_mask size h (aligned h)) j in
    let mask = testbit-low_and_mask size h j lt in
    let set = testbit-low_or_mask size h v j lt in
    let beyond : (h.width ≤ j - h.offset) → testbit v (j - h.offset) ≡ false =
      testbit-high h.width v (j - h.offset) small in
    testbit-bit_or (bit_and low (low_and_mask size h (aligned h)))
      (low_or_mask size h (aligned h) v) j
    ∙ ap₂ (λ b c. b || c) (kept ∙ ap (λ b. testbit low j && b) mask) set
    ∙ merge_low h.offset h.width j (testbit low j) (testbit v (j - h.offset)) beyond

-- The bits between two indices are those of the value, the others as before.
abbrev pub Changed : Memory → Memory → ℕ → ℕ → ℕ → ℕ → Type 0
Changed m m' first lo hi v =
    (k : ℕ) → bit m' k ≡ (if leb lo k && ltb k hi then testbit v (k - first) else bit m k)

pub write_low-Changed :
    (size : ℕ) (m : Memory) (h : Handle) (v : ℕ)
    → IsBytes m
    → v < 2 ^ h.width
    → Changed m
        (write_low size m h (aligned h) v)
        (start h)
        (start h)
        (min (start h + h.width) (8 * (h.base + size)))
        v
unfolding write_low
write_low-Changed size m h v b small k =
    let n = low_size size (aligned h) in
    let a = aligned_width_lem h in
    let low = copy_out m h.base n in
    let word =
      bit_or (bit_and low (low_and_mask size h (aligned h))) (low_or_mask size h (aligned h) v) in
    let j = k - 8 * h.base in
    let hi = min (start h + h.width) (8 * (h.base + size)) in
    bit-copy_in m h.base word n k
    ∙ elim (Bool-cases (leb (8 * h.base) k && ltb k (8 * (h.base + n)))) [
      | inl within ↦
          let in_low : ltb j (8 * n) ≡ true = ground arith in
          let same_test : inside h j ≡ (leb (start h) k && ltb k hi) = ground arith in
          let same_new : testbit v (j - h.offset) ≡ testbit v (k - start h) =
            ap (testbit v) (omega arith) in
          let index : 8 * h.base + j ≡ k = ground arith in
          let old : testbit low j ≡ bit m k =
            testbit-copy_out m h.base n j b ∙ ap₂ (λ c i. c && bit m i) in_low index in
          rw within (
            testbit-low_word size h low v j small (ground arith)
            ∙ rw (same_test, same_new, old) refl)
      | inr outside ↦
          let same_test : (leb (start h) k && ltb k hi) ≡ false = ground arith in
          rw (outside, same_test) refl
    ]

-- The second word's bits.
testbit-high_word :
    (bits n high v shift j : ℕ)
    → n ≤ bits
    → v < 2 ^ (n + shift)
    → j < bits
    → testbit (bit_or (bit_and high (2 ^ bits - 1 - (2 ^ n - 1))) (v / 2 ^ shift)) j
      ≡ (if ltb j n then testbit v (j + shift) else testbit high j)
testbit-high_word bits n high v shift j fits small lt =
    let mask_lt : 2 ^ n - 1 < 2 ^ bits =
      omega (arith, pow-le-pow_right {n = 2} (omega arith) fits, one-le-pow n 2 (omega arith)) in
    let in_word : ltb j bits ≡ true = ground arith in
    let mask : testbit (2 ^ bits - 1 - (2 ^ n - 1)) j ≡ not (ltb j n) =
      testbit-complement bits (2 ^ n - 1) j mask_lt
      ∙ ap₂ (λ b c. b && not c) in_word (testbit-mask n j) in
    testbit-bit_or (bit_and high (2 ^ bits - 1 - (2 ^ n - 1))) (v / 2 ^ shift) j
    ∙ ap₂ (λ b c. b || c)
        (testbit-bit_and high (2 ^ bits - 1 - (2 ^ n - 1)) j ∙ ap (λ b. testbit high j && b) mask)
        (testbit-shr shift v j)
    ∙ elim (Bool-cases (ltb j n)) [
      | inl set ↦ rw (set, and_false (testbit high j)) refl
      | inr kept ↦
          let none : testbit v (j + shift) ≡ false =
            testbit-high (n + shift) v (j + shift) small (ground arith) in
          rw (kept, none, and_true (testbit high j)) (or_false _)
    ]

pub write_high-Changed :
    (size : ℕ) (m : Memory) (h : Handle) (v : ℕ)
    → IsBytes m
    → IsHandle h
    → 8 ≤ size
    → high_size size (aligned h) ≢ 0
    → v < 2 ^ h.width
    → Changed m
        (write_high size m h (aligned h) v)
        (start h)
        (8 * (h.base + size))
        (start h + h.width)
        v
unfolding write_high
write_high-Changed size m h v b (o, w) s wide small k =
    let a = aligned_width_lem h in
    let n = high_size size (aligned h) in
    let high = copy_out m (h.base + size) n in
    let bits = 8 * size in
    let rest = h.width + h.offset - bits in
    let shift = bits - h.offset in
    let word = bit_or (bit_and high (2 ^ bits - 1 - (2 ^ rest - 1))) (v / 2 ^ shift) in
    let j = k - 8 * (h.base + size) in
    bit-copy_in m (h.base + size) word n k
    ∙ elim (Bool-cases (leb (8 * (h.base + size)) k && ltb k (8 * (h.base + size + n)))) [
      | inl within ↦
          let same_test : ltb j rest ≡ (leb (8 * (h.base + size)) k && ltb k (start h + h.width)) =
            ground arith in
          let in_high : ltb j (8 * n) ≡ true = ground arith in
          let same_new : testbit v (j + shift) ≡ testbit v (k - start h) =
            ap (testbit v) (ground arith) in
          let index : 8 * (h.base + size) + j ≡ k = ground arith in
          let old : testbit high j ≡ bit m k =
            testbit-copy_out m (h.base + size) n j b ∙ ap₂ (λ c i. c && bit m i) in_high index in
          let width_eq : h.width ≡ rest + shift = omega arith in
          rw within (
            testbit-high_word bits rest high v shift j (omega arith) (rw (sym width_eq) small)
              (ground arith)
            ∙ rw (same_test, same_new, old) refl)
      | inr outside ↦
          let same_test : (leb (8 * (h.base + size)) k && ltb k (start h + h.width)) ≡ false =
            ground arith in
          rw (outside, same_test) refl
    ]
