-- ===== src/Checker/Handle/ReadWord.antt =====
-- The bits of the one or two words that `read_raw` combines.
use native.Mathlib.Nat.{div-le_self, one-le-pow, pow-le-pow_right, mod-lt}
use rumur.Prelude.{
  ℕ, ◌+◌, ◌-◌, ◌*◌, ◌/◌, ◌%◌, ◌^◌, ◌≤◌, ◌<◌, ◌≡◌, ◌≢◌, refl, ◌∙◌, ap, ap₂, Bool, Bool-cases, inl,
  inr, true, false, ltb, leb, ◌==◌, ◌&&◌, ◌||◌, arith,
}
use rumur.Prelude.Bits.{testbit, testbit-bit_or, testbit-shl, testbit-shr, testbit-wrap, bit_or-lt}
use rumur.Checker.Memory.{Memory, IsBytes, bit, copy_out, testbit-copy_out, copy_out-lt}
use rumur.Checker.Handle.Align.{IsHandle, start, aligned, aligned_width_lem, or_false}
use rumur.Checker.Handle.{Handle, low_size, high_size, read_word}

-- The two words' shares of the bits.
abbrev pub Here : ℕ → Memory → Handle → ℕ → Type 0
Here size m h i =
    (ltb (i + h.offset) (8 * low_size size (aligned h)) && bit m (8 * h.base + (i + h.offset)))
    ≡ bit m (start h + i)

low-Here :
    (size : ℕ) (m : Memory) (h : Handle) (i : ℕ)
    → i + h.offset < 8 * low_size size (aligned h)
    → Here size m h i
low-Here size m h i lt =
    let inside : ltb (i + h.offset) (8 * low_size size (aligned h)) ≡ true = ground arith in
    let index : 8 * h.base + (i + h.offset) ≡ start h + i = omega arith in
    ap₂ (λ b k. b && bit m k) inside index

testbit-word_low :
    (size : ℕ) (m : Memory) (h : Handle) (i : ℕ)
    → IsBytes m
    → high_size size (aligned h) ≡ 0
    → i < h.width
    → testbit (read_word size m h (aligned h)) i ≡ bit m (start h + i)
unfolding read_word
testbit-word_low size m h i b e lt =
    let n = low_size size (aligned h) in
    let a = aligned_width_lem h in
    rw e (
      testbit-shr h.offset (copy_out m h.base n) i
      ∙ testbit-copy_out m h.base n (i + h.offset) b
      ∙ low-Here size m h i (omega arith))

-- the shift that moves the high word's bits above those of the low word
shift_lem :
    (h : Handle) (size i : ℕ)
    → IsHandle h
    → 8 ≤ size
    → 8 * size ≤ i + h.offset
    → 8 * size - h.offset ≤ i
shift_lem h size i o s le = omega (arith, o)

tests_hold : (p q r x : Bool) → p ≡ true → q ≡ true → r ≡ true → (p && (q && (r && x))) ≡ x
tests_hold p q r x a b c = rw (a, b, c) refl

tests_fail : (p q x : Bool) → q ≡ false → (p && (q && x)) ≡ false
tests_fail true q x e = ap (λ c. c && x) e
tests_fail false q x e = refl

testbit-high_word :
    (size : ℕ) (m : Memory) (h : Handle) (i n : ℕ)
    → IsBytes m
    → testbit (copy_out m (h.base + size) n * 2 ^ (8 * size - h.offset) % 2 ^ (8 * size)) i ≡ (
        ltb i (8 * size)
        && (leb (8 * size - h.offset) i
            && (ltb (i - (8 * size - h.offset)) (8 * n)
                && bit m (8 * (h.base + size) + (i - (8 * size - h.offset))))))
testbit-high_word size m h i n b =
    let k = 8 * size - h.offset in
    testbit-wrap (8 * size) (copy_out m (h.base + size) n * 2 ^ k) i
    ∙ ap (λ c. ltb i (8 * size) && c)
        (testbit-shl k (copy_out m (h.base + size) n) i
          ∙ ap (λ c. leb k i && c) (testbit-copy_out m (h.base + size) n (i - k) b))

testbit-word_high :
    (size : ℕ) (m : Memory) (h : Handle) (i : ℕ)
    → IsBytes m
    → IsHandle h
    → 8 ≤ size
    → high_size size (aligned h) ≢ 0
    → i < h.width
    → testbit (read_word size m h (aligned h)) i ≡ bit m (start h + i)
unfolding read_word
testbit-word_high size m h i b (o, w) s e lt =
    let n = low_size size (aligned h) in
    let k = high_size size (aligned h) in
    let a = aligned_width_lem h in
    let low = copy_out m h.base n / 2 ^ h.offset in
    let high = copy_out m (h.base + size) k * 2 ^ (8 * size - h.offset) % 2 ^ (8 * size) in
    let one_word : (k == 0) ≡ false = ground arith in
    let is_low : testbit low i
        ≡ (ltb (i + h.offset) (8 * n) && bit m (8 * h.base + (i + h.offset))) =
      testbit-shr h.offset (copy_out m h.base n) i ∙ testbit-copy_out m h.base n (i + h.offset) b in
    rw one_word (
      testbit-bit_or low high i ∙ elim (Bool-cases (ltb (i + h.offset) (8 * size))) [
        | inl p ↦
            let stops : leb (8 * size - h.offset) i ≡ false = ground arith in
            let zero_high : testbit high i ≡ false =
              testbit-high_word size m h i k b ∙ tests_fail _ _ _ stops in
            ap₂ (λ x y. x || y) (is_low ∙ low-Here size m h i (ground arith)) zero_high ∙ or_false _
        | inr p ↦
            let ends : ltb (i + h.offset) (8 * n) ≡ false = ground arith in
            let zero_low : testbit low i ≡ false =
              is_low ∙ ap (λ c. c && bit m (8 * h.base + (i + h.offset))) ends in
            let in_word : ltb i (8 * size) ≡ true = ground arith in
            let shifted : leb (8 * size - h.offset) i ≡ true = ground arith in
            let read : ltb (i - (8 * size - h.offset)) (8 * k) ≡ true = ground arith in
            let all_high : testbit high i
                ≡ bit m (8 * (h.base + size) + (i - (8 * size - h.offset))) =
              testbit-high_word size m h i k b ∙ tests_hold _ _ _ _ in_word shifted read in
            ap₂ (λ x y. x || y) zero_low (all_high ∙ ap (bit m) (ground arith))
      ])

pub testbit-read_word :
    (size : ℕ) (m : Memory) (h : Handle) (i : ℕ)
    → IsBytes m
    → IsHandle h
    → 8 ≤ size
    → i < h.width
    → testbit (read_word size m h (aligned h)) i ≡ bit m (start h + i)
testbit-read_word size m h i b p s lt = elim (Bool-cases (high_size size (aligned h) == 0)) [
  | inl e ↦ testbit-word_low size m h i b (ground arith) lt
  | inr e ↦ testbit-word_high size m h i b p s (ground arith) lt
]

div_pow-lt : (x k w : ℕ) → x < 2 ^ w → x / 2 ^ k < 2 ^ w
div_pow-lt x k w lt = omega (arith, div-le_self x (2 ^ k))

pub two_pow_le : (a b : ℕ) → a ≤ b → 2 ^ a ≤ 2 ^ b
two_pow_le a b = pow-le-pow_right (omega arith)

pub read_word-lt :
    (size : ℕ) (m : Memory) (h : Handle)
    → IsBytes m
    → read_word size m h (aligned h) < 2 ^ (8 * size)
unfolding read_word
read_word-lt size m h b =
    let n = low_size size (aligned h) in
    let low =
      div_pow-lt (copy_out m h.base n) h.offset (8 * size)
        (omega (arith, copy_out-lt m h.base n b, two_pow_le (8 * n) (8 * size) (omega arith))) in
    elim (Bool-cases (high_size size (aligned h) == 0)) [
      | inl e ↦ rw e low
      | inr e ↦
          rw e (bit_or-lt (8 * size) _ _ low (mod-lt _ (one-le-pow (8 * size) 2 (omega arith))))
    ]
