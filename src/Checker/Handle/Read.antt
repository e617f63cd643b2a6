-- ===== src/Checker/Handle/Read.antt =====
-- `read_raw` reads the bits of its handle.
use Prim.Native.Nat.{bit_and}
use native.Mathlib.Nat.{one-le-pow}
use rumur.Prelude.{
  ℕ, ◌+◌, ◌-◌, ◌*◌, ◌^◌, ◌≤◌, ◌<◌, ◌≡◌, refl, ◌∙◌, ap, Bool, Bool-cases, inl, inr, true, false, ltb,
  leb, ◌==◌, ◌&&◌, arith,
}
use rumur.Prelude.Bits.{
  testbit, testbit-bit_and, testbit-mask, bit_and-lt, testbit-high, testbit-zero,
}
use rumur.Prelude.Results.{Result, ok}
use rumur.Checker.Memory.{Memory, IsBytes, bit}
use rumur.Checker.Handle.Align.{
  IsHandle, start, aligned, aligned_width_lem, handle_align-ok, and_true, and_false,
}
use rumur.Checker.Handle.ReadWord.{testbit-read_word, read_word-lt, two_pow_le}
use rumur.Checker.Handle.{Handle, aligned_width, fits_hint, read_word, read_words, read_raw}

-- What a word holds of a handle: its bits, and no others.
abbrev pub Holds : Memory → Handle → ℕ → Type 0
Holds m h v = (i : ℕ) → testbit v i ≡ (ltb i h.width && bit m (start h + i))

masked : ℕ → Memory → Handle → ℕ
masked size m h = bit_and (read_word size m h (aligned h)) (2 ^ h.width - 1)

masked-Holds :
    (size : ℕ) (m : Memory) (h : Handle)
    → IsBytes m
    → IsHandle h
    → 8 ≤ size
    → Holds m h (masked size m h)
unfolding masked
masked-Holds size m h b p s i =
    testbit-bit_and (read_word size m h (aligned h)) (2 ^ h.width - 1) i
    ∙ ap (λ c. testbit (read_word size m h (aligned h)) i && c) (testbit-mask h.width i)
    ∙ elim (Bool-cases (ltb i h.width)) [
      | inl inside ↦ rw inside (and_true _ ∙ testbit-read_word size m h i b p s (ground arith))
      | inr outside ↦ rw outside (and_false _)
    ]

-- A read yields a word of 64 bits that holds the handle.
abbrev Reads : Memory → Handle → Result ℕ → Type 0
Reads m h result = (v : ℕ) × (result ≡ ok v) × Holds m h v × (v < 2 ^ 64)

Holds-in_word :
    (m : Memory) (h : Handle) (v : ℕ)
    → h.width ≡ 64
    → v < 2 ^ 64
    → ((i : ℕ) → i < h.width → testbit v i ≡ bit m (start h + i))
    → Holds m h v
Holds-in_word m h v e lt bits i = elim (Bool-cases (ltb i h.width)) [
  | inl inside ↦ rw inside (bits i (ground arith))
  | inr outside ↦ rw outside (testbit-high 64 v i lt (ground arith))
]

masked-lt : (m : Memory) (h : Handle) (size : ℕ) → IsHandle h → masked size m h < 2 ^ 64
unfolding masked
masked-lt m h size (o, w) =
    bit_and-lt 64 (read_word size m h (aligned h)) (2 ^ h.width - 1)
      (omega (arith, two_pow_le h.width 64 w, one-le-pow h.width 2 (omega arith)))

read_words-masked :
    (size : ℕ) (m : Memory) (h : Handle)
    → IsHandle h
    → h.width < 8 * size
    → read_words size m h (aligned h) ≡ ok (masked size m h)
unfolding read_words masked
read_words-masked size m h (o, w) lt =
    let a = aligned_width_lem h in
    let hint : fits_hint size (aligned h) ≡ true = ground arith in
    let narrow : ltb h.width (8 * size) ≡ true = ground arith in rw (hint, narrow) refl

read_words-Reads :
    (m : Memory) (h : Handle) → IsBytes m → IsHandle h → Reads m h (read_words 8 m h (aligned h))
unfolding read_words
read_words-Reads m h b p = elim (Bool-cases (ltb h.width 64)) [
  | inl narrow ↦ (
    masked 8 m h,
    read_words-masked 8 m h p (ground arith),
    masked-Holds 8 m h b p (omega arith),
    masked-lt m h 8 p,
  )
  | inr wide ↦
      let a = aligned_width_lem h in
      let hint : fits_hint 8 (aligned h) ≡ true = ground arith in
      let full : h.width ≡ 64 = ground (arith, p.1) in
      let word = read_word 8 m h (aligned h) in
      let bits : (i : ℕ) → i < h.width → testbit word i ≡ bit m (start h + i) =
        λ i lt. testbit-read_word 8 m h i b p (omega arith) lt in
      (
        word,
        rw (hint, wide) refl,
        Holds-in_word m h word full (read_word-lt 8 m h b) bits,
        read_word-lt 8 m h b,
      )
]

zero-Holds : (m : Memory) (h : Handle) → h.width ≡ 0 → Holds m h 0
zero-Holds m h e i =
    let none : ltb i h.width ≡ false = ground arith in rw (testbit-zero i, none) refl

-- A read succeeds.
pub read_raw-Reads :
    (has_int128 : Bool) (m : Memory) (h : Handle)
    → IsBytes m
    → IsHandle h
    → Reads m h (read_raw has_int128 m h)
unfolding read_raw
read_raw-Reads has_int128 m h b p =
    let fits : leb h.width 64 ≡ true = ground (arith, p.1) in
    rw fits (elim (Bool-cases (h.width == 0)) [
      | inl empty ↦ rw empty (0, refl, zero-Holds m h (ground arith), omega arith)
      | inr some ↦
          rw (some, handle_align-ok h p)
            (elim (Bool-cases (has_int128 && ltb 56 (aligned_width h))) [
              | inl double ↦
                  let fits_double : h.width < 8 * 16 = omega (arith, p.1) in
                  let lt = masked-lt m h 16 p in
                  let returned : leb (masked 16 m h) (2 ^ 64 - 1) ≡ true = ground arith in
                  rw (double, read_words-masked 16 m h p fits_double, returned)
                    (masked 16 m h, refl, masked-Holds 16 m h b p (omega arith), lt)
              | inr single ↦ rw single (read_words-Reads m h b p)
            ])
    ])
