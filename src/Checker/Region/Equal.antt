-- ===== src/Checker/Region/Equal.antt =====
-- `handle_eq` compares bit by bit, and finds a copy equal.
use Prim.Native.Nat.{bit_and}
use rumur.Prelude.{
  ℕ, zero, suc, ◌+◌, ◌-◌, ◌/◌, ◌%◌, ◌^◌, ◌≤◌, ◌<◌, ◌≡◌, refl, sym, ◌∙◌, ap, ap₂, subst, Bool,
  Bool-cases, inl, inr, true, false, ltb, leb, ◌==◌, ◌&&◌, arith, ◌⊎◌, ◌↔◌,
}
use rumur.Prelude.Bits.{
  testbit, testbit-bit_and, testbit-mask, testbit-shr, testbit-zero, testbit_ext, bit_and-lt,
}
use rumur.Prelude.Results.{ok, ◌>>=◌}
use rumur.Checker.Memory.{Memory, bit}
use rumur.Checker.Handle.{Handle}
use rumur.Checker.Handle.Align.{start, and_true}
use rumur.Checker.Region.{handle_copy, eq_bits, handle_eq}
use rumur.Checker.Region.Copy.{bit_at, Copyable, handle_copy_lem}

abbrev number : Bool → ℕ
number true = 1
number false = 0

not_first : (p : Bool) (i : ℕ) → (p && ltb (suc i) 1) ≡ false
not_first true i = ground arith
not_first false i = refl

testbit-number : (p q : Bool) (i : ℕ) → (i ≡ 0 → p ≡ q) → (p && ltb i 1) ≡ testbit (number q) i
unfolding testbit
testbit-number p true zero e = and_true p ∙ e refl
testbit-number p false zero e = and_true p ∙ e refl
testbit-number p true (suc i) e = not_first p i ∙ sym (testbit-zero i)
testbit-number p false (suc i) e = not_first p i ∙ sym (testbit-zero i)

number-lt : (p : Bool) → number p < 2
number-lt true = omega arith
number-lt false = omega arith

-- `(x >> off) & 1`, as a number
low_bit : (x off : ℕ) → bit_and (x / 2 ^ off) 1 ≡ number (testbit x off)
low_bit x off =
    testbit_ext 1 _ _ (bit_and-lt 1 (x / 2 ^ off) 1 (omega arith)) (number-lt (testbit x off)) (λ i.
      testbit-bit_and (x / 2 ^ off) 1 i
      ∙ ap₂ (λ b c. b && c) (testbit-shr off x i) (testbit-mask 1 i)
      ∙ testbit-number (testbit x (i + off)) (testbit x off) i (λ e. ap (testbit x) (omega arith)))

number_iff : (p q : Bool) → ((number p == number q) ≡ true) ↔ (p ≡ q)
number_iff true true = (λ _. refl, λ _. refl)
number_iff false false = (λ _. refl, λ _. refl)
number_iff true false = (λ e. cc, λ e. cc)
number_iff false true = (λ e. cc, λ e. cc)

abbrev SameBits : Memory → Handle → Handle → ℕ → ℕ → Type 0
SameBits m a b i rounds =
    (j : ℕ) → i ≤ j → j < i + rounds → bit m (start a + j) ≡ bit m (start b + j)

-- the bit that a round extracts
abbrev extracted : Memory → Handle → ℕ → ℕ
extracted m h i = bit_and (m (h.base + (h.offset + i) / 8) / 2 ^ ((h.offset + i) % 8)) 1

extracted_lem : (m : Memory) (h : Handle) (i : ℕ) → extracted m h i ≡ number (bit m (start h + i))
extracted_lem m h i =
    low_bit (m (h.base + (h.offset + i) / 8)) ((h.offset + i) % 8) ∙ ap number (bit_at m h i)

here_iff :
    (m : Memory) (a b : Handle) (i : ℕ)
    → ((extracted m a i == extracted m b i) ≡ true) ↔ (bit m (start a + i) ≡ bit m (start b + i))
here_iff m a b i =
    rw (extracted_lem m a i, extracted_lem m b i)
      (number_iff (bit m (start a + i)) (bit m (start b + i)))

SameBits-later :
    (m : Memory) (a b : Handle) (i rounds : ℕ)
    → SameBits m a b i (suc rounds)
    → SameBits m a b (i + 1) rounds
SameBits-later m a b i rounds same j le lt = same j (omega arith) (omega arith)

SameBits-now :
    (m : Memory) (a b : Handle) (i rounds : ℕ)
    → bit m (start a + i) ≡ bit m (start b + i)
    → SameBits m a b (i + 1) rounds
    → SameBits m a b i (suc rounds)
SameBits-now m a b i rounds now later j le lt = elim (Bool-cases (i == j)) [
  | inl e ↦
      let index : i ≡ j = ground arith in
      subst (λ n. bit m (start a + n) ≡ bit m (start b + n)) index now
  | inr n ↦ later j (ground arith) (omega arith)
]

eq_bits_iff :
    (m : Memory) (a b : Handle) (i rounds : ℕ)
    → (eq_bits m a b i rounds ≡ true) ↔ SameBits m a b i rounds
unfolding eq_bits
eq_bits_iff m a b i zero = (λ _ j le lt. absurd (omega arith), λ _. refl)
eq_bits_iff m a b i (suc rounds) =
    let (found, equal) = here_iff m a b i in
    let (rest, all) = eq_bits_iff m a b (i + 1) rounds in
    elim (Bool-cases (extracted m a i == extracted m b i)) [
      | inl same ↦ rw same (
        λ e. SameBits-now m a b i rounds (found same) (rest e),
        λ e. all (SameBits-later m a b i rounds e),
      )
      | inr differ ↦ rw differ (λ e. cc, λ e. sym differ ∙ equal (e i (omega arith) (omega arith)))
    ]

-- Of two handles of one width, handle_eq returns true exactly where all their bits agree.
pub handle_eq_iff :
    (m : Memory) (a b : Handle)
    → a.width ≡ b.width
    → (handle_eq m a b ≡ ok true)
      ↔ ((i : ℕ) → i < a.width → bit m (start a + i) ≡ bit m (start b + i))
unfolding handle_eq
handle_eq_iff m a b e =
    let same : (a.width == b.width) ≡ true = ground arith in
    let (found, equal) = eq_bits_iff m a b 0 a.width in
    rw same (
      λ h i lt.
          let equal_bits : eq_bits m a b 0 a.width ≡ true = cc in
          found equal_bits i (omega arith) (omega arith),
      λ h. ap ok (equal (λ j le lt. h j (omega arith))),
    )

-- After a copy, handle_eq finds the handles equal where they have no bit in common.
pub handle_eq-handle_copy :
    (m : Memory) (a b : Handle)
    → a.width ≡ b.width
    → (start a + a.width ≤ start b) ⊎ (start b + b.width ≤ start a)
    → (handle_copy m a b >>= λ m'. handle_eq m' a b) ≡ ok true
handle_eq-handle_copy m a b e apart =
    let copyable : Copyable a b = grind (arith, apart) in
    let (m', copied, bits) = handle_copy_lem m a b e copyable in
    let same : (i : ℕ) → i < a.width → bit m' (start a + i) ≡ bit m' (start b + i) = λ i lt.
      let within : (leb (start a) (start a + i) && ltb (start a + i) (start a + a.width)) ≡ true =
        ground arith in
      let outside : (leb (start a) (start b + i) && ltb (start b + i) (start a + a.width)) ≡ false =
        ground (arith, apart) in
      let index : start b + (start a + i - start a) ≡ start b + i = omega arith in
      let copy : bit m' (start a + i) ≡ bit m (start b + i) =
        bits (start a + i) ∙ rw (within, index) refl in
      let kept : bit m' (start b + i) ≡ bit m (start b + i) =
        bits (start b + i) ∙ rw outside refl in
      copy ∙ sym kept in
    rw copied ((handle_eq_iff m' a b e).1 same)
