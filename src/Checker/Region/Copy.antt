-- ===== src/Checker/Region/Copy.antt =====
-- `handle_copy` copies bit by bit.
use Prim.Native.Nat.{bit_and, bit_or}
use native.Mathlib.Nat.{one-le-pow, pow-suc, pow-le-pow_right}
use rumur.Prelude.{
  ℕ, zero, suc, ◌+◌, ◌-◌, ◌*◌, ◌/◌, ◌%◌, ◌^◌, ◌≤◌, ◌<◌, ◌≡◌, refl, ◌∙◌, ap, ap₂, Bool, Bool-cases,
  inl, inr, true, false, if◌then◌else◌, ltb, leb, ◌==◌, ◌&&◌, ◌||◌, not, arith, ◌⊎◌,
}
use rumur.Prelude.Bits.{
  testbit, testbit-bit_and, testbit-bit_or, testbit-mask, testbit-complement, testbit-shl,
  testbit-shr,
}
use rumur.Prelude.Results.{ok}
use rumur.Checker.Memory.{Memory, bit}
use rumur.Checker.Handle.{Handle}
use rumur.Checker.Handle.Align.{start, and_true, and_false, or_false}
use rumur.Checker.Region.{copy_bit, copy_bits, handle_copy}
use rumur.Checker.Region.Bytes.{bit-set_byte, bit-masked}

testbit-power : (n i : ℕ) → testbit (2 ^ n) i ≡ (n == i)
testbit-power n i =
    let one : 2 ^ n ≡ 1 * 2 ^ n = omega arith in
    ap (λ x. testbit x i) one
    ∙ testbit-shl n 1 i
    ∙ ap (λ b. leb n i && b) (testbit-mask 1 (i - n))
    ∙ ground arith

-- `((x >> src_off) & 1) << dst_off`
testbit-moved :
    (x src_off dst_off i : ℕ)
    → testbit (bit_and (x / 2 ^ src_off) 1 * 2 ^ dst_off) i ≡ ((dst_off == i) && testbit x src_off)
testbit-moved x src_off dst_off i =
    testbit-shl dst_off (bit_and (x / 2 ^ src_off) 1) i
    ∙ ap (λ b. leb dst_off i && b)
        (testbit-bit_and (x / 2 ^ src_off) 1 (i - dst_off)
          ∙ ap₂ (λ b c. b && c) (testbit-shr src_off x (i - dst_off))
              (testbit-mask 1 (i - dst_off)))
    ∙ elim (Bool-cases (dst_off == i)) [
      | inl here ↦
          let from : leb dst_off i ≡ true = ground arith in
          let only : ltb (i - dst_off) 1 ≡ true = ground arith in
          let index : i - dst_off + src_off ≡ src_off = ground arith in
          rw (from, only, here, index) (and_true _)
      | inr there ↦ rw there (elim (Bool-cases (leb dst_off i)) [
        | inl after ↦
            let none : ltb (i - dst_off) 1 ≡ false = ground arith in rw (after, none) (and_false _)
        | inr before ↦ rw before refl
      ])
    ]

-- `& ~(1 << off)`, of a byte
testbit-others : (off i : ℕ) → off < 8 → i < 8 → testbit (255 - 2 ^ off) i ≡ not (off == i)
testbit-others off i o lt =
    let in_byte : ltb i 8 ≡ true = ground arith in
    let small : 2 ^ off < 2 ^ 8 = omega (
      arith,
      pow-le-pow_right {n = 2} (omega arith) o,
      pow-suc 2 off,
      one-le-pow off 2 (omega arith),
    ) in
    testbit-complement 8 (2 ^ off) i small ∙ ap₂ (λ b c. b && not c) in_byte (testbit-power off i)

one_bit : (test old new : Bool) → ((old && not test) || (test && new)) ≡ (if test then new else old)
one_bit true old new = ap (λ b. b || new) (and_false old)
one_bit false old new = or_false _ ∙ and_true old

bit-copy_bit :
    (m : Memory) (dst dst_off src src_off k : ℕ)
    → dst_off < 8
    → bit (copy_bit m dst dst_off src src_off) k
      ≡ (if k == 8 * dst + dst_off then testbit (m src) src_off else bit m k)
unfolding copy_bit
bit-copy_bit m dst dst_off src src_off k lt =
    let or_mask = bit_and (m src / 2 ^ src_off) 1 * 2 ^ dst_off in
    let i = k % 8 in
    bit-set_byte m dst (bit_or (bit_and (m dst) (255 - 2 ^ dst_off)) or_mask) k
    ∙ elim (Bool-cases (k / 8 == dst)) [
      | inl here ↦
          let same : (dst_off == i) ≡ (k == 8 * dst + dst_off) = ground arith in
          rw here (
            testbit-bit_or (bit_and (m dst) (255 - 2 ^ dst_off)) or_mask i
            ∙ ap₂ (λ b c. b || c)
                (bit-masked m dst (255 - 2 ^ dst_off) k (ground arith)
                  ∙ ap (λ b. bit m k && b) (testbit-others dst_off i lt (omega arith)))
                (testbit-moved (m src) src_off dst_off i)
            ∙ one_bit (dst_off == i) (bit m k) (testbit (m src) src_off)
            ∙ ap (λ b. if b then testbit (m src) src_off else bit m k) same)
      | inr there ↦
          let other : (k == 8 * dst + dst_off) ≡ false = ground arith in rw (there, other) refl
    ]

pub bit_at :
    (m : Memory) (h : Handle) (i : ℕ)
    → testbit (m (h.base + (h.offset + i) / 8)) ((h.offset + i) % 8) ≡ bit m (start h + i)
bit_at m h i =
    let byte : h.base + (h.offset + i) / 8 ≡ (start h + i) / 8 = omega arith in
    let index : (h.offset + i) % 8 ≡ (start h + i) % 8 = omega arith in
    ap₂ (λ a n. testbit (m a) n) byte index

bit-round :
    (m : Memory) (a b : Handle) (i k : ℕ)
    → bit
        (copy_bit m
          (a.base + (a.offset + i) / 8)
          ((a.offset + i) % 8)
          (b.base + (b.offset + i) / 8)
          ((b.offset + i) % 8))
        k
      ≡ (if k == start a + i then bit m (start b + i) else bit m k)
bit-round m a b i k =
    let place : 8 * (a.base + (a.offset + i) / 8) + (a.offset + i) % 8 ≡ start a + i =
      omega arith in
    bit-copy_bit m (a.base + (a.offset + i) / 8) ((a.offset + i) % 8) (b.base + (b.offset + i) / 8)
      ((b.offset + i) % 8) k (omega arith)
    ∙ ap₂ (λ n new. if k == n then new else bit m k) place (bit_at m b i)

-- One handle may be copied to the other, a bit after the other from the lowest on.
abbrev pub Copyable : Handle → Handle → Type 0
Copyable a b = (start a ≤ start b) ⊎ (start b + b.width ≤ start a)

bit-copy_bits :
    (m : Memory) (a b : Handle) (i rounds k : ℕ)
    → Copyable a b
    → i + rounds ≤ b.width
    → bit (copy_bits m a b i rounds) k ≡ (
        if leb (start a + i) k && ltb k (start a + i + rounds)
        then bit m (start b + (k - start a))
        else bit m k)
unfolding copy_bits
bit-copy_bits m a b i zero k apart le =
    let none : (leb (start a + i) k && ltb k (start a + i + 0)) ≡ false = ground arith in
    rw none refl
bit-copy_bits m a b i (suc rounds) k apart le =
    let m1 =
      copy_bit m (a.base + (a.offset + i) / 8) ((a.offset + i) % 8) (b.base + (b.offset + i) / 8)
        ((b.offset + i) % 8) in
    let step : (n : ℕ) → bit m1 n ≡ (if n == start a + i then bit m (start b + i) else bit m n) =
      λ n. bit-round m a b i n in
    bit-copy_bits m1 a b (i + 1) rounds k apart (omega arith)
    ∙ elim (Bool-cases (leb (start a + (i + 1)) k && ltb k (start a + (i + 1) + rounds))) [
      | inl later ↦
          let unset : (start b + (k - start a) == start a + i) ≡ false = ground (arith, apart) in
          let within : (leb (start a + i) k && ltb k (start a + i + suc rounds)) ≡ true =
            ground arith in
          rw (later, within) (step (start b + (k - start a)) ∙ rw unset refl)
      | inr not_later ↦ rw not_later (
          step k ∙ elim (Bool-cases (k == start a + i)) [
            | inl now ↦
                let within : (leb (start a + i) k && ltb k (start a + i + suc rounds)) ≡ true =
                  ground arith in
                let index : start b + i ≡ start b + (k - start a) = ground arith in
                rw (now, within) (ap (bit m) index)
            | inr never ↦
                let outside : (leb (start a + i) k && ltb k (start a + i + suc rounds)) ≡ false =
                  ground arith in
                rw (never, outside) refl
          ])
    ]

-- Handles of one width, the first not after the second's start or after its end: handle_copy
-- succeeds, gives the first handle the second's bits, and leaves all other bits.
pub handle_copy_lem :
    (m : Memory) (a b : Handle)
    → a.width ≡ b.width
    → Copyable a b
    → (m' : Memory) × (handle_copy m a b ≡ ok m')
      × ((k : ℕ)
          → bit m' k ≡ (
              if leb (start a) k && ltb k (start a + a.width)
              then bit m (start b + (k - start a))
              else bit m k))
unfolding handle_copy
handle_copy_lem m a b e apart =
    let same : (a.width == b.width) ≡ true = ground arith in
    let from : start a + 0 ≡ start a = omega arith in
    let copied : (k : ℕ)
        → bit (copy_bits m a b 0 a.width) k ≡ (
            if leb (start a) k && ltb k (start a + a.width)
            then bit m (start b + (k - start a))
            else bit m k) =
      λ k.
        bit-copy_bits m a b 0 a.width k apart (omega arith)
        ∙ ap
            (λ n.
              if leb n k && ltb k (n + a.width) then bit m (start b + (k - start a)) else bit m k)
            from in
    rw same (copy_bits m a b 0 a.width, refl, copied)
