-- ===== src/Checker/Region/Zero.antt =====
-- `handle_zero` clears the bits of its handle and no others.
use Prim.Native.Nat.{bit_and}
use native.Mathlib.Nat.{one-le-pow, pow-suc, pow-le-pow_right}
use rumur.Prelude.{
  ℕ, ◌+◌, ◌-◌, ◌*◌, ◌/◌, ◌%◌, ◌^◌, ◌<◌, ◌≡◌, refl, sym, ◌∙◌, ap, ap₂, subst, Bool, Bool-cases, inl,
  inr, true, false, if◌then◌else◌, ltb, leb, ◌==◌, ◌&&◌, ◌||◌, not, arith,
}
use rumur.Prelude.Bits.{
  testbit, testbit-bit_and, testbit-bit_or, testbit-mask, bit_and-lt, bit_or-lt,
}
use rumur.Checker.Memory.{Memory, IsBytes, bit}
use rumur.Checker.Handle.{Handle}
use rumur.Checker.Handle.Align.{start}
use rumur.Checker.Region.{set_byte, clear_bytes, zero_bytes, zero_mask, handle_zero}
use rumur.Checker.Region.Bytes.{
  bit-set_byte, bit-clear_bytes, bit-masked, testbit-above, set_byte-IsBytes, clear_bytes-IsBytes,
}

abbrev pub within : ℕ → ℕ → ℕ → Bool
within first width k = leb first k && ltb k (first + width)

last_bits :
    (p width k : ℕ) (old : Bool)
    → k / 8 ≡ p + width / 8
    → ((not (leb (8 * p) k && ltb k (8 * (p + width / 8))) && old)
        && leb (width - width / 8 * 8) (k % 8))
      ≡ (not (within (8 * p) width k) && old)
last_bits p width k true e = ground arith
last_bits p width k false e = ground arith

bit-zero_bytes :
    (m : Memory) (p width k : ℕ)
    → bit (zero_bytes m p width) k ≡ (not (within (8 * p) width k) && bit m k)
unfolding zero_bytes
bit-zero_bytes m p width k =
    let m' = clear_bytes m p (width / 8) in
    let p' = p + width / 8 in
    let rest = width - width / 8 * 8 in
    let cleared = bit-clear_bytes m p (width / 8) k in
    let mask = testbit-above rest (k % 8) (omega arith) (omega arith) in
    elim (Bool-cases (ltb 0 rest)) [
      | inl trailing ↦ rw trailing (
          bit-set_byte m' p' (bit_and (m' p') (255 - (2 ^ rest - 1))) k
          ∙ elim (Bool-cases (k / 8 == p')) [
            | inl last ↦ rw last (
                bit-masked m' p' (255 - (2 ^ rest - 1)) k (ground arith)
                ∙ ap₂ (λ b c. b && c) cleared mask
                ∙ last_bits p width k (bit m k) (ground arith))
            | inr other ↦ rw other (cleared ∙ ap (λ b. not b && bit m k) (ground arith))
          ])
      | inr whole ↦ rw whole (cleared ∙ ap (λ b. not b && bit m k) (ground arith))
    ]

testbit-zero_mask :
    (offset width i : ℕ)
    → offset < 8
    → i < 8
    → testbit (zero_mask offset width) i ≡ (ltb i offset || leb (offset + width) i)
unfolding zero_mask
testbit-zero_mask offset width i o lt = elim (Bool-cases (ltb width (8 - offset))) [
  | inl short ↦
      let above = testbit-above (offset + width) i (ground arith) lt in
      let in_byte : ltb i 8 ≡ true = ground arith in
      let byte = testbit-mask 8 i ∙ in_byte in
      rw short (
        testbit-bit_or (2 ^ offset - 1) (bit_and 255 (255 - (2 ^ (offset + width) - 1))) i
        ∙ ap₂ (λ b c. b || c) (testbit-mask offset i)
            (testbit-bit_and 255 (255 - (2 ^ (offset + width) - 1)) i
              ∙ ap₂ (λ b c. b && c) byte above))
  | inr long ↦ rw long (testbit-mask offset i ∙ ground arith)
]

-- the first byte, where the handle does not start on a byte's boundary
first_bits :
    (p offset width k : ℕ) (old : Bool)
    → k / 8 ≡ p
    → (old && (ltb (k % 8) offset || leb (offset + width) (k % 8)))
      ≡ (not (within (8 * p + offset) width k && ltb k (8 * (p + 1))) && old)
first_bits p offset width k true e = ground arith
first_bits p offset width k false e = ground arith

bit-first_byte :
    (m : Memory) (p offset width k : ℕ)
    → offset < 8
    → bit (set_byte m p (bit_and (m p) (zero_mask offset width))) k
      ≡ (not (within (8 * p + offset) width k && ltb k (8 * (p + 1))) && bit m k)
bit-first_byte m p offset width k o =
    bit-set_byte m p (bit_and (m p) (zero_mask offset width)) k ∙ elim (Bool-cases (k / 8 == p)) [
      | inl here ↦ rw here (
          bit-masked m p (zero_mask offset width) k (ground arith)
          ∙ ap (λ b. bit m k && b) (testbit-zero_mask offset width (k % 8) o (omega arith))
          ∙ first_bits p offset width k (bit m k) (ground arith))
      | inr there ↦
          let outside : (within (8 * p + offset) width k && ltb k (8 * (p + 1))) ≡ false =
            ground arith in
          rw (there, outside) refl
    ]

two_parts :
    (first later whole old : Bool)
    → (later || first) ≡ whole
    → (not later && (not first && old)) ≡ (not whole && old)
two_parts first true whole old e = rw (sym e) refl
two_parts first false whole old e = rw (sym e) refl

-- After handle_zero, of a handle of any offset and any width, the bits of the handle are 0, and the
-- others are as before.
pub bit-handle_zero :
    (m : Memory) (h : Handle) (k : ℕ)
    → bit (handle_zero m h) k ≡ (not (leb (start h) k && ltb k (start h + h.width)) && bit m k)
unfolding handle_zero
bit-handle_zero m h k =
    let p = h.base + h.offset / 8 in
    let offset = h.offset % 8 in
    let first : 8 * p + offset ≡ start h = omega arith in
    let m' = set_byte m p (bit_and (m p) (zero_mask offset h.width)) in
    let rest = zero_bytes m' (p + 1) (h.width - (8 - offset)) in
    let head = bit-first_byte m p offset h.width k (omega arith) in
    elim (Bool-cases (offset == 0)) [
      | inl at_byte ↦
          let same : 8 * p ≡ start h = ground arith in
          rw at_byte
            (bit-zero_bytes m p h.width k ∙ ap (λ n. not (within n h.width k) && bit m k) same)
      | inr inner ↦ rw inner (elim (Bool-cases (ltb h.width (8 - offset))) [
        | inl short ↦
            let all : (within (8 * p + offset) h.width k && ltb k (8 * (p + 1)))
                ≡ within (start h) h.width k =
              ground arith in
            ap (λ c. bit (if c then m' else rest) k) short ∙ head ∙ ap (λ b. not b && bit m k) all
        | inr long ↦
            let join : (within (8 * (p + 1)) (h.width - (8 - offset)) k
                  || (within (8 * p + offset) h.width k && ltb k (8 * (p + 1))))
                ≡ within (start h) h.width k =
              ground arith in
            ap (λ c. bit (if c then m' else rest) k) long
            ∙ bit-zero_bytes m' (p + 1) (h.width - (8 - offset)) k
            ∙ ap (λ b. not (within (8 * (p + 1)) (h.width - (8 - offset)) k) && b) head
            ∙ two_parts _ _ _ (bit m k) join
      ])
    ]

two_pow-lt : (n : ℕ) → n < 8 → 2 ^ n - 1 < 2 ^ 8
two_pow-lt n lt =
    omega
      (arith, pow-le-pow_right {n = 2} (omega arith) lt, pow-suc 2 n, one-le-pow n 2 (omega arith))

zero_mask-lt : (offset width : ℕ) → offset < 8 → zero_mask offset width < 2 ^ 8
unfolding zero_mask
zero_mask-lt offset width o = elim (Bool-cases (ltb width (8 - offset))) [
  | inl short ↦ rw short (
      bit_or-lt 8 (2 ^ offset - 1) _ (two_pow-lt offset o)
        (bit_and-lt 8 255 (255 - (2 ^ (offset + width) - 1)) (omega arith)))
  | inr long ↦ rw long (two_pow-lt offset o)
]

zero_bytes-IsBytes : (m : Memory) (p width : ℕ) → IsBytes m → IsBytes (zero_bytes m p width)
unfolding zero_bytes
zero_bytes-IsBytes m p width b =
    let b' = clear_bytes-IsBytes m p (width / 8) b in
    elim (Bool-cases (ltb 0 (width - width / 8 * 8))) [
      | inl trailing ↦ rw trailing (
          set_byte-IsBytes _ _ _ b'
            (bit_and-lt 8 _ (255 - (2 ^ (width - width / 8 * 8) - 1)) (omega arith)))
      | inr whole ↦ rw whole b'
    ]

pub handle_zero-IsBytes : (m : Memory) (h : Handle) → IsBytes m → IsBytes (handle_zero m h)
unfolding handle_zero
handle_zero-IsBytes m h b =
    let p = h.base + h.offset / 8 in
    let offset = h.offset % 8 in
    let m' = set_byte m p (bit_and (m p) (zero_mask offset h.width)) in
    let b' =
      set_byte-IsBytes m p _ b (
        bit_and-lt 8 (m p) (zero_mask offset h.width)
          (zero_mask-lt offset h.width (omega arith))) in
    let rest = zero_bytes m' (p + 1) (h.width - (8 - offset)) in
    elim (Bool-cases (offset == 0)) [
      | inl at_byte ↦ rw at_byte (zero_bytes-IsBytes m p h.width b)
      | inr inner ↦ rw inner (elim (Bool-cases (ltb h.width (8 - offset))) [
        | inl short ↦ subst (λ c. IsBytes (if c then m' else rest)) (sym short) b'
        | inr long ↦
            subst (λ c. IsBytes (if c then m' else rest)) (sym long)
              (zero_bytes-IsBytes m' (p + 1) _ b')
      ])
    ]
