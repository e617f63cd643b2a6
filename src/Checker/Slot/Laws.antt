-- ===== src/Checker/Slot/Laws.antt =====
-- What a slot holds of a state's pointer and of its hash.
use Prim.Native.Nat.{bit_and, bit_or}
use native.Mathlib.Nat.{
  one-le-pow, pow-suc, mod-lt, mod-eq_of_lt, div-eq_of_lt, add-mul-div_right,
  add-mul-mod_self_right,
}
use rumur.Prelude.{
  ℕ, zero, suc, ◌+◌, ◌-◌, ◌*◌, ◌/◌, ◌%◌, ◌^◌, ◌≤◌, ◌<◌, ◌≡◌, refl, sym, ◌∙◌, ap, Bool, Bool-cases,
  inl, inr, true, false, if◌then◌else◌, ltb, leb, ◌==◌, ◌&&◌, ◌||◌, arith,
}
use rumur.Prelude.Bits.{
  testbit, testbit-bit_and, testbit-bit_or, testbit-shl, testbit-wrap, testbit-mask, testbit-high,
  testbit-fields, testbit_ext, bit_and-lt, bit_or-lt,
}
use rumur.Prelude.Results.{ok}
use rumur.Checker.Handle.Align.{or_false}
use rumur.Checker.Slot.{
  slot_is_empty, slot_is_tombstone, has_spare_bits, slot_to_state, state_to_slot, slot_neq,
}

and_comm : (p q : Bool) → (p && q) ≡ (q && p)
and_comm true true = refl
and_comm true false = refl
and_comm false true = refl
and_comm false false = refl

lt-pow : (n : ℕ) → n < 2 ^ n
lt-pow zero = omega arith
lt-pow (suc n) = omega (arith, lt-pow n, pow-suc 2 n)

-- Fields that do not overlap are added.
or-add : (k p x : ℕ) → p < 2 ^ k → bit_or p (x * 2 ^ k) ≡ p + x * 2 ^ k
or-add k p x lt =
    let n = p + x * 2 ^ k in
    let room = lt-pow n in
    testbit_ext n _ _ (bit_or-lt n p (x * 2 ^ k) (omega arith) (omega arith)) room (λ i.
      testbit-bit_or p (x * 2 ^ k) i
      ∙ ap (λ b. testbit p i || b) (testbit-shl k x i)
      ∙ elim (Bool-cases (ltb i k)) [
        | inl low ↦
            let stops : leb k i ≡ false = ground arith in
            rw stops (or_false _)
            ∙ sym (
                testbit-fields k p x i lt
                ∙ ap (λ c. if c then testbit p i else testbit x (i - k)) low)
        | inr high ↦
            let starts : leb k i ≡ true = ground arith in
            let none = testbit-high k p i lt (ground arith) in
            rw (starts, none) refl
            ∙ sym (
                testbit-fields k p x i lt
                ∙ ap (λ c. if c then testbit p i else testbit x (i - k)) high)
      ])

-- The parts of a slot.
high_part : (k p x : ℕ) → p < 2 ^ k → (p + x * 2 ^ k) / 2 ^ k ≡ x
high_part k p x lt =
    omega (arith, add-mul-div_right p x (one-le-pow k 2 (omega arith)), div-eq_of_lt lt)

low_part : (k p x : ℕ) → p < 2 ^ k → (p + x * 2 ^ k) % 2 ^ k ≡ p
low_part k p x lt = add-mul-mod_self_right p x (2 ^ k) ∙ mod-eq_of_lt lt

even_sum : (k p x : ℕ) → 0 < k → p % 2 ≡ 0 → (p + x * 2 ^ k) % 2 ≡ 0
even_sum zero p x some even = absurd (omega arith)
even_sum (suc k) p x some even =
    let double : x * (2 ^ k * 2) ≡ (x * 2 ^ k) * 2 = grind arith in
    let power : x * 2 ^ suc k ≡ x * (2 ^ k * 2) = ap (λ n. x * n) (pow-suc 2 k) in omega arith

-- `&` by a mask of the lowest bits
pub bit_and-mask : (w n : ℕ) → bit_and n (2 ^ w - 1) ≡ n % 2 ^ w
bit_and-mask w n =
    testbit_ext w _ _ (bit_and-lt w n (2 ^ w - 1) (omega (arith, one-le-pow w 2 (omega arith))))
      (mod-lt n (one-le-pow w 2 (omega arith)))
      (λ i.
        testbit-bit_and n (2 ^ w - 1) i
        ∙ ap (λ b. testbit n i && b) (testbit-mask w i)
        ∙ and_comm (testbit n i) (ltb i w)
        ∙ sym (testbit-wrap w n i))

-- A pointer to a state: not null, aligned, and within the bits that pointers have.
abbrev pub IsPointer : ℕ → ℕ → Type 0
IsPointer pointer_bits p =
    (0 < p) × (p % 2 ≡ 0) × (p < 2 ^ pointer_bits) × (0 < pointer_bits) × (pointer_bits ≤ 64)

-- the slot of a pointer and a hash
abbrev pub packed : ℕ → ℕ → ℕ → ℕ
packed pointer_bits p hash =
    if has_spare_bits pointer_bits then p + hash / 2 ^ pointer_bits * 2 ^ pointer_bits else p

pub state_to_slot-packed :
    (pointer_bits p hash : ℕ)
    → IsPointer pointer_bits p
    → state_to_slot pointer_bits p hash ≡ ok (packed pointer_bits p hash)
unfolding state_to_slot
state_to_slot-packed pointer_bits p hash (some, even, lt, few, most) =
    elim (Bool-cases (has_spare_bits pointer_bits)) [
      | inl spare ↦
          let fits : (p / 2 ^ pointer_bits == 0) ≡ true = rw (div-eq_of_lt lt) refl in
          rw (spare, fits) (ap ok (or-add pointer_bits p (hash / 2 ^ pointer_bits) lt))
      | inr full ↦ rw full refl
    ]

pub packed-even :
    (pointer_bits p hash : ℕ)
    → IsPointer pointer_bits p
    → (0 < packed pointer_bits p hash) × (packed pointer_bits p hash % 2 ≡ 0)
packed-even pointer_bits p hash (some, even, lt, few, most) =
    elim (Bool-cases (has_spare_bits pointer_bits)) [
      | inl spare ↦
          rw spare (omega arith, even_sum pointer_bits p (hash / 2 ^ pointer_bits) few even)
      | inr full ↦ rw full (some, even)
    ]

not_special :
    (slot : ℕ)
    → 0 < slot
    → slot % 2 ≡ 0
    → (slot_is_empty slot ≡ false) × (slot_is_tombstone slot ≡ false)
not_special slot some even = (ground arith, ground arith)

pub packed-not_special :
    (pointer_bits p hash : ℕ)
    → IsPointer pointer_bits p
    → (slot_is_empty (packed pointer_bits p hash) ≡ false)
      × (slot_is_tombstone (packed pointer_bits p hash) ≡ false)
packed-not_special pointer_bits p hash valid =
    let (some, even) = packed-even pointer_bits p hash valid in
    let slot = packed pointer_bits p hash in (not_special slot some even)

-- The slot of a state gives the state's pointer back, whatever bits of its hash it holds.
pub slot_to_state-packed :
    (pointer_bits p hash : ℕ)
    → IsPointer pointer_bits p
    → slot_to_state pointer_bits (packed pointer_bits p hash) ≡ ok p
unfolding slot_to_state
slot_to_state-packed pointer_bits p hash valid =
    let (some, even, lt, few, most) = valid in
    let (set, live) = packed-not_special pointer_bits p hash valid in
    rw (set, live)
      (ap ok (elim (Bool-cases (has_spare_bits pointer_bits)) [
        | inl spare ↦
            rw spare
              (bit_and-mask pointer_bits _ ∙ low_part pointer_bits p (hash / 2 ^ pointer_bits) lt)
        | inr full ↦ rw full refl
      ]))

-- The slots of two states that have one hash do not differ in the bits that slot_neq compares.
pub slot_neq-packed :
    (pointer_bits p q hash : ℕ)
    → IsPointer pointer_bits p
    → IsPointer pointer_bits q
    → slot_neq pointer_bits (packed pointer_bits p hash) (packed pointer_bits q hash) ≡ false
unfolding slot_neq
slot_neq-packed pointer_bits p q hash (_, _, lt, _, _) (_, _, lt', _, _) =
    elim (Bool-cases (has_spare_bits pointer_bits)) [
      | inl spare ↦
          let x = hash / 2 ^ pointer_bits in
          let same : ((p + x * 2 ^ pointer_bits) / 2 ^ pointer_bits
                == (q + x * 2 ^ pointer_bits) / 2 ^ pointer_bits)
              ≡ true =
            rw (high_part pointer_bits p x lt, high_part pointer_bits q x lt') (ground arith) in
          rw (spare, same) refl
      | inr full ↦ rw full refl
    ]
