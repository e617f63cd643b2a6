-- ===== src/Prelude/Bits.antt =====
-- The bits of a natural number, and what the operations of C on unsigned words do to them.
use Prim.Native.Nat.{
  ℕ, zero, suc, ◌+◌, ◌-◌, ◌*◌, ◌/◌, ◌%◌, ◌^◌, ◌≤◌, ◌<◌, min, max, bit_and, bit_or, digits,
  bit_and-bitwise, bit_or-bitwise,
}
use mathlib.Core.Path.{◌≡◌, refl, sym, ◌∙◌, ap, ap₂}
use mathlib.Core.Bool.{Bool, false, ◌&&◌, ◌||◌, not}
use native.Mathlib.Nat.{
  mul_comm, suc-add, pow-suc, one-le-pow, le_refl, div-add-mod', mod-lt, mul-add-mod_self_right,
  mod-eq_of_lt, div-div-eq-div-mul,
}
use native.Mathlib.Omega.{arith}
use rumur.Prelude.Tests.{ltb, leb, ◌==◌, if◌then◌else◌}

-- Powers of two.
pub pow-add : (k n : ℕ) → 2 ^ (k + n) ≡ 2 ^ k * 2 ^ n
pow-add zero n = ground arith
pow-add (suc k) n = rw (mul_comm, suc-add, pow-suc, pow-suc, pow-add k n) (omega arith)

-- `(n >> i) & 1`
unfoldable pub testbit : ℕ → ℕ → Bool
testbit n zero = n % 2 == 1
testbit n (suc i) = testbit (n / 2) i

pub testbit-zero : (i : ℕ) → testbit 0 i ≡ false
unfolding testbit
testbit-zero zero = refl
testbit-zero (suc i) = testbit-zero i

-- The lowest bit and the others, of a number in two parts.
testbit_parts : (d m i : ℕ) → m < 2 → testbit (d * 2 + m) (suc i) ≡ testbit d i
unfolding testbit
testbit_parts d m i h = ap (λ n. testbit n i) (omega arith)

and-testbit :
    (n a b i : ℕ) → a ≤ n → testbit (digits (λ b. zero) min n a b) i ≡ (testbit a i && testbit b i)
unfolding testbit
and-testbit zero zero b i h = rw testbit-zero refl
and-testbit zero (suc a) b i h = absurd (omega arith)
and-testbit (suc n) zero b i h = rw testbit-zero refl
and-testbit (suc n) (suc a) b zero h = ground arith
and-testbit (suc n) (suc a) b (suc i) h =
    testbit_parts _ (min (suc a % 2) (b % 2)) i (omega arith)
    ∙ and-testbit n (suc a / 2) (b / 2) i (omega arith)

or-testbit :
    (n a b i : ℕ) → a ≤ n → testbit (digits (λ b. b) max n a b) i ≡ (testbit a i || testbit b i)
unfolding testbit
or-testbit zero zero b i h = rw testbit-zero refl
or-testbit zero (suc a) b i h = absurd (omega arith)
or-testbit (suc n) zero b i h = rw testbit-zero refl
or-testbit (suc n) (suc a) b zero h = ground arith
or-testbit (suc n) (suc a) b (suc i) h =
    testbit_parts _ (max (suc a % 2) (b % 2)) i (omega arith)
    ∙ or-testbit n (suc a / 2) (b / 2) i (omega arith)

pub testbit-bit_and : (a b i : ℕ) → testbit (bit_and a b) i ≡ (testbit a i && testbit b i)
testbit-bit_and a b i =
    ap (λ n. testbit n i) (bit_and-bitwise a b) ∙ and-testbit a a b i (le_refl _)

pub testbit-bit_or : (a b i : ℕ) → testbit (bit_or a b) i ≡ (testbit a i || testbit b i)
testbit-bit_or a b i = ap (λ n. testbit n i) (bit_or-bitwise a b) ∙ or-testbit a a b i (le_refl _)

-- A product by a power of two, and the remainder by one, one bit at a time.
double-mul : (n m : ℕ) → n * (m * 2) ≡ (n * m) * 2
double-mul n m = grind arith

half-mod : (n m : ℕ) → 0 < m → n % (m * 2) / 2 ≡ n / 2 % m
half-mod n m h =
    let q = n / (m * 2) in
    let r = n % (m * 2) in
    let e : q * (m * 2) + r ≡ n = div-add-mod' n (m * 2) in
    let lt : r < m * 2 = mod-lt n (omega arith) in
    let half : n / 2 ≡ q * m + r / 2 = omega (arith, double-mul q m) in
    sym (ap (λ t. t % m) half ∙ mul-add-mod_self_right q m (r / 2) ∙ mod-eq_of_lt (omega arith))

parity-mod : (n m : ℕ) → 0 < m → n % (m * 2) % 2 ≡ n % 2
parity-mod n m h = omega (arith, div-add-mod' n (m * 2), double-mul (n / (m * 2)) m)

same-bit : (m n i j : ℕ) → m ≡ n → i ≡ j → testbit m i ≡ testbit n j
same-bit m n i j p q = ap₂ testbit p q

-- `n >> k`
pub testbit-shr : (k n i : ℕ) → testbit (n / 2 ^ k) i ≡ testbit n (i + k)
unfolding testbit
testbit-shr zero n i = same-bit (n / 1) n i (i + 0) (omega arith) (omega arith)
testbit-shr (suc k) n i =
    ap (λ t. testbit t i) (ap (λ t. n / t) (pow-suc 2 k) ∙ sym (div-div-eq-div-mul n (2 ^ k) 2))
    ∙ testbit-shr k n (suc i)
    ∙ same-bit n n (suc i + k) (i + suc k) refl (omega arith)

leb-suc : (k i : ℕ) → leb k i ≡ leb (suc k) (suc i)
leb-suc k i = ground arith

suc-sub : (k i : ℕ) → i - k ≡ suc i - suc k
suc-sub k i = omega arith

-- `n << k`
pub testbit-shl : (k n i : ℕ) → testbit (n * 2 ^ k) i ≡ (leb k i && testbit n (i - k))
unfolding testbit
testbit-shl zero n i = same-bit (n * 1) n i (i - 0) (omega arith) (omega arith) ∙ ground arith
testbit-shl (suc k) n zero = ground (arith, pow-suc 2 k, double-mul n (2 ^ k))
testbit-shl (suc k) n (suc i) =
    ap (λ t. testbit t i) (omega (arith, ap (λ t. n * t) (pow-suc 2 k), double-mul n (2 ^ k)))
    ∙ testbit-shl k n i
    ∙ ap₂ (λ b j. b && testbit n j) (leb-suc k i) (suc-sub k i)

-- A word of w bits.
pub testbit-wrap : (w n i : ℕ) → testbit (n % 2 ^ w) i ≡ (ltb i w && testbit n i)
unfolding testbit
testbit-wrap zero n i = ap (λ t. testbit t i) (omega arith) ∙ testbit-zero i ∙ ground arith
testbit-wrap (suc w) n zero =
    ground (arith, pow-suc 2 w, parity-mod n (2 ^ w) (one-le-pow w 2 (omega arith)))
testbit-wrap (suc w) n (suc i) =
    ap (λ t. testbit t i)
      (ap (λ t. n % t / 2) (pow-suc 2 w) ∙ half-mod n (2 ^ w) (one-le-pow w 2 (omega arith)))
    ∙ testbit-wrap w (n / 2) i
    ∙ ap (λ b. b && testbit (n / 2) i) (ground arith)

-- `(1 << w) - 1`
pub testbit-mask : (w i : ℕ) → testbit (2 ^ w - 1) i ≡ ltb i w
unfolding testbit
testbit-mask zero i = testbit-zero i ∙ ground arith
testbit-mask (suc w) zero = ground (arith, pow-suc 2 w, one-le-pow w 2)
testbit-mask (suc w) (suc i) =
    ap (λ t. testbit t i) (omega (arith, pow-suc 2 w, one-le-pow w 2 (omega arith)))
    ∙ testbit-mask w i
    ∙ ground arith

-- `~n`, of a word of w bits
pub testbit-complement :
    (w n i : ℕ) → n < 2 ^ w → testbit (2 ^ w - 1 - n) i ≡ (ltb i w && not (testbit n i))
unfolding testbit
testbit-complement zero n i h = ap (λ t. testbit t i) (omega arith) ∙ testbit-zero i ∙ ground arith
testbit-complement (suc w) n zero h = ground (arith, pow-suc 2 w, one-le-pow w 2)
testbit-complement (suc w) n (suc i) h =
    ap (λ t. testbit t i) (omega (arith, pow-suc 2 w, one-le-pow w 2 (omega arith)))
    ∙ testbit-complement w (n / 2) i (omega (arith, pow-suc 2 w))
    ∙ ground arith

-- A number of w bits has no bit from w on, and is determined by its bits.
pub testbit-high : (w n i : ℕ) → n < 2 ^ w → w ≤ i → testbit n i ≡ false
unfolding testbit
testbit-high zero n i h le = ap (λ t. testbit t i) (omega arith) ∙ testbit-zero i
testbit-high (suc w) n zero h le = absurd (omega arith)
testbit-high (suc w) n (suc i) h le =
    testbit-high w (n / 2) i (omega (arith, pow-suc 2 w)) (omega arith)

pub testbit_ext :
    (w a b : ℕ) → a < 2 ^ w → b < 2 ^ w → ((i : ℕ) → testbit a i ≡ testbit b i) → a ≡ b
unfolding testbit
testbit_ext zero a b p q h = omega arith
testbit_ext (suc w) a b p q h =
    let halves =
      testbit_ext w (a / 2) (b / 2) (omega (arith, pow-suc 2 w)) (omega (arith, pow-suc 2 w))
        (λ i. h (suc i)) in
    ground (arith, h 0)

-- What `&` and `|` leave within a word.
and-lt : (n w a b : ℕ) → b < 2 ^ w → digits (λ b. zero) min n a b < 2 ^ w
and-lt zero w a b h = one-le-pow w 2 (omega arith)
and-lt (suc n) w zero b h = one-le-pow w 2 (omega arith)
and-lt (suc n) zero (suc a) b h = omega (arith, and-lt n zero (suc a / 2) (b / 2))
and-lt (suc n) (suc w) (suc a) b h =
    omega (arith, pow-suc 2 w, and-lt n w (suc a / 2) (b / 2) (omega (arith, pow-suc 2 w)))

pub bit_and-lt : (w a b : ℕ) → b < 2 ^ w → bit_and a b < 2 ^ w
bit_and-lt w a b h = omega (arith, and-lt a w a b h, ap (λ (n : ℕ). n) (bit_and-bitwise a b))

or-lt : (n w a b : ℕ) → a ≤ n → a < 2 ^ w → b < 2 ^ w → digits (λ b. b) max n a b < 2 ^ w
or-lt zero w a b p h k = k
or-lt (suc n) w zero b p h k = k
or-lt (suc n) zero (suc a) b p h k = absurd (omega arith)
or-lt (suc n) (suc w) (suc a) b p h k = omega (
  arith,
  pow-suc 2 w,
  or-lt n w (suc a / 2) (b / 2) (omega arith) (omega (arith, pow-suc 2 w))
      (omega (arith, pow-suc 2 w)),
)

pub bit_or-lt : (w a b : ℕ) → a < 2 ^ w → b < 2 ^ w → bit_or a b < 2 ^ w
bit_or-lt w a b h k =
    omega (arith, or-lt a w a b (le_refl a) h k, ap (λ (n : ℕ). n) (bit_or-bitwise a b))

-- A number of two fields.
pub testbit-fields :
    (k b x i : ℕ)
    → b < 2 ^ k
    → testbit (b + x * 2 ^ k) i ≡ (if ltb i k then testbit b i else testbit x (i - k))
unfolding testbit
testbit-fields zero b x i h =
    same-bit (b + x * 1) x i (i - 0) (omega arith) (omega arith) ∙ ground arith
testbit-fields (suc k) b x zero h = ground (arith, pow-suc 2 k, double-mul x (2 ^ k))
testbit-fields (suc k) b x (suc i) h =
    ap (λ t. testbit t i) (omega (arith, ap (λ t. x * t) (pow-suc 2 k), double-mul x (2 ^ k)))
    ∙ testbit-fields k (b / 2) x i (omega (arith, pow-suc 2 k))
    ∙ ground (arith, suc-sub k i)
