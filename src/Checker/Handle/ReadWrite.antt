-- ===== src/Checker/Handle/ReadWrite.antt =====
-- Reads after writes, and the readers and writers of one word against those of two.
use rumur.Prelude.{
  ℕ, ◌+◌, ◌-◌, ◌*◌, ◌/◌, ◌%◌, ◌^◌, ◌≤◌, ◌<◌, ◌≡◌, refl, sym, ◌∙◌, ap, ap₂, Bool, Bool-cases, inl,
  inr, true, false, ltb, leb, ◌&&◌, arith, ◌⊎◌,
}
use mathlib.Core.Path.{fun_ext}
use native.Mathlib.Nat.{one-le-pow, pow-le-pow_right, mod-lt}
use rumur.Prelude.Bits.{testbit, testbit-wrap, testbit_ext, testbit-high}
use rumur.Prelude.Results.{ok, ◌>>=◌}
use rumur.Checker.Memory.{Memory, IsBytes, bit}
use rumur.Checker.Handle.Align.{IsHandle, start}
use rumur.Checker.Handle.Read.{Holds, read_raw-Reads}
use rumur.Checker.Handle.Write.{write_raw-Writes}
use rumur.Checker.Handle.{Handle, read_raw, write_raw}

-- Two words that hold handles of the same width and of the same bits are one.
Holds-unique :
    (m m' : Memory) (h : Handle) (v w : ℕ)
    → v < 2 ^ 64
    → w < 2 ^ 64
    → Holds m h v
    → Holds m' h w
    → ((i : ℕ) → i < h.width → bit m (start h + i) ≡ bit m' (start h + i))
    → v ≡ w
Holds-unique m m' h v w lv lw p q same = testbit_ext 64 v w lv lw (λ i.
    p i
    ∙ elim (Bool-cases (ltb i h.width))
        as (λ x. (ltb i h.width && bit m (start h + i)) ≡ (ltb i h.width && bit m' (start h + i))) [
          | inl within ↦ rw within (same i (ground arith))
          | inr outside ↦ rw outside refl
        ]
    ∙ sym (q i))

-- The remainder is the word that a memory holds after a write.
Holds-mod :
    (m m' : Memory) (h : Handle) (v : ℕ)
    → ((i : ℕ) → i < h.width → bit m' (start h + i) ≡ testbit v i)
    → Holds m' h (v % 2 ^ h.width)
Holds-mod m m' h v same i = testbit-wrap h.width v i ∙ elim (Bool-cases (ltb i h.width)) [
  | inl within ↦ rw within (sym (same i (ground arith)))
  | inr outside ↦ rw outside refl
]

cut-lt : (h : Handle) (v : ℕ) → h.width ≤ 64 → v % 2 ^ h.width < 2 ^ 64
cut-lt h v w =
    omega (
      arith,
      mod-lt v (one-le-pow h.width 2 (omega arith)),
      pow-le-pow_right {n = 2} (omega arith) w,
    )

-- A read of the handle that was written yields the value, cut to the handle's width.
pub read_raw-write_raw :
    (has_int128 : Bool) (m : Memory) (h : Handle) (v : ℕ)
    → IsBytes m
    → IsHandle h
    → v < 2 ^ 64
    → (write_raw has_int128 m h v >>= λ m'. read_raw has_int128 m' h) ≡ ok (v % 2 ^ h.width)
read_raw-write_raw has_int128 m h v b p small =
    let (m', wrote, b', changed) = write_raw-Writes has_int128 m h v b p small in
    let (w, read, holds, lt) = read_raw-Reads has_int128 m' h b' p in
    let same : (i : ℕ) → i < h.width → bit m' (start h + i) ≡ testbit v i = λ i lt.
      let within : (leb (start h) (start h + i) && ltb (start h + i) (start h + h.width)) ≡ true =
        ground arith in
      let index : start h + i - start h ≡ i = omega arith in
      changed (start h + i) ∙ rw (within, index) refl in
    rw wrote (
      read
      ∙ ap ok (
          Holds-unique m' m' h w (v % 2 ^ h.width) lt (cut-lt h v p.1) holds
            (Holds-mod m m' h v same) (λ i lt. refl)))

-- Two handles without a common bit.
abbrev pub Disjoint : Handle → Handle → Type 0
Disjoint h g = (start h + h.width ≤ start g) ⊎ (start g + g.width ≤ start h)

-- A write leaves what a disjoint handle reads.
pub read_raw-write_raw-Disjoint :
    (has_int128 : Bool) (m : Memory) (h g : Handle) (v : ℕ)
    → IsBytes m
    → IsHandle h
    → IsHandle g
    → Disjoint h g
    → v < 2 ^ 64
    → (write_raw has_int128 m h v >>= λ m'. read_raw has_int128 m' g) ≡ read_raw has_int128 m g
read_raw-write_raw-Disjoint has_int128 m h g v b p q apart small =
    let (m', wrote, b', changed) = write_raw-Writes has_int128 m h v b p small in
    let (w, read, holds, lt) = read_raw-Reads has_int128 m' g b' q in
    let (w0, read0, holds0, lt0) = read_raw-Reads has_int128 m g b q in
    let same : (i : ℕ) → i < g.width → bit m' (start g + i) ≡ bit m (start g + i) = λ i lt.
      let outside : (leb (start h) (start g + i) && ltb (start g + i) (start h + h.width)) ≡ false =
        ground (arith, apart) in
      changed (start g + i) ∙ rw outside refl in
    rw wrote (read ∙ ap ok (Holds-unique m' m g w w0 lt lt0 holds holds0 same) ∙ sym read0)

-- The code for compilers with a 128-bit type and the code for those without read the same.
pub read_raw_int128 :
    (m : Memory) (h : Handle) → IsBytes m → IsHandle h → read_raw true m h ≡ read_raw false m h
read_raw_int128 m h b p =
    let (v, read, holds, lt) = read_raw-Reads true m h b p in
    let (w, read', holds', lt') = read_raw-Reads false m h b p in
    read ∙ ap ok (Holds-unique m m h v w lt lt' holds holds' (λ i lt. refl)) ∙ sym read'

-- Memories with the same bits are the same.
same_byte :
    (m m' : Memory) (a i : ℕ)
    → IsBytes m
    → IsBytes m'
    → ((k : ℕ) → bit m k ≡ bit m' k)
    → testbit (m a) i ≡ testbit (m' a) i
same_byte m m' a i b b' same = elim (Bool-cases (ltb i 8)) [
  | inl low ↦
      let byte : (8 * a + i) / 8 ≡ a = ground arith in
      let index : (8 * a + i) % 8 ≡ i = ground arith in
      let at : (m0 : Memory) → bit m0 (8 * a + i) ≡ testbit (m0 a) i =
        λ m0. ap₂ (λ x y. testbit (m0 x) y) byte index in
      sym (at m) ∙ same (8 * a + i) ∙ at m'
  | inr high ↦
      testbit-high 8 (m a) i (b a) (ground arith)
      ∙ sym (testbit-high 8 (m' a) i (b' a) (ground arith))
]

pub bytes_ext : (m m' : Memory) → IsBytes m → IsBytes m' → ((k : ℕ) → bit m k ≡ bit m' k) → m ≡ m'
bytes_ext m m' b b' same =
    fun_ext (λ a. testbit_ext 8 (m a) (m' a) (b a) (b' a) (λ i. same_byte m m' a i b b' same))

-- So do the writes.
pub write_raw_int128 :
    (m : Memory) (h : Handle) (v : ℕ)
    → IsBytes m
    → IsHandle h
    → v < 2 ^ 64
    → write_raw true m h v ≡ write_raw false m h v
write_raw_int128 m h v b p small =
    let (m', wrote, bytes, changed) = write_raw-Writes true m h v b p small in
    let (n', wrote', bytes', changed') = write_raw-Writes false m h v b p small in
    wrote ∙ ap ok (bytes_ext m' n' bytes bytes' (λ k. changed k ∙ sym (changed' k))) ∙ sym wrote'

-- On a handle of at most 64 bits, the code for compilers that have a 128-bit type and the code for
-- those that have not read the same value, and a write of either gives the same memory.
pub int128_alternatives :
    (m : Memory) (h : Handle) (v : ℕ)
    → IsBytes m
    → IsHandle h
    → v < 2 ^ 64
    → (read_raw true m h ≡ read_raw false m h) × (write_raw true m h v ≡ write_raw false m h v)
int128_alternatives m h v b p small = (read_raw_int128 m h b p, write_raw_int128 m h v b p small)
