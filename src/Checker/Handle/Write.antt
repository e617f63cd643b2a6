-- ===== src/Checker/Handle/Write.antt =====
-- `write_raw` writes the bits of its handle.
use Prim.Native.Nat.{min, bit_and}
use native.Mathlib.Nat.{one-le-pow}
use rumur.Prelude.{
  ℕ, ◌+◌, ◌-◌, ◌*◌, ◌^◌, ◌≤◌, ◌<◌, ◌≡◌, refl, ◌∙◌, ap, Bool, Bool-cases, inl, inr, true, false,
  if◌then◌else◌, ltb, leb, ◌==◌, ◌&&◌, arith,
}
use rumur.Prelude.Bits.{testbit, testbit-bit_and, testbit-mask, bit_and-lt}
use rumur.Prelude.Results.{Result, ok}
use rumur.Checker.Memory.{Memory, IsBytes, bit, copy_in-IsBytes}
use rumur.Checker.Handle.Align.{
  IsHandle, start, aligned, aligned_width_lem, handle_align-ok, and_true,
}
use rumur.Checker.Handle.Words.{Changed, write_low-Changed, write_high-Changed}
use rumur.Checker.Handle.{
  Handle, aligned_width, high_size, fits_hint, write_low, write_high, write_words, write_raw,
}

write_low-IsBytes :
    (size : ℕ) (m : Memory) (h : Handle) (v : ℕ)
    → IsBytes m
    → IsBytes (write_low size m h (aligned h) v)
unfolding write_low
write_low-IsBytes size m h v b = copy_in-IsBytes m h.base _ _ b

write_high-IsBytes :
    (size : ℕ) (m : Memory) (h : Handle) (v : ℕ)
    → IsBytes m
    → IsBytes (write_high size m h (aligned h) v)
unfolding write_high
write_high-IsBytes size m h v b = copy_in-IsBytes m (h.base + size) _ _ b

-- A write succeeds, leaves bytes, and changes the handle's bits alone.
abbrev pub Writes : Memory → Handle → ℕ → Result Memory → Type 0
Writes m h v result =
    (m' : Memory) × (result ≡ ok m')
    × IsBytes m'
    × Changed m m' (start h) (start h) (start h + h.width) v

join_words :
    (lo mid hi k : ℕ) (new old next : Bool)
    → lo ≤ mid
    → mid ≤ hi
    → next ≡ (if leb lo k && ltb k (min hi mid) then new else old)
    → (if leb mid k && ltb k hi then new else next) ≡ (if leb lo k && ltb k hi then new else old)
join_words lo mid hi k new old next first second low = ground (arith, low)

write_words-Writes :
    (size : ℕ) (m : Memory) (h : Handle) (v : ℕ)
    → IsBytes m
    → IsHandle h
    → 8 ≤ size
    → v < 2 ^ h.width
    → Writes m h v (write_words size m h (aligned h) v)
unfolding write_words
write_words-Writes size m h v b p s small =
    let a = aligned_width_lem h in
    let hint : fits_hint size (aligned h) ≡ true = ground (arith, p.1) in
    let m' = write_low size m h (aligned h) v in
    let b' = write_low-IsBytes size m h v b in
    let low = write_low-Changed size m h v b small in
    rw hint (elim (Bool-cases (high_size size (aligned h) == 0)) [
      | inl one ↦
          let whole : min (start h + h.width) (8 * (h.base + size)) ≡ start h + h.width =
            ground arith in
          rw one (
            m',
            refl,
            b',
            λ k.
                low k
                ∙ ap
                    (λ hi. if leb (start h) k && ltb k hi then testbit v (k - start h) else bit m k)
                    whole,
          )
      | inr two ↦
          let high = write_high-Changed size m' h v b' p s (ground arith) small in
          rw two (
            write_high size m' h (aligned h) v,
            refl,
            write_high-IsBytes size m' h v b',
            λ k.
                high k
                ∙ join_words (start h) (8 * (h.base + size)) (start h + h.width) k _ _ _
                    (omega (arith, p.0)) (ground arith) (low k),
          )
    ])

-- the sanitised value
sanitised : Handle → ℕ → ℕ
sanitised h v = if ltb h.width 64 then bit_and v (2 ^ h.width - 1) else v

sanitised-lt : (h : Handle) (v : ℕ) → h.width ≤ 64 → v < 2 ^ 64 → sanitised h v < 2 ^ h.width
unfolding sanitised
sanitised-lt h v w small = elim (Bool-cases (ltb h.width 64)) [
  | inl narrow ↦
      rw narrow
        (bit_and-lt h.width v (2 ^ h.width - 1) (omega (arith, one-le-pow h.width 2 (omega arith))))
  | inr wide ↦ let full : h.width ≡ 64 = ground arith in rw (wide, full) small
]

testbit-sanitised : (h : Handle) (v i : ℕ) → i < h.width → testbit (sanitised h v) i ≡ testbit v i
unfolding sanitised
testbit-sanitised h v i lt =
    let within : ltb i h.width ≡ true = ground arith in
    elim (Bool-cases (ltb h.width 64)) [
      | inl narrow ↦ rw narrow (
          testbit-bit_and v (2 ^ h.width - 1) i
          ∙ ap (λ b. testbit v i && b) (testbit-mask h.width i ∙ within)
          ∙ and_true _)
      | inr wide ↦ rw wide refl
    ]

Changed-sanitised :
    (m m' : Memory) (h : Handle) (v : ℕ)
    → Changed m m' (start h) (start h) (start h + h.width) (sanitised h v)
    → Changed m m' (start h) (start h) (start h + h.width) v
Changed-sanitised m m' h v changed k =
    changed k ∙ elim (Bool-cases (leb (start h) k && ltb k (start h + h.width))) [
      | inl within ↦ rw within (testbit-sanitised h v (k - start h) (ground arith))
      | inr outside ↦ rw outside refl
    ]

Writes-sanitised :
    (m : Memory) (h : Handle) (v : ℕ) (result : Result Memory)
    → Writes m h (sanitised h v) result
    → Writes m h v result
Writes-sanitised m h v result (m', e, b, changed) = (m', e, b, Changed-sanitised m m' h v changed)

Writes-none : (m : Memory) (h : Handle) (v : ℕ) → IsBytes m → h.width ≡ 0 → Writes m h v (ok m)
Writes-none m h v b e = (
  m,
  refl,
  b,
  λ k.
      let none : (leb (start h) k && ltb k (start h + h.width)) ≡ false = ground arith in
      rw none refl,
)

pub write_raw-Writes :
    (has_int128 : Bool) (m : Memory) (h : Handle) (v : ℕ)
    → IsBytes m
    → IsHandle h
    → v < 2 ^ 64
    → Writes m h v (write_raw has_int128 m h v)
unfolding write_raw sanitised
write_raw-Writes has_int128 m h v b p small = elim (Bool-cases (h.width == 0)) [
  | inl empty ↦ rw empty (Writes-none m h v b (ground arith))
  | inr some ↦
      let value = sanitised h v in
      let lt = sanitised-lt h v p.1 small in
      rw (some, handle_align-ok h p)
        (Writes-sanitised m h v _ (elim (Bool-cases (has_int128 && ltb 56 (aligned_width h))) [
          | inl double ↦ rw double (write_words-Writes 16 m h value b p (omega arith) lt)
          | inr single ↦ rw single (write_words-Writes 8 m h value b p (omega arith) lt)
        ]))
]
