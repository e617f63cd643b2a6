-- ===== src/Quantifier/Loop.antt =====
-- The loop of `Quantifier::count`: when it ends, and with what.
use rumur.Prelude.{
  ℕ, zero, suc, ◌+◌, ◌*◌, ◌<◌, ◌≡◌, ◌↔◌, refl, none, some, arith, true, false, Bool-cases, inl, inr,
  ap, ◌∙◌,
}
use rumur.Prelude.Int.{ℤ, pos, ◌+ℤ◌, ◌≤ℤ◌, ◌<ℤ◌, leb_ℤ, int_laws}
use rumur.Quantifier.{count_loop}

leb_ℤ-true : (a b : ℤ) → leb_ℤ a b ≡ true → a ≤ℤ b
leb_ℤ-true a b h = ground arith

leb_ℤ-false : (a b : ℤ) → leb_ℤ a b ≡ false → b <ℤ a
leb_ℤ-false a b h = ground arith

leb_ℤ-le : (a b : ℤ) → a ≤ℤ b → leb_ℤ a b ≡ true
leb_ℤ-le a b h = ground arith

pos_next : (c : ℕ) → pos c +ℤ pos 1 ≡ pos (c + 1)
unfolding ◌+ℤ◌
pos_next c = ground arith

-- A step that is not positive, from a start that is not above the end, never ends the loop.
pub count_loop-diverges :
    (fuel : ℕ) (i ub inc c : ℤ) → i ≤ℤ ub → inc ≤ℤ pos 0 → count_loop fuel i ub inc c ≡ none
unfolding count_loop
count_loop-diverges zero i ub inc c h k = refl
count_loop-diverges (suc fuel) i ub inc c h k =
    rw (leb_ℤ-le i ub h)
      (count_loop-diverges fuel (i +ℤ inc) ub inc (c +ℤ pos 1) (omega int_laws) k)

-- the values from `i` on in steps of `inc` that are not above `ub` are the first `n`
abbrev pub Visits : ℕ → ℤ → ℤ → ℕ → Type 0
Visits n i ub inc = (m : ℕ) → (m < n) ↔ (i +ℤ pos (m * inc) ≤ℤ ub)

Visits-zero : (i ub : ℤ) (inc : ℕ) → ub <ℤ i → Visits 0 i ub inc
Visits-zero i ub inc h m = (λ lt. absurd (omega arith), λ le. absurd (omega int_laws))

Visits-suc :
    (n : ℕ) (i ub : ℤ) (inc : ℕ)
    → i ≤ℤ ub
    → Visits n (i +ℤ pos inc) ub inc
    → Visits (suc n) i ub inc
Visits-suc n i ub inc h v zero = (λ lt. omega int_laws, λ le. omega arith)
Visits-suc n i ub inc h v (suc m) =
    (λ lt. omega (int_laws, (v m).0 (omega arith)), λ le. omega (arith, (v m).1 (omega int_laws)))

-- With more fuel than there are numbers from the start to the end, and at least one round of it, a
-- positive step ends the loop, and the loop has counted the values that it visited.
pub count_loop-Visits :
    (fuel : ℕ) (i ub : ℤ) (inc c : ℕ)
    → 0 < inc
    → 0 < fuel
    → ub +ℤ pos 1 <ℤ i +ℤ pos fuel
    → (n : ℕ) × (count_loop fuel i ub (pos inc) (pos c) ≡ some (pos (c + n))) × Visits n i ub inc
unfolding count_loop
count_loop-Visits zero i ub inc c p f h = absurd (omega arith)
count_loop-Visits (suc fuel) i ub inc c p f h = elim (Bool-cases (leb_ℤ i ub)) [
  | inl more ↦
      let le = leb_ℤ-true i ub more in
      let (n, e, v) =
        count_loop-Visits fuel (i +ℤ pos inc) ub inc (c + 1) p (omega int_laws) (omega int_laws) in
      (
        suc n,
        rw (more, pos_next c) (e ∙ ap (λ x. some (pos x)) (omega arith)),
        Visits-suc n i ub inc le v,
      )
  | inr done ↦ (
    0,
    rw done (ap (λ x. some (pos x)) (omega arith)),
    Visits-zero i ub inc (leb_ℤ-false i ub done),
  )
]
