-- ===== src/Rule/Names/Distinct.antt =====
-- All names of librumur/src/sanitise_rule_names.cc: no two rules of a model have one name.
use rumur.Prelude.{
  ◌+◌, ◌≡◌, ◌≢◌, refl, sym, inl, inr, false, Bool-cases, List, [], ◌∷◌, ◌++◌, String, str_eq,
  str_eq_iff, length, arith, All,
}
use rumur.Prelude.Permutations.{Pairwise, All-imp}
use rumur.Rule.Names.{contains}

-- Names that are pushed on others one by one.
unfoldable pub push : List String → List String → List String
push [] used = used
push (name ∷ new) used = push new (name ∷ used)

pub push-append :
    (new newer used : List String) → push (new ++ newer) used ≡ push newer (push new used)
unfolding push
push-append [] newer used = refl
push-append (name ∷ new) newer used = push-append new newer (name ∷ used)

pub length-push : (new used : List String) → length (push new used) ≡ length new + length used
unfolding push
length-push [] used = omega arith
length-push (name ∷ new) used = omega (arith, length-push new (name ∷ used))

pub All-append :
    (P : String → Type 0) (xs ys : List String) → All P xs → All P ys → All P (xs ++ ys)
All-append P [] ys h k = k
All-append P (x ∷ xs) ys (h, hs) k = (h, All-append P xs ys hs k)

abbrev pub Differ : List String → Type 0
Differ = Pairwise (λ (a b : String). a ≢ b)

pub contains-All :
    (used : List String) (name : String) → contains used name ≡ false → All (λ u. name ≢ u) used
unfolding contains
contains-All [] name h = tt
contains-All (u ∷ used) name h = elim (Bool-cases (str_eq u name)) [
  | inl same ↦ cc (rw same at h)
  | inr other ↦
      ((λ e. cc (other, (str_eq_iff u name).1 (sym e))), contains-All used name (rw other at h))
]

pub push-Differ :
    (new used : List String)
    → Differ (push new used)
    → Differ new × All (λ n. All (λ u. n ≢ u) used) new × Differ used
unfolding push
push-Differ [] used h = (tt, tt, h)
push-Differ (name ∷ new) used h =
    let (differ, apart, (from, rest)) = push-Differ new (name ∷ used) h in
    (
      (All-imp {Q = λ n. name ≢ n} (λ n a e. a.0 (sym e)) new apart, differ),
      (from, All-imp {Q = λ n. All (λ u. n ≢ u) used} (λ n a. a.1) new apart),
      rest,
    )
