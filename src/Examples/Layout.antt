-- ===== src/Examples/Layout.antt =====
-- State layouts: an instance of the parameter that stands for `std::sort`, and a model with variables.
use mathlib.Core.List.{Permᴰ}
use mathlib.Core.List.Permᴰ
use rumur.Prelude.{
  ℕ, ◌^◌, ◌<◌, ◌≤◌, zero, suc, ◌≡◌, refl, true, false, Bool, if◌then◌else◌, List, [], ◌∷◌, All,
  Bool-cases, inl, inr, arith, ◌∙◌, ap,
}
use rumur.Prelude.Int.{pos, ◌+ℤ◌, ◌-ℤ◌}
use rumur.Prelude.Permutations.{All-perm, Pairwise}
use rumur.Prelude.Results.{Result, ok, ◌>>=◌}
use rumur.Ast.{VarDecl, var, var_decl, scalarset, number, record_type, nil_vars}
use rumur.Fold.Dispatch.{constant_fold}
use rumur.TypeExpr.Size.{width, simple_width, range_count, scalarset_count}
use rumur.TypeExpr.Size.Bits.{simple_width-least}
use rumur.Rule.{Model, expr_child}
use rumur.Layout.{
  Sort, comp, reorder_model, apply_offsets, size_bits, vars_of, validate_model, offset_of, type_of,
  precedes,
}
use rumur.Layout.Order.{IsStrictWeak, IsSort, comp-not-IsStrictWeak}
use rumur.Layout.Places.{value_or_zero, width_of, HasWidth, LiesWithin, Apart, total}
use rumur.Layout.Reorder.{reorder_model-places}
use rumur.Checker.Handle.{Handle, read_raw, write_raw}
use rumur.Checker.Place.Variables.{IsMeasured, variable_handle, write_variable}
use rumur.Examples.Gmp.{gmp}
use rumur.Examples.Handles.{target, counting, counting-IsBytes}
use rumur.Examples.Types.{digit_name}

insert : (VarDecl → VarDecl → Result Bool) → VarDecl → List VarDecl → Result (List VarDecl)
insert cmp x [] = ok (x ∷ [])
insert cmp x (y ∷ ys) = do
  earlier ← cmp y x
  rest ← insert cmp x ys
  ok (if earlier then y ∷ rest else x ∷ y ∷ ys)

insertion_sort : Sort
unfolding insert
insertion_sort cmp [] = ok []
insertion_sort cmp (x ∷ xs) = do ys ← insertion_sort cmp xs; insert cmp x ys

module _ (cmp : VarDecl → VarDecl → Result Bool) (P : VarDecl → Type 0)
    (less : VarDecl → VarDecl → Bool)
    (agree : (a b : VarDecl) → P a → P b → cmp a b ≡ ok (less a b)) where
  insert-permutes :
      (x : VarDecl) (ys : List VarDecl)
      → P x
      → All P ys
      → (zs : List VarDecl) × (insert cmp x ys ≡ ok zs) × Permᴰ (x ∷ ys) zs
  unfolding insert
  insert-permutes x [] p ps = (x ∷ [], refl, Permᴰ.refl _)
  insert-permutes x (y ∷ ys) p (q, ps) =
      let (zs, e, π) = insert-permutes x ys p ps in
      elim (Bool-cases (less y x)) [
        | inl b ↦ (
          y ∷ zs,
          rw (agree y x q p, e, b) refl,
          Permᴰ.trans (Permᴰ.swap refl refl) (Permᴰ.cons refl π),
        )
        | inr b ↦ (x ∷ y ∷ ys, rw (agree y x q p, e, b) refl, Permᴰ.refl _)
      ]

  insertion_sort-permutes :
      (vs : List VarDecl)
      → All P vs
      → (sorted : List VarDecl) × (insertion_sort cmp vs ≡ ok sorted) × Permᴰ vs sorted
  unfolding insertion_sort
  insertion_sort-permutes [] ps = ([], refl, Permᴰ.refl _)
  insertion_sort-permutes (x ∷ xs) (p, ps) =
      let (ys, e, π) = insertion_sort-permutes xs ps in
      let (zs, e', ρ) = insert-permutes x ys p (All-perm P π ps) in
      (zs, rw (e, e') refl, Permᴰ.trans (Permᴰ.cons refl π) ρ)

insertion_sort-IsSort : IsSort insertion_sort
insertion_sort-IsSort = record {
  permutes = λ cmp P less order agree. insertion_sort-permutes cmp P less agree;
}

abbrev digit_var : VarDecl
digit_var = var "digit" digit_name (pos 0) false

abbrev seat_var : VarDecl
seat_var = var "seat" (scalarset (number (pos 4))) (pos 0) false

abbrev two_vars : Model
two_vars = expr_child (var_decl digit_var) ∷ expr_child (var_decl seat_var) ∷ []

two_vars-valid : validate_model two_vars ≡ ok tt
unfolding validate_model
two_vars-valid = refl

digit-width : width gmp digit_name ≡ ok (simple_width (pos 11))
unfolding width constant_fold ◌+ℤ◌ ◌-ℤ◌ range_count
digit-width = refl

seat-width : width gmp (scalarset (number (pos 4))) ≡ ok (simple_width (pos 5))
unfolding width constant_fold ◌+ℤ◌ scalarset_count
seat-width = refl

exponent_pos : (k n : ℕ) → 1 < n → n ≤ 2 ^ k → 0 < k
exponent_pos zero n h le = let no : ⊥ = omega arith in elim no [ ]
exponent_pos (suc k) n h le = omega arith

above_zero : (n : ℕ) → 1 < n → (k : ℕ) × (simple_width (pos n) ≡ pos k) × (0 < k)
above_zero n h = let (k, e, le, _) = simple_width-least n in (k, e, exponent_pos k n h le)

two_vars-HasWidth : All (HasWidth gmp) (vars_of two_vars)
unfolding vars_of
two_vars-HasWidth =
    let (k, e, p) = above_zero 11 (omega arith) in
    let (j, e', p') = above_zero 5 (omega arith) in
    ((k, digit-width ∙ ap ok e, p), ((j, seat-width ∙ ap ok e', p'), tt))

reorder_model-places_example :
    (size : ℕ) × (m' : Model) × (reorder_model gmp insertion_sort two_vars ≡ ok m')
    × (apply_offsets [] m' ≡ apply_offsets [] two_vars)
    × (size_bits gmp two_vars ≡ ok (pos size))
    × All (λ v. LiesWithin gmp 0 size (offset_of v) v) (vars_of m')
    × Pairwise (Apart gmp offset_of) (vars_of m')
    × (total gmp (vars_of m') ≡ size)
reorder_model-places_example =
    reorder_model-places gmp insertion_sort insertion_sort-IsSort two_vars two_vars-valid
      two_vars-HasWidth

abbrev empty_record : VarDecl
empty_record = var "empty" (record_type nil_vars) (pos 0) false

empty-width : width gmp (type_of empty_record) ≡ ok (pos 0)
unfolding width
empty-width = refl

-- the answer of comp on the empty record itself
abbrev always : VarDecl → VarDecl → Bool
always a b = true

abbrev IsEmptyRecord : VarDecl → Type 0
IsEmptyRecord v = v ≡ empty_record

always-agrees : (a b : VarDecl) → IsEmptyRecord a → IsEmptyRecord b → comp gmp a b ≡ ok (always a b)
unfolding comp width precedes
always-agrees a b h k = rw (h, k) refl

comp-not-IsStrictWeak_example : ¬ IsStrictWeak IsEmptyRecord always
comp-not-IsStrictWeak_example =
    comp-not-IsStrictWeak gmp empty_record IsEmptyRecord always empty-width refl always-agrees

least_width : (n m : ℕ) → n ≤ 2 ^ m → (k : ℕ) × (simple_width (pos n) ≡ pos k) × (k ≤ m)
least_width n m le = let (k, e, _, least) = simple_width-least n in (k, e, least m le)

digit-width_of : width_of gmp digit_var ≤ 4
digit-width_of =
    let (k, e, le) = least_width 11 4 (omega arith) in
    let same : width_of gmp digit_var ≡ k = ap value_or_zero (digit-width ∙ ap ok e) in omega arith

-- the seat behind the digit
abbrev second_var : VarDecl
second_var = var "seat" (scalarset (number (pos 4))) (pos 4) false

second-width_of : width_of gmp second_var ≤ 3
second-width_of =
    let (k, e, le) = least_width 5 3 (omega arith) in
    let same : width_of gmp second_var ≡ k = ap value_or_zero (seat-width ∙ ap ok e) in omega arith

digit-IsMeasured : IsMeasured gmp digit_var
digit-IsMeasured = let (k, e, _) = least_width 11 4 (omega arith) in (k, digit-width ∙ ap ok e)

seat-IsMeasured : IsMeasured gmp second_var
seat-IsMeasured = let (k, e, _) = least_width 5 3 (omega arith) in (k, seat-width ∙ ap ok e)

write_variable_example :
    (h : Handle) × (k : Handle) × (variable_handle gmp target 16 digit_var ≡ ok h)
    × (variable_handle gmp target 16 second_var ≡ ok k)
    × ((write_raw target.has_int128 counting h 9 >>= λ m'. read_raw target.has_int128 m' k)
        ≡ read_raw target.has_int128 counting k)
write_variable_example =
    let small = digit-width_of in
    let small' = second-width_of in
    write_variable gmp target 16 8 digit_var second_var counting 9 (omega arith) (omega arith)
      digit-IsMeasured seat-IsMeasured (0, refl, omega arith, omega arith)
      (4, refl, omega arith, omega arith) (inl (omega arith)) (omega arith) (omega arith)
      counting-IsBytes (omega arith)
