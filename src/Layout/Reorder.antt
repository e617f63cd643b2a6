-- ===== src/Layout/Reorder.antt =====
-- `Reorderer::visit_model`: the variables fill the state and do not overlap.
use mathlib.Core.List.Permᴰ
use rumur.Prelude.{
  ℕ, ◌+◌, ◌≡◌, refl, sym, ◌∙◌, ap, ap₂, List, [], ◌∷◌, map, All, inl, inr, arith, subst,
}
use rumur.Prelude.Int.{ℤ, pos}
use rumur.Prelude.Permutations.{Pairwise, All-perm, Pairwise-perm, All-map, Pairwise-map}
use rumur.Prelude.Results.{ok}
use rumur.Ast.{VarDecl, var, var_decl, alias_decl, const_decl}
use rumur.Gmp.{Gmp}
use rumur.Rule.{Model, Child, expr_child, type_child, function_child, rule_child}
use rumur.Layout.{
  name_of, offset_of, place_at, vars_of, validate_model, Sort, Offsets, at, move_child,
  apply_offsets, size_bits, comp, reorder_model,
}
use rumur.Layout.Names.{Differ, validate_model_iff}
use rumur.Layout.Order.{IsSort}
use rumur.Layout.Places.{
  width_of, HasWidth, total, LiesWithin, Apart, places, placed, assign_offsets-places, places-Apart,
  sum_widths-total, total-perm, before, before-IsStrictWeak, comp-before,
}

-- the variables with the offsets of the map
abbrev moved : Offsets → VarDecl → VarDecl
moved os v = place_at (at (name_of v) os) v

vars_of-apply_offsets :
    (os : Offsets) (m : Model) → vars_of (apply_offsets os m) ≡ map (moved os) (vars_of m)
unfolding vars_of apply_offsets move_child
vars_of-apply_offsets os [] = refl
vars_of-apply_offsets os (expr_child (var_decl v) ∷ cs) =
    ap (λ vs. moved os v ∷ vs) (vars_of-apply_offsets os cs)
vars_of-apply_offsets os (expr_child (alias_decl _ _) ∷ cs) = vars_of-apply_offsets os cs
vars_of-apply_offsets os (expr_child (const_decl _ _ _) ∷ cs) = vars_of-apply_offsets os cs
vars_of-apply_offsets os (type_child _ _ ∷ cs) = vars_of-apply_offsets os cs
vars_of-apply_offsets os (function_child _ ∷ cs) = vars_of-apply_offsets os cs
vars_of-apply_offsets os (rule_child _ ∷ cs) = vars_of-apply_offsets os cs

move_child-twice :
    (os os' : Offsets) (c : Child) → move_child os' (move_child os c) ≡ move_child os' c
unfolding move_child
move_child-twice os os' (expr_child (var_decl (var _ _ _ _))) = refl
move_child-twice os os' (expr_child (alias_decl _ _)) = refl
move_child-twice os os' (expr_child (const_decl _ _ _)) = refl
move_child-twice os os' (type_child _ _) = refl
move_child-twice os os' (function_child _) = refl
move_child-twice os os' (rule_child _) = refl

-- Only the offsets change.
apply_offsets-twice :
    (os os' : Offsets) (m : Model) → apply_offsets os' (apply_offsets os m) ≡ apply_offsets os' m
unfolding apply_offsets
apply_offsets-twice os os' [] = refl
apply_offsets-twice os os' (c ∷ cs) =
    ap₂ (λ c m. c ∷ m) (move_child-twice os os' c) (apply_offsets-twice os os' cs)

module _ (g : Gmp) where
  within-moved :
      (os : Offsets) (high : ℕ) (v : VarDecl)
      → LiesWithin g 0 high (at (name_of v) os) v
      → LiesWithin g 0 high (offset_of (moved os v)) (moved os v)
  within-moved os high (var _ _ _ _) h = h

  Apart-moved :
      (os : Offsets) (a b : VarDecl)
      → Apart g (λ v. at (name_of v) os) a b
      → Apart g offset_of (moved os a) (moved os b)
  Apart-moved os (var _ _ _ _) (var _ _ _ _) h = h

  Apart-comm : (f : VarDecl → ℤ) (a b : VarDecl) → Apart g f a b → Apart g f b a
  Apart-comm f a b (inl h) = inr h
  Apart-comm f a b (inr h) = inl h

  total-moved : (os : Offsets) (vs : List VarDecl) → total g (map (moved os) vs) ≡ total g vs
  total-moved os [] = refl
  total-moved os (var name t offset readonly ∷ vs) =
      ap (λ n. width_of g (var name t offset readonly) + n) (total-moved os vs)

  -- Of a model that validate accepts and whose variables have widths above 0, visit_model of the
  -- reordering traversal returns a model that differs in the variables' offsets only. Each variable
  -- lies within the model's size_bits bits, no two overlap, and their widths sum up to size_bits.
  pub reorder_model-places :
      (sort : Sort)
      → IsSort sort
      → (m : Model) → validate_model m ≡ ok tt
      → All (HasWidth g) (vars_of m)
      → (size : ℕ) × (m' : Model) × (reorder_model g sort m ≡ ok m')
        × (apply_offsets [] m' ≡ apply_offsets [] m)
        × (size_bits g m ≡ ok (pos size))
        × All (λ v. LiesWithin g 0 size (offset_of v) v) (vars_of m')
        × Pairwise (Apart g offset_of) (vars_of m')
        × (total g (vars_of m') ≡ size)
  unfolding reorder_model size_bits
  reorder_model-places sort laws m valid widths =
      let distinct = (validate_model_iff m).0 valid in
      let (sorted, e, p) =
        laws.permutes (comp g) (HasWidth g) (before g) (before-IsStrictWeak g) (comp-before g)
          (vars_of m) widths in
      let back = Permᴰ.symm p in
      let os = places g sorted 0 [] in
      let size = total g (vars_of m) in
      let (within, apart) =
        places-Apart g sorted 0 [] (Pairwise-perm Differ (λ a b h e'. h (sym e')) p distinct) in
      let sum : 0 + total g sorted ≡ total g (vars_of m) = omega (arith, total-perm g p) in
      let vars = vars_of-apply_offsets os m in
      let found = assign_offsets-places g sorted 0 [] (All-perm (HasWidth g) p widths) in
      (
        size,
        apply_offsets os m,
        rw (e, found) refl,
        apply_offsets-twice os [] m,
        sum_widths-total g (vars_of m) 0 widths ∙ ap (λ n. ok (pos n)) (omega arith),
        rw vars (
            All-map _ (moved os) (within-moved os size) (vars_of m) (
              subst (λ n. All (λ v. LiesWithin g 0 n (at (name_of v) os) v) (vars_of m)) sum
                (All-perm (λ v. LiesWithin g 0 (0 + total g sorted) (placed g sorted 0 [] v) v) back
                  within))),
        rw vars (
            Pairwise-map (Apart g offset_of) (moved os) (Apart-moved os) (vars_of m) (
              Pairwise-perm (Apart g (placed g sorted 0 [])) (Apart-comm (placed g sorted 0 []))
                back apart)),
        rw vars (total-moved os (vars_of m)),
      )
