-- ===== src/Layout.antt =====
-- The places of the state variables: `Model::size_bits` and `Model::validate` of librumur/src/Model.cc,
-- and rumur/src/optimise-field-ordering.cc from where the types of the children are reordered.
pub mod Order
pub mod Names
pub mod Places
pub mod Reorder
use rumur.Prelude.{
  ℕ, Bool, true, false, if◌then◌else◌, ◌==◌, not, ◌&&◌, List, [], ◌∷◌, String, str_eq,
}
use rumur.Prelude.Int.{ℤ, pos, ◌+ℤ◌, ltb_ℤ, ◌==ℤ◌}
use rumur.Prelude.Results.{Result, ok, err, duplicate_variable, throw_if, ◌>>=◌, ◌>>◌}
use rumur.Ast.{VarDecl, var, TypeExpr, var_decl}
use rumur.Gmp.{Gmp}
use rumur.TypeExpr.Size.{width}
use rumur.Rule.{Model, Child, expr_child}

abbrev pub name_of : VarDecl → String
name_of (var name _ _ _) = name

abbrev pub type_of : VarDecl → TypeExpr
type_of (var _ t _ _) = t

abbrev pub offset_of : VarDecl → ℤ
offset_of (var _ _ offset _) = offset

abbrev pub place_at : ℤ → VarDecl → VarDecl
place_at offset (var name t _ readonly) = var name t offset readonly

-- the children that are a `VarDecl`, which the loops select by a cast
unfoldable pub vars_of : Model → List VarDecl
vars_of [] = []
vars_of (expr_child (var_decl v) ∷ cs) = v ∷ vars_of cs
vars_of (_ ∷ cs) = vars_of cs

-- `std::unordered_set<std::string>`
unfoldable pub contains : String → List String → Bool
contains name [] = false
contains name (n ∷ names) = if str_eq name n then true else contains name names

unfoldable pub validate_names : List VarDecl → List String → Result (Unit {0})
unfolding contains
validate_names [] names = ok tt
validate_names (v ∷ vs) names = do
  throw_if (contains (name_of v) names) (duplicate_variable (name_of v))
  validate_names vs (name_of v ∷ names)

unfoldable pub validate_model : Model → Result (Unit {0})
unfolding vars_of validate_names
validate_model m = validate_names (vars_of m) []

-- `std::sort` on a vector of variables, which is no code of this repository
abbrev pub Sort : Type 0
Sort = (VarDecl → VarDecl → Result Bool) → List VarDecl → Result (List VarDecl)

-- `std::unordered_map<std::string, mpz_class>`: the entry in front is the last one written.
abbrev pub Offsets : Type 0
Offsets = List (String × ℤ)

-- `offsets[name]`, which is 0 where the map has no entry
unfoldable pub at : String → Offsets → ℤ
at name [] = pos 0
at name ((key, offset) ∷ os) = if str_eq name key then offset else at name os

-- the loop that applies the updated offsets
unfoldable pub move_child : Offsets → Child → Child
unfolding at
move_child os (expr_child (var_decl v)) = expr_child (var_decl (place_at (at (name_of v) os) v))
move_child os c = c

unfoldable pub apply_offsets : Offsets → Model → Model
unfolding move_child
apply_offsets os [] = []
apply_offsets os (c ∷ cs) = move_child os c ∷ apply_offsets os cs

module _ (g : Gmp) where
  unfoldable pub sum_widths : List VarDecl → ℤ → Result ℤ
  sum_widths [] s = ok s
  sum_widths (v ∷ vs) s = do w ← width g (type_of v); sum_widths vs (s +ℤ w)

  unfoldable pub size_bits : Model → Result ℤ
  unfolding vars_of sum_widths
  size_bits m = sum_widths (vars_of m) (pos 0)

  unfoldable pub is_onehot : ℤ → Bool
  is_onehot v = if v ==ℤ pos 0 then false else g.popcount v == 1

  -- `comp` on the two widths
  unfoldable pub precedes : ℤ → ℤ → Bool
  unfolding is_onehot
  precedes width_a width_b =
      if width_a ==ℤ pos 0
      then true
      else if width_b ==ℤ pos 0
      then false
      else if is_onehot width_a && not (is_onehot width_b)
      then true
      else if not (is_onehot width_a) && is_onehot width_b
      then false
      else ltb_ℤ width_b width_a

  unfoldable pub comp : VarDecl → VarDecl → Result Bool
  unfolding precedes
  comp a b = do
    width_a ← width g (type_of a)
    width_b ← width g (type_of b)
    ok (precedes width_a width_b)

  -- the loop that computes the offsets
  unfoldable pub assign_offsets : List VarDecl → ℤ → Offsets → Result Offsets
  assign_offsets [] offset os = ok os
  assign_offsets (v ∷ vs) offset os = do
    w ← width g (type_of v)
    assign_offsets vs (offset +ℤ w) ((name_of v, offset) ∷ os)

  -- `Reorderer::visit_model` after the visit of the children
  unfoldable pub reorder_model : Sort → Model → Result Model
  unfolding vars_of assign_offsets apply_offsets comp
  reorder_model sort m = do
    vars ← sort comp (vars_of m)
    offsets ← assign_offsets vars (pos 0) []
    ok (apply_offsets offsets m)
