-- ===== src/Layout/Names.antt =====
-- `Model::validate`: the names of the state variables are distinct.
use rumur.Prelude.{
  ◌≡◌, ◌≢◌, ◌↔◌, refl, sym, false, Bool-cases, inl, inr, List, [], ◌∷◌, String, str_eq, str_eq_iff,
  All, arith,
}
use rumur.Prelude.Permutations.{Pairwise, All-imp, All-imp₂, All-of}
use rumur.Prelude.Results.{ok}
use rumur.Ast.{VarDecl}
use rumur.Layout.{name_of, contains, validate_names, validate_model, vars_of}
use rumur.Rule.{Model}

abbrev pub Differ : VarDecl → VarDecl → Type 0
Differ a b = name_of a ≢ name_of b

pub differ : (a b : String) → a ≢ b → str_eq a b ≡ false
differ a b h = elim (Bool-cases (str_eq a b)) [
  | inl same ↦ elim (h ((str_eq_iff a b).0 same)) [ ]
  | inr different ↦ different
]

-- None of the variables has one of the names.
abbrev AreNew : List String → List VarDecl → Type 0
AreNew names vs = All (λ v. contains (name_of v) names ≡ false) vs

contains_cons :
    (name key : String) (names : List String)
    → contains name (key ∷ names) ≡ false
    → (name ≢ key) × (contains name names ≡ false)
unfolding contains
contains_cons name key names h = ground (arith, str_eq_iff name key)

contains_new :
    (name key : String) (names : List String)
    → name ≢ key
    → contains name names ≡ false
    → contains name (key ∷ names) ≡ false
unfolding contains
contains_new name key names h k = rw (differ name key h) k

validate_names_sound :
    (vs : List VarDecl) (names : List String)
    → validate_names vs names ≡ ok tt
    → AreNew names vs × Pairwise Differ vs
unfolding validate_names
validate_names_sound [] names h = (tt, tt)
validate_names_sound (v ∷ vs) names h = elim (Bool-cases (contains (name_of v) names)) [
  | inl old ↦ ground arith
  | inr new ↦
      let (news, apart) = validate_names_sound vs (name_of v ∷ names) (ground arith) in
      (
        (new, All-imp (λ u k. (contains_cons (name_of u) (name_of v) names k).1) vs news),
        (
          All-imp (λ u k e. (contains_cons (name_of u) (name_of v) names k).0 (sym e)) vs news,
          apart,
        ),
      )
]

validate_names_complete :
    (vs : List VarDecl) (names : List String)
    → AreNew names vs
    → Pairwise Differ vs
    → validate_names vs names ≡ ok tt
unfolding validate_names
validate_names_complete [] names h p = refl
validate_names_complete (v ∷ vs) names (new, news) (apart, p) = rw new (
    validate_names_complete vs (name_of v ∷ names)
      (All-imp₂ (λ u k apart'. contains_new (name_of u) (name_of v) names (λ e. apart' (sym e)) k)
        vs news apart)
      p)

-- validate of a model throws nothing exactly when no two of its variables have one name.
pub validate_model_iff : (m : Model) → (validate_model m ≡ ok tt) ↔ Pairwise Differ (vars_of m)
unfolding validate_model contains
validate_model_iff m = (
  λ h. (validate_names_sound (vars_of m) [] h).1,
  validate_names_complete (vars_of m) [] (All-of (λ v. refl) (vars_of m)),
)
