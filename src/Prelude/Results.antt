-- ===== src/Prelude/Results.antt =====
-- Outcomes of a C++ call: a value, a thrown `rumur::Error`, or an abort (a failed assertion or a
-- null dereference, which no handler catches).
use mathlib.Core.Path.{◌≡◌, refl}
use mathlib.Core.Bool.{Bool, true, false}
use Prim.Native.String.{String}
use rumur.Prelude.Int.{ℤ}

-- One constructor for each message; source locations are dropped.
pub data Error : Type 0 where
  division_by_zero mod_by_zero : ℤ → ℤ → Error
  unresolved_ampersand unresolved_pipe : Error
  not_a_constant unresolved_symbol unresolved_expression unresolved_type : String → Error
  field_in_constant element_in_constant call_in_constant quantified_in_constant : Error
  ismember_in_constant isundefined_in_constant : Error
  unresolved_call : String → Error
  procedure_has_no_type not_a_record not_an_array : Error
  no_such_field : String → Error
  no_lower_bound no_upper_bound complex_type non_simple_union : Error
  uncountable infinite_loop : Error
  no_wide_type no_value_type : Error
  unknown_type duplicate_variable previously_declared unknown_symbol : String → Error
  invalid : String → Error

pub data Result {ℓ} (A : Type ℓ) : Type ℓ where
  abort : Result A
  ok : A → Result A
  err : Error → Result A

infixl 5 ◌>>=◌ ◌>>◌
abbrev pub ◌>>=◌ {ℓa ℓb} :
    {A : Type ℓa} {B : Type ℓb} (result : Result A) (rest : A → Result B) → Result B
abort >>= _ = abort
err thrown >>= _ = err thrown
ok value >>= rest = rest value

abbrev pub ◌>>◌ {ℓb} : {B : Type ℓb} (check : Result (Unit {0})) (rest : Result B) → Result B
check >> rest = check >>= λ _. rest

-- `if (bad) throw e;`
abbrev pub throw_if : Bool → Error → Result (Unit {0})
throw_if true e = err e
throw_if false e = ok tt

-- `assert(b)` and `ASSERT(b)`
abbrev pub assert : Bool → Result (Unit {0})
assert true = ok tt
assert false = abort

-- A chain that returned had a first step that returned.
pub >>=-eq-ok {ℓa ℓb} :
    {A : Type ℓa} {B : Type ℓb} (result : Result A) (rest : A → Result B) {final : B}
    → (result >>= rest) ≡ ok final
    → (value : A) × (result ≡ ok value) × (rest value ≡ ok final)
>>=-eq-ok abort rest returned = cc
>>=-eq-ok (err thrown) rest returned = cc
>>=-eq-ok (ok value) rest returned = (value, refl, returned)

abbrev pub is_err {ℓ} : {A : Type ℓ} → Result A → Bool
is_err (err e) = true
is_err _ = false
