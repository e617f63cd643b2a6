-- ===== src/ValueType/Widest.antt =====
-- The types chosen hold the model's values.
use rumur.Prelude.{
  ◌≡◌, refl, true, false, List, [], ◌∷◌, String, arith, ◌⊎◌, inl, inr, All, Bool-cases, ◌&&◌,
  str_eq, some,
}
use rumur.Prelude.Int.{ℤ, pos, ◌+ℤ◌, ◌-ℤ◌, ◌≤ℤ◌, ◌<ℤ◌, ltb_ℤ, leb_ℤ, -ℤ_parts, +ℤ_parts}
use rumur.Prelude.Permutations.{All-imp}
use rumur.Prelude.Results.{is_err, ok, err, no_wide_type, no_value_type}
use rumur.ValueType.{
  ValueType, uint64, int64, types, raw_type, first_unsigned, first_containing, get_value_type, find,
  by_expense,
}

-- An unsigned type with values up to `limit`, and a type with the values from `min` to `max`.
abbrev Reaches : ℤ → ValueType → Type 0
Reaches limit vt = (pos 0 ≤ℤ vt.min) × (limit ≤ℤ vt.max)

abbrev pub Contains : ℤ → ℤ → ValueType → Type 0
Contains min max vt = (vt.min ≤ℤ min) × (max ≤ℤ vt.max)

-- The undefined value and one value for each number from `min` to `max`, from 0 on.
abbrev pub HoldsRange : ℤ → ℤ → ValueType → Type 0
HoldsRange min max vt = Reaches (max -ℤ min +ℤ pos 1) vt

le→leb_ℤ : (a b : ℤ) → a ≤ℤ b → leb_ℤ a b ≡ true
le→leb_ℤ a b h = ground arith

first_unsigned-cases :
    (limit : ℤ) (vts : List ValueType)
    → ((vt : ValueType) × (first_unsigned limit vts ≡ ok vt) × Reaches limit vt)
      ⊎ ((first_unsigned limit vts ≡ err no_wide_type) × All (λ w. ¬ Reaches limit w) vts)
unfolding first_unsigned
first_unsigned-cases limit [] = inr (refl, tt)
first_unsigned-cases limit (v ∷ vts) = elim (Bool-cases (ltb_ℤ v.min (pos 0))) [
  | inl signed ↦ elim (first_unsigned-cases limit vts) [
    | inl (vt, e, h) ↦ inl (vt, rw signed e, h)
    | inr (e, none') ↦ inr (rw signed e, (λ h. ground arith, none'))
  ]
  | inr unsigned ↦ elim (Bool-cases (leb_ℤ limit v.max)) [
    | inl wide ↦ inl (v, rw (unsigned, wide) refl, ground arith)
    | inr narrow ↦ elim (first_unsigned-cases limit vts) [
      | inl (vt, e, h) ↦ inl (vt, rw (unsigned, narrow) e, h)
      | inr (e, none') ↦ inr (rw (unsigned, narrow) e, (λ h. ground arith, none'))
    ]
  ]
]

first_containing-cases :
    (min max : ℤ) (vts : List ValueType)
    → ((vt : ValueType) × (first_containing min max vts ≡ ok vt) × Contains min max vt)
      ⊎ ((first_containing min max vts ≡ err no_value_type) × All (λ w. ¬ Contains min max w) vts)
unfolding first_containing
first_containing-cases min max [] = inr (refl, tt)
first_containing-cases min max (v ∷ vts) = elim (Bool-cases (leb_ℤ v.min min && leb_ℤ max v.max)) [
  | inl wide ↦ inl (v, rw wide refl, ground arith)
  | inr narrow ↦ elim (first_containing-cases min max vts) [
    | inl (vt, e, h) ↦ inl (vt, rw narrow e, h)
    | inr (e, none') ↦ inr (rw narrow e, (λ h. ground arith, none'))
  ]
]

raw_type_lem :
    (min max : ℤ)
    → min ≤ℤ max
    → max -ℤ min <ℤ uint64.max
    → (vt : ValueType) × (raw_type min max ≡ ok vt) × HoldsRange min max vt
unfolding raw_type
raw_type_lem min max h lt = elim (first_unsigned-cases (max -ℤ min +ℤ pos 1) by_expense) [
  | inl (vt, e, reach) ↦ (vt, rw (le→leb_ℤ min max h) e, reach)
  | inr (e, narrow) ↦
      elim (narrow.1.1.1.1.1.1.0 (omega arith, grind (arith, +ℤ_parts (max -ℤ min) (pos 1)))) [ ]
]

at_most_uint64 : All (λ w. w.max ≤ℤ uint64.max) by_expense
at_most_uint64 = ground arith

first_unsigned-narrow :
    (limit : ℤ) (vts : List ValueType)
    → All (λ w. w.max <ℤ limit) vts
    → first_unsigned limit vts ≡ err no_wide_type
unfolding first_unsigned
first_unsigned-narrow limit [] h = refl
first_unsigned-narrow limit (v ∷ vts) (narrow, h) =
    let e = first_unsigned-narrow limit vts h in ground arith

raw_type-wide :
    (min max : ℤ) → min ≤ℤ max → uint64.max ≤ℤ max -ℤ min → raw_type min max ≡ err no_wide_type
unfolding raw_type
raw_type-wide min max h le =
    let limit = max -ℤ min +ℤ pos 1 in
    let wide : uint64.max <ℤ limit = grind (arith, +ℤ_parts (max -ℤ min) (pos 1)) in
    let below : (m : ℤ) → m ≤ℤ uint64.max → m <ℤ limit = λ m le'. omega arith in
    rw (le→leb_ℤ min max h) (
      first_unsigned-narrow limit by_expense (All-imp (λ w. below w.max) by_expense at_most_uint64))

-- A type lies within int64_t or within uint64_t.
abbrev Within64 : ValueType → Type 0
Within64 w = Contains w.min w.max int64 ⊎ Contains w.min w.max uint64

types-Within64 : All Within64 by_expense
types-Within64 = ground arith

outside-Within64 :
    (min max : ℤ)
    → ¬ Contains min max int64
    → ¬ Contains min max uint64
    → (w : ValueType) → Within64 w
    → ¬ Contains min max w
outside-Within64 min max not_signed not_unsigned w (inl inside) h =
    not_signed (omega arith, omega arith)
outside-Within64 min max not_signed not_unsigned w (inr inside) h =
    not_unsigned (omega arith, omega arith)

first_containing-outside :
    (min max : ℤ) (vts : List ValueType)
    → All (λ w. ¬ Contains min max w) vts
    → first_containing min max vts ≡ err no_value_type
unfolding first_containing
first_containing-outside min max [] h = refl
first_containing-outside min max (v ∷ vts) (h, hs) =
    let e = first_containing-outside min max vts hs in ground arith

-- With the name `auto`, for bounds min ≤ max that lie within int64_t or within uint64_t and differ by
-- less than UINT64_MAX, get_value_type returns a type that contains both bounds and an unsigned type
-- with at least max - min + 1 values above 0.
pub get_value_type-auto :
    (min max : ℤ)
    → min ≤ℤ max
    → max -ℤ min <ℤ uint64.max
    → Contains min max int64 ⊎ Contains min max uint64
    → (vt : ValueType) × (raw : ValueType) × (get_value_type "auto" min max ≡ ok (vt, raw))
      × Contains min max vt
      × HoldsRange min max raw
unfolding get_value_type
get_value_type-auto min max h lt fits =
    let (raw, r, holds) = raw_type_lem min max h lt in
    elim (first_containing-cases min max by_expense) [
      | inl (vt, e, inside) ↦ (vt, raw, rw (e, r) refl, inside, holds)
      | inr (e, outside) ↦ elim fits [
        | inl inside ↦ elim (outside.1.1.1.1.1.1.1.0 inside) [ ]
        | inr inside ↦ elim (outside.1.1.1.1.1.1.0 inside) [ ]
      ]
    ]

-- With the name `auto`, for bounds min ≤ max that differ by UINT64_MAX or more, or lie neither within
-- int64_t nor within uint64_t, get_value_type throws.
pub get_value_type-throws :
    (min max : ℤ)
    → min ≤ℤ max
    → (uint64.max ≤ℤ max -ℤ min) ⊎ ((¬ Contains min max int64) × (¬ Contains min max uint64))
    → is_err (get_value_type "auto" min max) ≡ true
unfolding get_value_type
get_value_type-throws min max h (inl wide) =
    let e = raw_type-wide min max h wide in
    elim (first_containing-cases min max by_expense) [
      | inl (vt, e', inside) ↦ rw (e', e) refl
      | inr (e', outside) ↦ rw e' refl
    ]
get_value_type-throws min max h (inr (not_signed, not_unsigned)) =
    rw
      (first_containing-outside min max by_expense
        (All-imp (outside-Within64 min max not_signed not_unsigned) by_expense types-Within64))
      refl

-- With the name of a type of the table whose bounds differ by less than UINT64_MAX, get_value_type
-- returns that type and an unsigned type with a value above 0 for each of its values.
pub get_value_type-by_name :
    (min max : ℤ) (name : String) (vt : ValueType)
    → (str_eq name "auto" ≡ false)
    → find name types ≡ some vt
    → vt.max -ℤ vt.min <ℤ uint64.max
    → (vt.min ≤ℤ vt.max)
    → (raw : ValueType) × (get_value_type name min max ≡ ok (vt, raw))
      × HoldsRange vt.min vt.max raw
unfolding get_value_type
get_value_type-by_name min max name vt named found lt le =
    let (raw, r, holds) = raw_type_lem vt.min vt.max le lt in
    (raw, rw (named, found, r) refl, holds)

-- With the name int64_t or uint64_t, get_value_type throws, whatever bounds the model needs.
pub get_value_type-widest :
    (min max : ℤ)
    → (get_value_type "int64_t" min max ≡ err no_wide_type)
      × (get_value_type "uint64_t" min max ≡ err no_wide_type)
unfolding get_value_type
get_value_type-widest min max =
    let s = -ℤ_parts int64.max int64.min in
    let u = -ℤ_parts uint64.max uint64.min in
    (
      rw (raw_type-wide int64.min int64.max (omega arith) (omega arith)) refl,
      rw (raw_type-wide uint64.min uint64.max (omega arith) (omega arith)) refl,
    )
