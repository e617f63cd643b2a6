-- ===== src/ValueType.antt =====
-- rumur/src/ValueType.h and ValueType.cc: the choice of the C types that hold a model's values. The
-- bounds that the visitor `BoundsFinder` gathers are an argument.
pub mod Widest
use rumur.Prelude.{
  ◌*◌, ◌-◌, Bool, true, false, if◌then◌else◌, ◌&&◌, List, [], ◌∷◌, String, str_eq, Option, none,
  some,
}
use rumur.Prelude.Int.{ℤ, pos, negsuc, ◌+ℤ◌, ◌-ℤ◌, ltb_ℤ, leb_ℤ}
use rumur.Prelude.Results.{Result, ok, err, abort, no_wide_type, no_value_type, unknown_type, ◌>>=◌}

pub record ValueType : Type 0 where
  pub c_type : String
  pub int_min : String
  pub int_max : String
  pub int_c : String
  pub pri : String
  pub min : ℤ
  pub max : ℤ

abbrev pub int8 : ValueType
int8 = record {
  c_type = "int_fast8_t";
  int_min = "INT_FAST8_MIN";
  int_max = "INT_FAST8_MAX";
  int_c = "INT8_C";
  pri = "PRIdFAST8";
  min = negsuc 127;
  max = pos 127;
}

abbrev pub uint8 : ValueType
uint8 = record {
  c_type = "uint_fast8_t";
  int_min = "((uint_fast8_t)0)";
  int_max = "UINT_FAST8_MAX";
  int_c = "UINT8_C";
  pri = "PRIuFAST8";
  min = pos 0;
  max = pos 255;
}

abbrev pub int16 : ValueType
int16 = record {
  c_type = "int_fast16_t";
  int_min = "INT_FAST16_MIN";
  int_max = "INT_FAST16_MAX";
  int_c = "INT16_C";
  pri = "PRIdFAST16";
  min = negsuc 32767;
  max = pos 32767;
}

abbrev pub uint16 : ValueType
uint16 = record {
  c_type = "uint_fast16_t";
  int_min = "((uint_fast16_t)0)";
  int_max = "UINT_FAST16_MAX";
  int_c = "UINT16_C";
  pri = "PRIuFAST16";
  min = pos 0;
  max = pos 65535;
}

abbrev pub int32 : ValueType
int32 = record {
  c_type = "int_fast32_t";
  int_min = "INT_FAST32_MIN";
  int_max = "INT_FAST32_MAX";
  int_c = "INT32_C";
  pri = "PRIdFAST32";
  min = negsuc 2147483647;
  max = pos 2147483647;
}

abbrev pub uint32 : ValueType
uint32 = record {
  c_type = "uint_fast32_t";
  int_min = "((uint_fast32_t)0)";
  int_max = "UINT_FAST32_MAX";
  int_c = "UINT32_C";
  pri = "PRIuFAST32";
  min = pos 0;
  max = pos 4294967295;
}

abbrev pub int64 : ValueType
int64 = record {
  c_type = "int_fast64_t";
  int_min = "INT_FAST64_MIN";
  int_max = "INT_FAST64_MAX";
  int_c = "INT64_C";
  pri = "PRIdFAST64";
  min = negsuc 9223372036854775807;
  max = pos 9223372036854775807;
}

abbrev pub uint64 : ValueType
uint64 = record {
  c_type = "uint_fast64_t";
  int_min = "((uint_fast64_t)0)";
  int_max = "UINT_FAST64_MAX";
  int_c = "UINT64_C";
  pri = "PRIuFAST64";
  min = pos 0;
  max = pos 18446744073709551615;
}

abbrev pub types : List (String × ValueType)
types =
    ("int8_t", int8)
    ∷ ("uint8_t", uint8)
    ∷ ("int16_t", int16)
    ∷ ("uint16_t", uint16)
    ∷ ("int32_t", int32)
    ∷ ("uint32_t", uint32)
    ∷ ("int64_t", int64)
    ∷ ("uint64_t", uint64)
    ∷ []

-- `types.find(name)`
unfoldable pub find : String → List (String × ValueType) → Option ValueType
find name [] = none
find name ((key, vt) ∷ ts) = if str_eq key name then some vt else find name ts

-- `TYPES`, the types by their expense, with what `types.at` gives for each name
abbrev pub by_expense : List ValueType
by_expense = uint8 ∷ int8 ∷ uint16 ∷ int16 ∷ uint32 ∷ int32 ∷ uint64 ∷ int64 ∷ []

-- the loop of `raw_type`
unfoldable pub first_unsigned : ℤ → List ValueType → Result ValueType
first_unsigned limit [] = err no_wide_type
first_unsigned limit (vt ∷ vts) =
    if ltb_ℤ vt.min (pos 0)
    then first_unsigned limit vts
    else if leb_ℤ limit vt.max
    then ok vt
    else first_unsigned limit vts

unfoldable pub raw_type : ℤ → ℤ → Result ValueType
unfolding first_unsigned
raw_type min max = if leb_ℤ min max then first_unsigned (max -ℤ min +ℤ pos 1) by_expense else abort

-- the loop of `get_value_type` over the bounds that the model needs
unfoldable pub first_containing : ℤ → ℤ → List ValueType → Result ValueType
first_containing min max [] = err no_value_type
first_containing min max (vt ∷ vts) =
    if leb_ℤ vt.min min && leb_ℤ max vt.max then ok vt else first_containing min max vts

unfoldable pub get_value_type : String → ℤ → ℤ → Result (ValueType × ValueType)
unfolding first_containing raw_type find
get_value_type name min max =
    if str_eq name "auto"
    then (do vt ← first_containing min max by_expense; raw ← raw_type min max; ok (vt, raw))
    else elim (find name types) [
      | none ↦ err (unknown_type name)
      | some vt ↦ (do raw ← raw_type vt.min vt.max; ok (vt, raw))
    ]
