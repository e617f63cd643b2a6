-- ===== src/Examples/Values.antt =====
-- The choice of value types.
use rumur.Prelude.{◌≡◌, inl, arith}
use rumur.Prelude.Int.{pos, negsuc, ◌-ℤ◌}
use rumur.Prelude.Results.{ok, err, no_wide_type}
use rumur.ValueType.{ValueType, get_value_type}
use rumur.ValueType.Widest.{Contains, HoldsRange, get_value_type-auto, get_value_type-widest}

get_value_type-auto_example :
    (vt : ValueType) × (raw : ValueType) × (get_value_type "auto" (negsuc 2) (pos 200)
      ≡ ok (vt, raw))
    × Contains (negsuc 2) (pos 200) vt
    × HoldsRange (negsuc 2) (pos 200) raw
unfolding ◌-ℤ◌
get_value_type-auto_example =
    get_value_type-auto (negsuc 2) (pos 200) (omega arith) (omega arith)
      (inl (omega arith, omega arith))

get_value_type-widest_example :
    (get_value_type "int64_t" (pos 0) (pos 9) ≡ err no_wide_type)
    × (get_value_type "uint64_t" (pos 0) (pos 9) ≡ err no_wide_type)
get_value_type-widest_example = get_value_type-widest (pos 0) (pos 9)
