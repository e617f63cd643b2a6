-- ===== src/Checker/Faults.antt =====
-- The errors that the checker reports, by their messages. The names of rules and variables are left out.
use rumur.Prelude.Results.{Error, invalid}

abbrev pub wide_read : Error
wide_read = invalid "read of a handle that is wider than the value type"

abbrev pub wide_write : Error
wide_write = invalid "write of a handle that is wider than the value type"

abbrev pub undefined_read : Error
undefined_read = invalid "read of undefined value"

abbrev pub out_of_range_write : Error
out_of_range_write = invalid "write of out-of-range value"

abbrev pub index_out_of_range : Error
index_out_of_range = invalid "index out of range"

abbrev pub index_overflow : Error
index_overflow = invalid "overflow when indexing array"

abbrev pub overflow_in_addition : Error
overflow_in_addition = invalid "integer overflow in addition"

abbrev pub overflow_in_subtraction : Error
overflow_in_subtraction = invalid "integer overflow in subtraction"

abbrev pub overflow_in_multiplication : Error
overflow_in_multiplication = invalid "integer overflow in multiplication"

abbrev pub divisor_of_zero : Error
divisor_of_zero = invalid "division by zero"

abbrev pub overflow_in_division : Error
overflow_in_division = invalid "integer overflow in division"

abbrev pub modulus_of_zero : Error
modulus_of_zero = invalid "modulus by zero"

abbrev pub overflow_in_negation : Error
overflow_in_negation = invalid "integer overflow in negation"
