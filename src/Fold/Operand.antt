-- ===== src/Fold/Operand.antt =====
-- What a fold sees of an operand, and the tests that are shared by the classes.
use rumur.Prelude.{Bool, false, if◌then◌else◌, ◌&&◌, not}
use rumur.Prelude.Int.{ℤ, pos, ◌==ℤ◌}
use rumur.Prelude.Results.{Result, ok}

pub record Operand : Type 0 where
  pub constant : Bool
  pub fold : Result ℤ

-- `if (e->constant()) try { if (test(e->constant_fold())) return true; } catch (Error &) {}`
unfoldable pub folds_to : (ℤ → Bool) → Operand → Bool
folds_to test e = e.constant && elim e.fold [ ok v ↦ test v | _ ↦ false ]

abbrev pub is_zero : ℤ → Bool
is_zero v = v ==ℤ pos 0

abbrev pub non_zero : ℤ → Bool
non_zero v = not (is_zero v)

-- a `bool` as an mpz_class
abbrev pub of_bool : Bool → ℤ
of_bool b = if b then pos 1 else pos 0
