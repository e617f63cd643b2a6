-- ===== src/Prelude/Runs.antt =====
-- A call that may also not have ended when its fuel is used up (`ok none`).
use mathlib.Core.Bool.{Bool, true, false}
use mathlib.Core.Option.{Option, none, some}
use rumur.Prelude.Results.{Result, ok, err, abort}

abbrev pub Run : Type 0 → Type 0
Run A = Result (Option A)

abbrev pub done : {A : Type 0} → A → Run A
done a = ok (some a)

infixl 5 ◌>>=◌ ◌>>◌
abbrev pub ◌>>=◌ : {A B : Type 0} → Run A → (A → Run B) → Run B
abort >>= _ = abort
err thrown >>= _ = err thrown
ok none >>= _ = ok none
ok (some value) >>= rest = rest value

abbrev pub ◌>>◌ : {B : Type 0} → Run (Unit {0}) → Run B → Run B
check >> rest = check >>= λ _. rest

-- `assert(b)`, or an operation that traps
abbrev pub require : Bool → Run (Unit {0})
require true = done tt
require false = abort

abbrev pub lift : {A : Type 0} → Result A → Run A
lift (ok a) = done a
lift (err e) = err e
lift abort = abort
