-- ===== src/Checker/Place/Variables.antt =====
-- The handles of the state variables, at the offsets that the reordered model gives them.
use rumur.Prelude.{ℕ, ◌+◌, ◌*◌, ◌^◌, ◌≤◌, ◌<◌, ◌≡◌, ap, sym, subst, inl, inr, arith}
use rumur.Prelude.Int.{pos, pos_part}
use rumur.Prelude.Results.{Result, ok, ◌>>=◌}
use rumur.Ast.{VarDecl}
use rumur.Gmp.{Gmp}
use rumur.TypeExpr.Size.{width}
use rumur.Layout.{offset_of, type_of}
use rumur.Layout.Places.{value_or_zero, width_of, LiesWithin, Apart}
use rumur.Checker.Memory.{Memory, IsBytes}
use rumur.Checker.Handle.{Handle, read_raw, write_raw}
use rumur.Checker.Handle.ReadWrite.{Disjoint, read_raw-write_raw-Disjoint}
use rumur.Checker.Value.{Target}
use rumur.Checker.Place.{state_handle}
use rumur.Checker.Place.Laws.{LiesAt, state_handle-LiesAt}

module _ (g : Gmp) where
  -- the call that is generated for a variable whose offset is not negative; the generator throws what
  -- `width` throws
  abbrev pub variable_handle : Target → ℕ → VarDecl → Result Handle
  variable_handle c s_data v = do
    w ← width g (type_of v)
    state_handle c s_data (pos_part (offset_of v)) (pos_part w)

  -- Its width can be told.
  abbrev pub IsMeasured : VarDecl → Type 0
  IsMeasured v = (k : ℕ) × (width g (type_of v) ≡ ok (pos k))

  handle_of :
      (c : Target) (s_data size : ℕ) (v : VarDecl)
      → c.state_size * 8 < 2 ^ 64
      → size ≤ c.state_size * 8
      → IsMeasured v
      → LiesWithin g 0 size (offset_of v) v
      → (h : Handle) × (variable_handle c s_data v ≡ ok h)
        × LiesAt (8 * s_data + pos_part (offset_of v)) (width_of g v) h
  handle_of c s_data size v lt room (w, measured) (k, e, low, high) =
      let offset : pos_part (offset_of v) ≡ k = ap pos_part e in
      let same : width_of g v ≡ w = ap value_or_zero measured in
      let (h, made, lies) =
        state_handle-LiesAt c s_data (pos_part (offset_of v)) w (omega arith) lt in
      (
        h,
        (rw measured made),
        subst (λ n. LiesAt (8 * s_data + pos_part (offset_of v)) n h) (sym same) lies,
      )

  -- Two variables with a width each that lie within the state and apart, as in a reordered model, have
  -- handles, and a write to the one leaves what is read of the other; both have at most 64 bits.
  pub write_variable :
      (c : Target) (s_data size : ℕ) (a b : VarDecl) (m : Memory) (v : ℕ)
      → c.state_size * 8 < 2 ^ 64
      → size ≤ c.state_size * 8
      → IsMeasured a
      → IsMeasured b
      → LiesWithin g 0 size (offset_of a) a
      → LiesWithin g 0 size (offset_of b) b
      → Apart g offset_of a b
      → width_of g a ≤ 64
      → width_of g b ≤ 64
      → IsBytes m
      → v < 2 ^ 64
      → (h : Handle) × (k : Handle) × (variable_handle c s_data a ≡ ok h)
        × (variable_handle c s_data b ≡ ok k)
        × ((write_raw c.has_int128 m h v >>= λ m'. read_raw c.has_int128 m' k)
            ≡ read_raw c.has_int128 m k)
  write_variable c s_data size a b m v lt room known_a known_b in_a in_b apart small_a small_b bytes
        word =
      let (h, at_h, (starts_h, width_h, byte_h)) = handle_of c s_data size a lt room known_a in_a in
      let (k, at_k, (starts_k, width_k, byte_k)) = handle_of c s_data size b lt room known_b in_b in
      let disjoint : Disjoint h k = elim apart [
        | inl l ↦ inl (omega arith)
        | inr r ↦ inr (omega arith)
      ] in
      (
        h,
        k,
        at_h,
        at_k,
        read_raw-write_raw-Disjoint c.has_int128 m h k v bytes (byte_h, omega arith)
            (byte_k, omega arith) disjoint word,
      )
