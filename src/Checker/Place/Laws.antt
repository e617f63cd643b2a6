-- ===== src/Checker/Place/Laws.antt =====
-- Where the handles of `state_handle`, `handle_narrow` and `handle_index` lie.
use native.Mathlib.Nat.{mul-le-mul_left, mul-le-mul_right}
use rumur.Prelude.{
  ℕ, ◌+◌, ◌*◌, ◌/◌, ◌%◌, ◌^◌, ◌≤◌, ◌<◌, ◌≡◌, ◌≢◌, refl, Bool-cases, inl, inr, true, false, leb,
  ◌==◌, ◌||◌, arith, ◌⊎◌,
}
use rumur.Prelude.Int.{ℤ, pos, pos_part, neg_part, ◌-ℤ◌, ◌≤ℤ◌, ltb_ℤ, leb_ℤ, -ℤ_parts, eq_of_parts}
use rumur.Prelude.Results.{ok}
use rumur.Checker.Handle.{Handle}
use rumur.Checker.Handle.Align.{start}
use rumur.Checker.Handle.ReadWrite.{Disjoint}
use rumur.Checker.Value.{Target, bits_left}
use rumur.Checker.Value.Laws.{nonneg}
use rumur.Checker.Place.{state_handle, fits_size, handle_narrow, handle_index}

-- A handle's first bit and width, with the offset in the first byte.
abbrev pub LiesAt : ℕ → ℕ → Handle → Type 0
LiesAt first width h = (start h ≡ first) × (h.width ≡ width) × (h.offset < 8)

in_state :
    (c : Target) (offset width : ℕ)
    → offset + width ≤ c.state_size * 8
    → c.state_size * 8 < 2 ^ 64
    → leb offset (bits_left c width) ≡ true
unfolding bits_left
in_state c offset width le lt = ground arith

narrow_fits : (n : ℕ) → n < 2 ^ 64 → fits_size n ≡ true
unfolding fits_size
narrow_fits n lt = ground arith

pub state_handle-LiesAt :
    (c : Target) (s_data offset width : ℕ)
    → offset + width ≤ c.state_size * 8
    → c.state_size * 8 < 2 ^ 64
    → (h : Handle) × (state_handle c s_data offset width ≡ ok h)
      × LiesAt (8 * s_data + offset) width h
unfolding state_handle
state_handle-LiesAt c s_data offset width le lt =
    let within : leb offset (bits_left c width) ≡ true = in_state c offset width le lt in
    (
      record { base = s_data + offset / 8; offset = offset % 8; width = width },
      rw within refl,
      (omega arith, refl, omega arith),
    )

-- The narrowed handle is the part of the handle that starts at the offset.
pub handle_narrow-LiesAt :
    (h : Handle) (offset width : ℕ)
    → offset + width ≤ h.width
    → h.offset + h.width < 2 ^ 64
    → (g : Handle) × (handle_narrow h offset width ≡ ok g) × LiesAt (start h + offset) width g
unfolding handle_narrow
handle_narrow-LiesAt h offset width le lt =
    let within : leb ((h.offset + offset + width) % 2 ^ 64) ((h.offset + h.width) % 2 ^ 64) ≡ true =
      ground arith in
    let fits : fits_size (h.offset + offset) ≡ true =
      narrow_fits (h.offset + offset) (omega arith) in
    (
      record {
        base = h.base + (h.offset + offset) / 8;
        offset = (h.offset + offset) % 8;
        width = width;
      },
      rw (within, fits) refl,
      (omega arith, refl, omega arith),
    )

-- an index, counted from the least one
abbrev pub position : ℤ → ℤ → ℕ
position index_min index = pos_part (index -ℤ index_min)

-- The handle of an array whose elements have a width above 0.
abbrev pub IsArrayHandle : ℕ → ℤ → ℤ → Handle → Type 0
IsArrayHandle element_width index_min index_max root =
    (0 < element_width)
    × ((position index_min index_max + 1) * element_width ≤ root.width)
    × (root.offset + root.width < 2 ^ 64)

element_fits :
    (k last width all : ℕ)
    → k ≤ last
    → 0 < width
    → (last + 1) * width ≤ all
    → (k * width + width ≤ all) × (k ≤ k * width)
element_fits k last width all le some fits =
    let monotone : (k + 1) * width ≤ (last + 1) * width = mul-le-mul_right width (omega arith) in
    let step : (k + 1) * width ≡ k * width + width = grind arith in
    let least : k * 1 ≤ k * width = mul-le-mul_left k some in (omega arith, omega arith)

position_lem :
    (index_min index_max index : ℤ)
    → index_min ≤ℤ index
    → index ≤ℤ index_max
    → (neg_part (index -ℤ index_min) ≡ 0)
      × (position index_min index ≤ position index_min index_max)
position_lem index_min index_max index le ge =
    let d = -ℤ_parts index index_min in
    let e = -ℤ_parts index_max index_min in
    let p : neg_part (index -ℤ index_min) ≡ 0 = nonneg (index -ℤ index_min) (omega arith) in
    let q : neg_part (index_max -ℤ index_min) ≡ 0 = nonneg (index_max -ℤ index_min) (omega arith) in
    (p, omega arith)

handle_index-LiesAt :
    (element_width : ℕ) (index_min index_max : ℤ) (root : Handle) (index : ℤ)
    → IsArrayHandle element_width index_min index_max root
    → index_min ≤ℤ index
    → index ≤ℤ index_max
    → (g : Handle) × (handle_index element_width index_min index_max root index ≡ ok g)
      × LiesAt (start root + position index_min index * element_width) element_width g
unfolding handle_index
handle_index-LiesAt element_width index_min index_max root index (some, fits, lt) le ge =
    let (p, q) = position_lem index_min index_max index le ge in
    let k = position index_min index in
    let (low, least) =
      element_fits k (position index_min index_max) element_width root.width q some fits in
    let in_range : (ltb_ℤ index index_min || ltb_ℤ index_max index) ≡ false = ground arith in
    let whole : leb_ℤ (pos 0) (index -ℤ index_min) ≡ true = ground arith in
    let size = narrow_fits k (omega arith) in
    let product = narrow_fits (k * element_width) (omega arith) in
    let sum = narrow_fits (root.offset + k * element_width) (omega arith) in
    (
      record {
        base = root.base + (root.offset + k * element_width) / 8;
        offset = (root.offset + k * element_width) % 8;
        width = element_width;
      },
      rw (in_range, whole, size, product, sum) refl,
      (omega arith, refl, omega arith),
    )

positions_differ :
    (index_min index_max i j : ℤ)
    → index_min ≤ℤ i
    → i ≤ℤ index_max
    → index_min ≤ℤ j
    → j ≤ℤ index_max
    → i ≢ j
    → (position index_min i < position index_min j) ⊎ (position index_min j < position index_min i)
positions_differ index_min index_max i j i_ge i_le j_ge j_le differ =
    let (p, _) = position_lem index_min index_max i i_ge i_le in
    let (q, _) = position_lem index_min index_max j j_ge j_le in
    let d = -ℤ_parts i index_min in
    let e = -ℤ_parts j index_min in
    elim (Bool-cases (position index_min i == position index_min j)) [
      | inl same ↦
          let equal : position index_min i ≡ position index_min j = ground arith in
          absurd (differ (eq_of_parts i j (omega arith)))
      | inr other ↦ ground arith
    ]

products_apart : {k l : ℕ} (width : ℕ) → k < l → k * width + width ≤ l * width
products_apart {k = k} {l = l} width lt =
    let monotone : (k + 1) * width ≤ l * width = mul-le-mul_right width (omega arith) in
    let step : (k + 1) * width ≡ k * width + width = grind arith in omega arith

-- The elements of an array that two different indices of its range select: handle_index returns
-- handles as wide as an element, within the array's handle, that have no bit in common.
pub handle_index-Disjoint :
    (element_width : ℕ) (index_min index_max : ℤ) (root : Handle) (i j : ℤ)
    → IsArrayHandle element_width index_min index_max root
    → index_min ≤ℤ i
    → i ≤ℤ index_max
    → index_min ≤ℤ j
    → j ≤ℤ index_max
    → i ≢ j
    → (g h : Handle) × (handle_index element_width index_min index_max root i ≡ ok g)
      × (handle_index element_width index_min index_max root j ≡ ok h)
      × (g.width ≡ element_width)
      × (start root ≤ start g)
      × (start g + g.width ≤ start root + root.width)
      × Disjoint g h
handle_index-Disjoint element_width index_min index_max root i j a i_ge i_le j_ge j_le differ =
    let (g, at_g, (starts_g, width_g, _)) =
      handle_index-LiesAt element_width index_min index_max root i a i_ge i_le in
    let (h, at_h, (starts_h, width_h, _)) =
      handle_index-LiesAt element_width index_min index_max root j a j_ge j_le in
    let (_, q) = position_lem index_min index_max i i_ge i_le in
    let (some, fits, _) = a in
    let (within, _) =
      element_fits (position index_min i) (position index_min index_max) element_width root.width q
        some fits in
    let disjoint : Disjoint g h =
      elim (positions_differ index_min index_max i j i_ge i_le j_ge j_le differ) [
        | inl before ↦ inl (omega (arith, products_apart element_width before))
        | inr after ↦ inr (omega (arith, products_apart element_width after))
      ] in
    (g, h, at_g, at_h, width_g, omega arith, omega arith, disjoint)
