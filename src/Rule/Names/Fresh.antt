-- ===== src/Rule/Names/Fresh.antt =====
-- The loop of librumur/src/sanitise_rule_names.cc ends: it tries names that differ, and few are taken.
use Prim.Native.String.{◌++◌}
use Prim.Native.String as Text
use text.Mathlib.TextLemmas.{append_cancel_left, append-nil}
use rumur.Prelude.{
  ℕ, zero, suc, ◌+◌, ◌-◌, ◌%◌, ◌^◌, ◌≤◌, ◌<◌, ◌≡◌, ◌≢◌, refl, sym, subst, ◌∙◌, inl, inr, true,
  if◌then◌else◌, Bool-cases, List, [], ◌∷◌, String, str_eq, str_eq_iff, some, length, arith,
}
use rumur.Rule.Names.{contains, next_index, fresh}
use rumur.Rule.Names.Decimal.{to_string, to_string-injective, to_string-ne-nil}

erase : String → List String → List String
erase name [] = []
erase name (taken ∷ used) = if str_eq taken name then erase name used else taken ∷ erase name used

length-erase_le : (name : String) (used : List String) → length (erase name used) ≤ length used
unfolding erase
length-erase_le name [] = omega arith
length-erase_le name (taken ∷ used) = ground (arith, length-erase_le name used)

length-erase :
    (name : String) (used : List String)
    → contains used name ≡ true
    → length (erase name used) < length used
unfolding erase contains
length-erase name [] h = cc
length-erase name (taken ∷ used) h =
    ground (arith, length-erase_le name used, length-erase name used)

contains-erase :
    (name other : String) (used : List String)
    → name ≢ other
    → contains (erase name used) other ≡ contains used other
unfolding erase contains
contains-erase name other [] h = refl
contains-erase name other (taken ∷ used) h =
    ground (arith, contains-erase name other used, str_eq_iff taken name, str_eq_iff taken other)

-- The index after a number of rounds.
index_after : ℕ → ℕ → ℕ
index_after index zero = index
index_after index (suc rounds) = index_after (next_index index) rounds

index_after_lem :
    (index rounds : ℕ) → index < 2 ^ 64 → index_after index rounds ≡ (index + rounds) % 2 ^ 64
unfolding index_after next_index
index_after_lem index zero small = omega arith
index_after_lem index (suc rounds) small =
    index_after_lem ((index + 1) % 2 ^ 64) rounds (omega arith) ∙ omega arith

module _ (used : List String) (replacement : String) where
  -- the name that is tried after a number of rounds
  try : String → ℕ → ℕ → String
  try candidate index zero = candidate
  try candidate index (suc rounds) = replacement ++ to_string (index_after index rounds)

  try-suc :
      (candidate : String) (index i : ℕ)
      → try candidate index (suc i) ≡ try (replacement ++ to_string index) (next_index index) i
  unfolding try index_after
  try-suc candidate index zero = refl
  try-suc candidate index (suc i) = refl

  -- Enough rounds for every name that is taken end the loop, if the names that it tries differ.
  fresh_returns :
      (left : List String) (rounds : ℕ) (candidate : String) (index : ℕ)
      → ((i j : ℕ) → i < j → j < rounds → try candidate index i ≢ try candidate index j)
      → ((i : ℕ)
          → i < rounds
          → contains used (try candidate index i) ≡ true
          → contains left (try candidate index i) ≡ true)
      → length left < rounds
      → (name : String) × (index' : ℕ) × (fresh used replacement rounds candidate index
          ≡ some (name, index'))
  unfolding fresh try
  fresh_returns left zero candidate index differ among few = absurd (omega arith)
  fresh_returns left (suc rounds) candidate index differ among few =
      elim (Bool-cases (contains used candidate)) [
        | inl taken ↦ rw taken (
            fresh_returns (erase candidate left) rounds (replacement ++ to_string index)
              (next_index index)
              (λ i j before inside e.
                differ (suc i) (suc j) (omega arith) (omega arith)
                  (try-suc candidate index i ∙ e ∙ sym (try-suc candidate index j)))
              (λ i inside held.
                contains-erase candidate _ left (λ e.
                  differ 0 (suc i) (omega arith) (omega arith)
                    (e ∙ sym (try-suc candidate index i)))
                ∙ subst (λ name. contains left name ≡ true) (try-suc candidate index i)
                    (among (suc i) (omega arith) (
                      subst (λ name. contains used name ≡ true) (sym (try-suc candidate index i))
                        held)))
              (omega (arith, length-erase candidate left (among 0 (omega arith) taken))))
        | inr free ↦ (candidate, index, (rw free refl))
      ]

  tries-differ :
      (index : ℕ)
      → index < 2 ^ 64
      → (i j : ℕ) → i < j
      → j < 2 ^ 64
      → try replacement index i ≢ try replacement index j
  unfolding try
  tries-differ index small i zero before few e = absurd (omega arith)
  tries-differ index small zero (suc j) before few e = to_string-ne-nil (index_after index j) (
      sym (
        append_cancel_left replacement Text.[] (to_string (index_after index j))
          (append-nil replacement ∙ e)))
  tries-differ index small (suc i) (suc j) before few e = absurd (
      omega (
        arith,
        index_after_lem index i small,
        index_after_lem index j small,
        to_string-injective (index_after index i) (index_after index j)
            (append_cancel_left replacement _ _ e),
      ))

  -- The loop of a name ends within one round more than names are taken.
  pub fresh_total :
      (index : ℕ)
      → index < 2 ^ 64
      → length used < 2 ^ 64 - 1
      → (name : String) × (index' : ℕ) × (fresh used replacement
            (suc (length used))
            replacement
            index
          ≡ some (name, index'))
  fresh_total index small few =
      fresh_returns used (suc (length used)) replacement index
        (λ i j before inside. tries-differ index small i j before (omega arith))
        (λ i inside held. held) (omega arith)
