-- ===== src/Rule/Names/Symbols.antt =====
-- One name of librumur/src/sanitise_rule_names.cc: of symbols only, and not taken.
use Prim.Native.Char.{code}
use Prim.Native.String.{◌++◌}
use Prim.Native.String as Text
use text.Mathlib.TextLemmas.{nil-append, cons-append}
use rumur.Prelude.{
  ℕ, zero, suc, ◌-◌, ◌/◌, ◌%◌, ◌^◌, ◌<◌, ◌≡◌, refl, sym, subst, inl, inr, true, false, ◌||◌, ltb,
  ◌==◌, Bool-cases, List, ◌∷◌, String, some, length, arith,
}
use rumur.Rule.Names.{
  RuleNamer, contains, next_index, fresh, is_symbol, underscores, replace, unnamed, name_rule,
}
use rumur.Rule.Names.Decimal.{digit, digits, to_string}
use rumur.Rule.Names.Fresh.{fresh_total}

-- Letters, digits and underscores only.
abbrev pub IsName : String → Type 0
IsName Text.[] = Unit {0}
IsName (Text.◌∷◌ c name) = ((is_symbol (code c) || code c == b'_') ≡ true) × IsName name

append-IsName : (s t : String) → IsName s → IsName t → IsName (s ++ t)
append-IsName Text.[] t h k = subst IsName (sym (nil-append t)) k
append-IsName (Text.◌∷◌ c s) t (h, hs) k =
    subst IsName (sym (cons-append c s t)) (h, append-IsName s t hs k)

underscores-IsName : (c : ℕ) → IsName (underscores c)
unfolding underscores is_symbol
underscores-IsName c = elim (Bool-cases (ltb c 0x80)) [
  | inl one ↦ rw one (refl, tt)
  | inr more ↦ rw more (elim (Bool-cases (ltb c 0x800)) [
    | inl two ↦ rw two (refl, (refl, tt))
    | inr more' ↦ rw more' (elim (Bool-cases (ltb c 0x10000)) [
      | inl three ↦ rw three (refl, (refl, (refl, tt)))
      | inr four ↦ rw four (refl, (refl, (refl, (refl, tt))))
    ])
  ])
]

pub replace-IsName : (name : String) → IsName (replace name)
unfolding replace
replace-IsName Text.[] = tt
replace-IsName (Text.◌∷◌ c name) = elim (Bool-cases (is_symbol (code c))) [
  | inl symbol ↦ rw symbol (rw symbol refl, replace-IsName name)
  | inr other ↦ rw other (append-IsName _ _ (underscores-IsName (code c)) (replace-IsName name))
]

digit-is_symbol : (d : ℕ) → (is_symbol (code (digit d)) || code (digit d) == b'_') ≡ true
unfolding digit is_symbol
digit-is_symbol zero = refl
digit-is_symbol (suc zero) = refl
digit-is_symbol (suc (suc zero)) = refl
digit-is_symbol (suc (suc (suc zero))) = refl
digit-is_symbol (suc (suc (suc (suc zero)))) = refl
digit-is_symbol (suc (suc (suc (suc (suc zero))))) = refl
digit-is_symbol (suc (suc (suc (suc (suc (suc zero)))))) = refl
digit-is_symbol (suc (suc (suc (suc (suc (suc (suc zero))))))) = refl
digit-is_symbol (suc (suc (suc (suc (suc (suc (suc (suc zero)))))))) = refl
digit-is_symbol (suc (suc (suc (suc (suc (suc (suc (suc (suc d))))))))) = refl

digits-IsName : (rounds n : ℕ) (rest : String) → IsName rest → IsName (digits rounds n rest)
unfolding digits
digits-IsName zero n rest h = h
digits-IsName (suc rounds) n rest h = elim (Bool-cases (n / 10 == 0)) [
  | inl last ↦ rw last (digit-is_symbol (n % 10), h)
  | inr more ↦
      rw more (
        digits-IsName rounds (n / 10) (Text.◌∷◌ (digit (n % 10)) rest)
          (digit-is_symbol (n % 10), h))
]

to_string-IsName : (n : ℕ) → IsName (to_string n)
unfolding to_string
to_string-IsName n = digits-IsName (suc n) n Text.[] tt

next_index-small : (index : ℕ) → next_index index < 2 ^ 64
unfolding next_index
next_index-small index = omega arith

-- What the loop ends with.
abbrev IsFresh : List String → String → ℕ → Type 0
IsFresh used name index = (contains used name ≡ false) × IsName name × (index < 2 ^ 64)

fresh-IsFresh :
    (used : List String) (replacement : String) (rounds : ℕ) (candidate : String) (index : ℕ)
    {name : String} {index' : ℕ}
    → IsName replacement
    → IsName candidate
    → index < 2 ^ 64
    → fresh used replacement rounds candidate index ≡ some (name, index')
    → IsFresh used name index'
unfolding fresh
fresh-IsFresh used replacement zero candidate index h k small e = cc
fresh-IsFresh used replacement (suc rounds) candidate index {name} {index'} h k small e =
    elim (Bool-cases (contains used candidate)) [
      | inl taken ↦
          fresh-IsFresh used replacement rounds (replacement ++ to_string index) (next_index index)
            h (append-IsName replacement (to_string index) h (to_string-IsName index))
            (next_index-small index) (rw taken at e)
      | inr free ↦
          let same : some (candidate, index) ≡ some (name, index') = rw free at e in
          (
            subst (λ n. contains used n ≡ false) (cc same) free,
            subst IsName (cc same) k,
            subst (λ i. i < 2 ^ 64) (cc same) small,
          )
    ]

unnamed-small :
    (namer : RuleNamer) (prefix name : String)
    → namer.index < 2 ^ 64
    → (unnamed namer prefix name).1 < 2 ^ 64
unnamed-small namer prefix Text.[] small = next_index-small namer.index
unnamed-small namer prefix (Text.◌∷◌ c name) small = small

-- The name of one rule is of symbols, and no rule has it yet.
pub name_rule_lem :
    (namer : RuleNamer) (prefix name : String)
    → namer.index < 2 ^ 64
    → length namer.used < 2 ^ 64 - 1
    → (name' : String) × (index' : ℕ) × (name_rule namer prefix name
        ≡ some (name', record { index = index'; used = name' ∷ namer.used }))
      × IsFresh namer.used name' index'
unfolding name_rule
name_rule_lem namer prefix name small few =
    let (chosen, index) = unnamed namer prefix name in
    let (name', index', found) =
      fresh_total namer.used (replace (unnamed namer prefix name).0) (unnamed namer prefix name).1
        (unnamed-small namer prefix name small) few in
    (
      name',
      index',
      (rw found refl),
      fresh-IsFresh namer.used (replace (unnamed namer prefix name).0) _ _ _
          (replace-IsName (unnamed namer prefix name).0)
          (replace-IsName (unnamed namer prefix name).0) (unnamed-small namer prefix name small)
          found,
    )
