-- ===== src/Rule/Names/Decimal.antt =====
-- std::to_string of an unsigned number, which librumur/src/sanitise_rule_names.cc appends to names.
use Prim.Native.Char.{Char, code}
use rumur.Prelude.{
  ℕ, zero, suc, ◌+◌, ◌-◌, ◌*◌, ◌/◌, ◌%◌, ◌<◌, ◌≡◌, ◌≢◌, refl, sym, ap, ◌∙◌, inl, inr, if◌then◌else◌,
  ◌==◌, Bool-cases, String, arith,
}

unfoldable pub digit : ℕ → Char
digit zero = "0"
digit (suc zero) = "1"
digit (suc (suc zero)) = "2"
digit (suc (suc (suc zero))) = "3"
digit (suc (suc (suc (suc zero)))) = "4"
digit (suc (suc (suc (suc (suc zero))))) = "5"
digit (suc (suc (suc (suc (suc (suc zero)))))) = "6"
digit (suc (suc (suc (suc (suc (suc (suc zero))))))) = "7"
digit (suc (suc (suc (suc (suc (suc (suc (suc zero)))))))) = "8"
digit _ = "9"

code-digit : (d : ℕ) → d < 10 → code (digit d) ≡ 48 + d
unfolding digit
code-digit zero small = refl
code-digit (suc zero) small = refl
code-digit (suc (suc zero)) small = refl
code-digit (suc (suc (suc zero))) small = refl
code-digit (suc (suc (suc (suc zero)))) small = refl
code-digit (suc (suc (suc (suc (suc zero))))) small = refl
code-digit (suc (suc (suc (suc (suc (suc zero)))))) small = refl
code-digit (suc (suc (suc (suc (suc (suc (suc zero))))))) small = refl
code-digit (suc (suc (suc (suc (suc (suc (suc (suc zero)))))))) small = refl
code-digit (suc (suc (suc (suc (suc (suc (suc (suc (suc zero))))))))) small = refl
code-digit (suc (suc (suc (suc (suc (suc (suc (suc (suc (suc d)))))))))) small =
    absurd (omega arith)

-- The digits of a number before a text, by rounds.
unfoldable pub digits : ℕ → ℕ → String → String
digits zero n rest = rest
digits (suc rounds) n rest =
    let more = digits rounds (n / 10) (String.◌∷◌ (digit (n % 10)) rest) in
    if n / 10 == 0 then String.◌∷◌ (digit (n % 10)) rest else more

unfoldable pub to_string : ℕ → String
unfolding digits
to_string n = digits (suc n) n String.[]

value : ℕ → String → ℕ
value n String.[] = n
value n (String.◌∷◌ c rest) = value (n * 10 + (code c - 48)) rest

last_digit : (n : ℕ) → code (digit (n % 10)) - 48 ≡ n % 10
last_digit n = omega (arith, code-digit (n % 10) (omega arith))

value-digits :
    (rounds n : ℕ) (rest : String) → n < rounds → value 0 (digits rounds n rest) ≡ value n rest
unfolding digits value
value-digits zero n rest few = absurd (omega arith)
value-digits (suc rounds) n rest few = elim (Bool-cases (n / 10 == 0)) [
  | inl last ↦
      let small : n / 10 ≡ 0 = ground arith in
      rw last (ap (λ k. value k rest) (omega (arith, last_digit n)))
  | inr more ↦
      let large : n / 10 ≢ 0 = (λ e. ground arith) in
      rw more (
        value-digits rounds (n / 10) (String.◌∷◌ (digit (n % 10)) rest) (omega arith)
        ∙ ap (λ k. value k rest) (omega (arith, last_digit n)))
]

-- Two numbers with one text are equal.
pub to_string-injective : (m n : ℕ) → to_string m ≡ to_string n → m ≡ n
unfolding to_string value
to_string-injective m n e =
    sym (value-digits (suc m) m String.[] (omega arith))
    ∙ ap (value 0) e
    ∙ value-digits (suc n) n String.[] (omega arith)

digits-ne-nil :
    (rounds n : ℕ) (c : Char) (rest : String) → digits rounds n (String.◌∷◌ c rest) ≢ String.[]
unfolding digits
digits-ne-nil zero n c rest e = cc
digits-ne-nil (suc rounds) n c rest e = elim (Bool-cases (n / 10 == 0)) [
  | inl last ↦ cc (rw last at e)
  | inr more ↦ digits-ne-nil rounds (n / 10) (digit (n % 10)) (String.◌∷◌ c rest) (rw more at e)
]

pub to_string-ne-nil : (n : ℕ) → to_string n ≢ String.[]
unfolding to_string digits
to_string-ne-nil n e = elim (Bool-cases (n / 10 == 0)) [
  | inl last ↦ cc (rw last at e)
  | inr more ↦ digits-ne-nil n (n / 10) (digit (n % 10)) String.[] (rw more at e)
]
