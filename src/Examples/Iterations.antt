-- ===== src/Examples/Iterations.antt =====
-- Quantifiers, rulesets and models.
use rumur.Prelude.{ℕ, ◌≡◌, refl, true, [], ◌∷◌, some, none, arith}
use rumur.Prelude.Int.{pos, negsuc, ◌+ℤ◌, ◌<ℤ◌}
use rumur.Prelude.Results.{ok, abort}
use rumur.Prelude.Runs.{done}
use rumur.Ast.{ptr_expr, number, range, VarDecl, var, Quantifier, liveness, cover}
use rumur.Fold.Dispatch.{constant}
use rumur.Quantifier.{validate_quantifier, quantifier_constant, quantifier_count}
use rumur.Quantifier.Loop.{Visits}
use rumur.Quantifier.Count.{
  Iterates, quantified, quantifier_count-validated, quantifier_count-diverges,
}
use rumur.Rule.{Rule, rule, property_rule, alias_rule, rule_set, nil_rules, cons_rules, rule_child}
use rumur.Rule.Flatten.{flatten, expand, flatten-expand}
use rumur.Rule.Liveness.{liveness_count, visit_rules, visit_rule}
use rumur.Rule.Liveness.Sum.{total}
use rumur.Rule.Liveness.Count.{
  flatten_model, state, Counts, HasCounts, liveness_count-total, liveness_count-empty,
}
use rumur.Examples.Gmp.{gmp, gmp-IsGmp}

abbrev counter : VarDecl
counter = var "i" (range (number (negsuc 9)) (number (pos 9))) (negsuc 0) true

-- from 1 to 8 by 3
by_three :
    Iterates gmp
      (number (pos 1))
      (number (pos 8))
      (ptr_expr (number (pos 3)))
      (pos 1)
      (pos 8)
      (pos 3)
unfolding constant
by_three = record {
  from_known = refl;
  to_known = refl;
  step_known = refl;
  from_folds = refl;
  to_folds = refl;
  step_folds = refl;
}

abbrev threes : Quantifier
threes = quantified "i" (number (pos 1)) (number (pos 8)) (ptr_expr (number (pos 3))) counter

threes_valid : validate_quantifier gmp threes ≡ ok tt
unfolding validate_quantifier constant
threes_valid = refl

enough_fuel : pos 8 +ℤ pos 1 <ℤ pos 1 +ℤ pos 20
unfolding ◌+ℤ◌
enough_fuel = omega arith

quantifier_count-validated_example :
    (by : ℕ) × (n : ℕ) × (pos 3 ≡ pos by)
    × (quantifier_count gmp 20 threes ≡ ok (some (pos n)))
    × Visits n (pos 1) (pos 8) by
quantifier_count-validated_example =
    quantifier_count-validated gmp "i" (number (pos 1)) (number (pos 8)) 20
      (ptr_expr (number (pos 3))) counter (pos 1) (pos 8) (pos 3) by_three threes_valid
      (omega arith) enough_fuel

-- from 5 to 5 by -1
stuck :
    Iterates gmp
      (number (pos 5))
      (number (pos 5))
      (ptr_expr (number (negsuc 0)))
      (pos 5)
      (pos 5)
      (negsuc 0)
unfolding constant
stuck = record {
  from_known = refl;
  to_known = refl;
  step_known = refl;
  from_folds = refl;
  to_folds = refl;
  step_folds = refl;
}

abbrev stuck_quantifier : Quantifier
stuck_quantifier =
    quantified "i" (number (pos 5)) (number (pos 5)) (ptr_expr (number (negsuc 0))) counter

quantifier_count-diverges_example :
    (validate_quantifier gmp stuck_quantifier ≡ ok tt)
    × (quantifier_count gmp 1000 stuck_quantifier ≡ ok none)
quantifier_count-diverges_example =
    quantifier_count-diverges gmp "i" (number (pos 5)) (number (pos 5)) 1000
      (ptr_expr (number (negsuc 0))) counter (pos 5) (negsuc 0) stuck (omega arith)

-- from 5 to 1 by -1
downward :
    Iterates gmp
      (number (pos 5))
      (number (pos 1))
      (ptr_expr (number (negsuc 0)))
      (pos 5)
      (pos 1)
      (negsuc 0)
unfolding constant
downward = record {
  from_known = refl;
  to_known = refl;
  step_known = refl;
  from_folds = refl;
  to_folds = refl;
  step_folds = refl;
}

abbrev downward_quantifier : Quantifier
downward_quantifier =
    quantified "i" (number (pos 5)) (number (pos 1)) (ptr_expr (number (negsuc 0))) counter

abbrev live : Rule
live = rule "live" [] [] (property_rule liveness (number (pos 1)))

-- a liveness property in two nested rulesets and an alias rule, beside a cover property
abbrev nest : Rule
nest = rule "" (threes ∷ []) [] (
    rule_set (
      cons_rules
        (rule "" [] (("a", number (pos 1)) ∷ []) (
          alias_rule (
            cons_rules (rule "" (threes ∷ []) [] (rule_set (cons_rules live nil_rules)))
              nil_rules)))
        (cons_rules (rule "seen" [] [] (property_rule cover (number (pos 1)))) nil_rules)))

flatten-expand_example : flatten nest ≡ expand [] [] nest
flatten-expand_example = flatten-expand nest

threes-Counts : Counts gmp 20 (λ _. 3) threes
unfolding quantifier_constant quantifier_count constant ◌+ℤ◌
threes-Counts = (refl, refl, omega arith)

nest-HasCounts : HasCounts gmp 20 (λ _. 3) nest
unfolding HasCounts
nest-HasCounts = ((threes-Counts, tt), ((((threes-Counts, tt), (refl, tt)), tt), (refl, tt)))

liveness_count-total_example :
    liveness_count gmp 20 (rule_child nest ∷ [])
    ≡ done (pos (total (λ _. 3) (flatten_model (rule_child nest ∷ []))))
liveness_count-total_example =
    liveness_count-total gmp 20 (λ _. 3) gmp-IsGmp (rule_child nest ∷ []) (nest-HasCounts, tt)

downward_constant : quantifier_constant gmp downward_quantifier ≡ ok true
unfolding quantifier_constant constant
downward_constant = refl

downward_count : quantifier_count gmp 20 downward_quantifier ≡ ok (some (pos 0))
unfolding quantifier_count constant
downward_count = refl

live_returns : visit_rules gmp 20 (cons_rules live nil_rules) (state 0 0) ≡ done (state 0 0)
unfolding visit_rule ◌+ℤ◌
live_returns = refl

liveness_count-empty_example :
    liveness_count gmp 20 (
      rule_child (rule "" (downward_quantifier ∷ []) [] (rule_set (cons_rules live nil_rules)))
      ∷ [])
    ≡ abort
liveness_count-empty_example =
    liveness_count-empty gmp 20 "" downward_quantifier [] (cons_rules live nil_rules) [] (state 0 0)
      downward_constant downward_count live_returns
