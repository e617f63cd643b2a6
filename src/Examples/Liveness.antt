-- ===== src/Examples/Liveness.antt =====
-- A state at 130 that was reached from one at 70, with a successor at 200 of which a property is known.
use native.Mathlib.Omega.{arith}
use rumur.Prelude.{ℕ, ◌+◌, ◌/◌, ◌%◌, ◌<◌, ◌≡◌, ◌≢◌, true, ◌==◌, ◌&&◌, if◌then◌else◌, ap, sym, ◌∙◌}
use rumur.Prelude.Runs.{done}
use rumur.Prelude.Bits.{testbit, testbit-zero}
use rumur.Checker.Liveness.{Words, mark_liveness, learn_liveness, unknown_liveness}
use rumur.Checker.Liveness.Known.{known}
use rumur.Checker.Liveness.Mark.{IsClosed, Ranked, Marks, mark_liveness-Marks}
use rumur.Checker.Liveness.Learn.{Learns, learn_liveness-Learns}

abbrev reached_from : ℕ → ℕ
reached_from t = if t == 130 then 70 else 0

abbrev by_address : ℕ → ℕ
by_address t = t

by_address-Ranked : Ranked reached_from by_address
by_address-Ranked t later = ground arith

-- of three properties, the second is known of the successor
abbrev second_of_successor : Words
second_of_successor t i = if (t == 200) && (i == 0) then 2 else 0

second_of_successor-IsClosed : IsClosed reached_from second_of_successor
second_of_successor-IsClosed t j h later =
    let no_word : second_of_successor t (j / 64) ≡ 0 = ground arith in
    cc (sym h ∙ ap (λ n. testbit n (j % 64)) no_word ∙ testbit-zero (j % 64))

at-ne-zero : ◌≢◌ {A = ℕ} 130 0
at-ne-zero = omega arith

at-lt : ◌<◌ 130 131
at-lt = omega arith

mark_liveness-Marks_example :
    (words' : Words) × (mark_liveness reached_from 3 131 second_of_successor 130 2 ≡ done words')
    × Marks reached_from second_of_successor 130 2 words'
mark_liveness-Marks_example =
    mark_liveness-Marks reached_from 3 2 (omega arith) by_address by_address-Ranked 131
      second_of_successor 130 (omega arith) (omega arith) second_of_successor-IsClosed

learn_liveness-Learns_example :
    (words' : Words) × (new_info : ℕ) × (learn_liveness reached_from 3 131 second_of_successor 130
        200
      ≡ done (words', new_info))
    × (new_info + unknown_liveness 3 words' 130 ≡ unknown_liveness 3 second_of_successor 130)
    × ((j : ℕ) → j < 3 → known second_of_successor 200 j ≡ true → known words' 130 j ≡ true)
    × Learns reached_from 3 by_address by_address-Ranked 131 130 at-ne-zero at-lt 200
        second_of_successor words' 0 new_info
learn_liveness-Learns_example =
    learn_liveness-Learns reached_from 3 by_address by_address-Ranked 131 130 at-ne-zero at-lt 200
      second_of_successor (omega arith) second_of_successor-IsClosed
