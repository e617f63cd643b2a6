-- ===== src/Checker/Liveness.antt =====
-- What rumur/resources/header.c knows of liveness properties: a bit for each state and property, set where
-- the property holds in a state that the state leads to. One thread is modelled, so the atomic OR of
-- `mark_liveness` and the ordinary one are the same. A state is its address, and a word has 64 bits.
pub mod Known
pub mod Mark
pub mod Unknown
pub mod Learn
use Prim.Native.Nat.{bit_and, bit_or}
use rumur.Prelude.{
  ℕ, zero, suc, ◌+◌, ◌*◌, ◌/◌, ◌%◌, ◌^◌, Bool, not, if◌then◌else◌, ltb, leb, ◌==◌, ◌&&◌, some, none,
}
use rumur.Prelude.Results.{ok}
use rumur.Prelude.Runs.{Run, done, require, ◌>>=◌, ◌>>◌}

-- `s->liveness[i]`
abbrev pub Words : Type 0
Words = ℕ → ℕ → ℕ

-- the number of words of `liveness`
unfoldable pub words_for : ℕ → ℕ
words_for liveness_count =
    liveness_count / 8 / 8
    + (if (liveness_count % 8 == 0) && (liveness_count / 8 % 8 == 0) then 0 else 1)

abbrev pub set_word : Words → ℕ → ℕ → ℕ → Words
set_word words s i word t k = if (t == s) && (k == i) then word else words t k

-- `(word >> j) & 0x1`
unfoldable pub bit_of : ℕ → ℕ → Bool
bit_of word j = bit_and (word / 2 ^ j) 1 == 1

module _ (liveness_count : ℕ) where
  -- the loop over the bits of a word, with the rounds that are left
  unfoldable pub unknown_bits : ℕ → ℕ → ℕ → ℕ → ℕ → ℕ
  unknown_bits i word j zero unknown = unknown
  unknown_bits i word j (suc rounds) unknown =
      if leb liveness_count (i * 64 + j)
      then unknown
      else unknown_bits i word (j + 1) rounds (if not (bit_of word j) then unknown + 1 else unknown)

  unfoldable pub unknown_words : Words → ℕ → ℕ → ℕ → ℕ → ℕ
  unknown_words words s i zero unknown = unknown
  unknown_words words s i (suc rounds) unknown =
      unknown_words words s (i + 1) rounds (unknown_bits i (words s i) 0 64 unknown)

  unfoldable pub unknown_liveness : Words → ℕ → ℕ
  unknown_liveness words s = unknown_words words s 0 (words_for liveness_count) 0

module _ (previous : ℕ → ℕ) (liveness_count : ℕ) where
  -- with the number of calls that are left
  unfoldable pub mark_liveness : ℕ → Words → ℕ → ℕ → Run Words
  mark_liveness zero words s index = ok none
  mark_liveness (suc calls) words s index =
      let word_index = index / 64 in
      let bit_index = index % 64 in
      let mask = 2 ^ bit_index in
      let previous_value = words s word_index in
      let words' = set_word words s word_index (bit_or previous_value mask) in
      let rest = mark_liveness calls words' (previous s) index in
      require (not (s == 0))
      >> (require (ltb index (words_for liveness_count * 64))
          >> (if not (bit_and previous_value mask == mask) && not (previous s == 0)
              then rest
              else done words'))

  -- the bits of one word, as they were before the loop over them; `calls` is for `mark_liveness`
  unfoldable pub learn_bits : ℕ → ℕ → ℕ → ℕ → ℕ → ℕ → ℕ → Words → ℕ → Run (Words × ℕ)
  learn_bits calls s i word_src word_dst j zero words new_info = done (words, new_info)
  learn_bits calls s i word_src word_dst j (suc rounds) words new_info =
      let next = learn_bits calls s i word_src word_dst (j + 1) rounds in
      if leb liveness_count (i * 64 + j)
      then done (words, new_info)
      else if not (bit_of word_dst j) && bit_of word_src j
      then (do words' ← mark_liveness calls words s (i * 64 + j); next words' (new_info + 1))
      else next words new_info

  unfoldable pub learn_words : ℕ → ℕ → ℕ → ℕ → ℕ → Words → ℕ → Run (Words × ℕ)
  learn_words calls s successor i zero words new_info = done (words, new_info)
  learn_words calls s successor i (suc rounds) words new_info = do
    (words', new_info') ← learn_bits calls s i (words successor i) (words s i) 0 64 words new_info
    learn_words calls s successor (i + 1) rounds words' new_info'

  unfoldable pub learn_liveness : ℕ → Words → ℕ → ℕ → Run (Words × ℕ)
  learn_liveness calls words s successor =
      require (not (s == 0))
      >> (require (not (successor == 0))
          >> learn_words calls s successor 0 (words_for liveness_count) words 0)
