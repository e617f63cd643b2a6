-- ===== src/Comment/Ends.antt =====
-- `parse_comments` of librumur/src/Comment.cc returns on every input, also where a string or a comment is
-- not closed.
use rumur.Prelude.{
  ℕ, zero, suc, ◌<◌, ◌≤◌, ◌≡◌, refl, Bool, true, false, if◌then◌else◌, ◌||◌, List, [], ◌∷◌, ◌++◌,
  length, arith,
}
use rumur.Prelude.Runs.{Run, done}
use rumur.Comment.{
  Positions, File, Comment, advance, next_is, quote, smart_open, smart_close, escaped_quote,
  escaped_smart, dashes, block_open, block_close, newline, getchar_at, discard, swallow, line_body,
  block_body, parse_from, parse_comments,
}

-- A call that returns one of two results.
branch {ℓ} :
    {A : Type 0} (P : Run A → Type ℓ) (b : Bool) {x y : Run A} → P x → P y → P (if b then x else y)
branch P true h k = h
branch P false h k = k

module _ (p : Positions) where
  open p use {Position, initial}

  discard-le :
      (count : ℕ) (pos : Position) (rest : List ℕ)
      → length (discard p count pos rest).rest ≤ length rest
  unfolding discard
  discard-le zero pos rest = omega arith
  discard-le (suc count) pos [] = omega arith
  discard-le (suc count) pos (c ∷ rest) = omega (arith, discard-le count (advance p pos c) rest)

  discard-lt :
      (count : ℕ) (pos : Position) (c : ℕ) (rest : List ℕ)
      → length (discard p (suc count) pos (c ∷ rest)).rest ≤ length rest
  unfolding discard
  discard-lt count pos c rest = discard-le count (advance p pos c) rest

  -- The file that a loop stops at has at most some bytes left.
  abbrev Stops : ℕ → Run (File p) → Type 0
  Stops most run = (file : File p) × (run ≡ done file) × (length file.rest ≤ most)

  swallow-Stops :
      (rounds : ℕ) (pos : Position) (rest : List ℕ) (most : ℕ)
      → length rest < rounds
      → length rest ≤ most
      → Stops most (swallow p rounds pos rest)
  unfolding swallow getchar_at
  swallow-Stops zero pos rest most few le = absurd (omega arith)
  swallow-Stops (suc rounds) pos [] most few le = (_, refl, omega arith)
  swallow-Stops (suc rounds) pos (c ∷ rest) most few le =
      branch (Stops most) (next_is escaped_quote (c ∷ rest))
        (swallow-Stops rounds _ _ most (omega (arith, discard-lt 1 pos c rest))
          (omega (arith, discard-lt 1 pos c rest)))
        (branch (Stops most) (next_is escaped_smart (c ∷ rest))
          (swallow-Stops rounds _ _ most (omega (arith, discard-lt 3 pos c rest))
            (omega (arith, discard-lt 3 pos c rest)))
          (branch (Stops most) (next_is quote (c ∷ rest))
            (_, refl, omega (arith, discard-lt 0 pos c rest))
            (branch (Stops most) (next_is smart_close (c ∷ rest))
              (_, refl, omega (arith, discard-lt 2 pos c rest))
              (swallow-Stops rounds (advance p pos c) rest most (omega arith) (omega arith)))))

  abbrev Reads : ℕ → Run (List ℕ × File p) → Type 0
  Reads most run =
      (content : List ℕ) × (file : File p) × (run ≡ done (content, file))
      × (length file.rest ≤ most)

  line_body-Reads :
      (rounds : ℕ) (pos : Position) (rest content : List ℕ) (most : ℕ)
      → length rest < rounds
      → length rest ≤ most
      → Reads most (line_body p rounds pos rest content)
  unfolding line_body getchar_at
  line_body-Reads zero pos rest content most few le = absurd (omega arith)
  line_body-Reads (suc rounds) pos [] content most few le = (_, _, refl, omega arith)
  line_body-Reads (suc rounds) pos (c ∷ rest) content most few le =
      branch (Reads most) (next_is newline (c ∷ rest)) (_, _, refl, le)
        (line_body-Reads rounds (advance p pos c) rest (content ++ c ∷ []) most (omega arith)
          (omega arith))

  block_body-Reads :
      (rounds : ℕ) (pos : Position) (rest content : List ℕ) (most : ℕ)
      → length rest < rounds
      → length rest ≤ most
      → Reads most (block_body p rounds pos rest content)
  unfolding block_body getchar_at
  block_body-Reads zero pos rest content most few le = absurd (omega arith)
  block_body-Reads (suc rounds) pos [] content most few le = (_, _, refl, omega arith)
  block_body-Reads (suc rounds) pos (c ∷ rest) content most few le =
      branch (Reads most) (next_is block_close (c ∷ rest))
        (_, _, refl, omega (arith, discard-lt 1 pos c rest))
        (block_body-Reads rounds (advance p pos c) rest (content ++ c ∷ []) most (omega arith)
          (omega arith))

  abbrev Returns : Run (List (Comment p)) → Type 0
  Returns run = (result : List (Comment p)) × (run ≡ done result)

  parse_from-Returns :
      (rounds : ℕ) (pos : Position) (rest : List ℕ) (result : List (Comment p))
      → length rest < rounds
      → Returns (parse_from p rounds pos rest result)
  unfolding parse_from getchar_at
  parse_from-Returns zero pos rest result few = absurd (omega arith)
  parse_from-Returns (suc rounds) pos [] result few = (result, refl)
  parse_from-Returns (suc rounds) pos (c ∷ rest) result few =
      branch Returns (next_is quote (c ∷ rest) || next_is smart_open (c ∷ rest))
        (let opened : File p =
            discard p (if next_is quote (c ∷ rest) then 1 else 3) pos (c ∷ rest) in
          let (file, stopped, le) =
            swallow-Stops (suc rounds) opened.pos opened.rest (length rest) (omega (arith, shorter))
              shorter in
          rw stopped (parse_from-Returns rounds file.pos file.rest result (omega (arith, le))))
        (branch Returns (next_is dashes (c ∷ rest))
          (let (content, file, read, le) =
              line_body-Reads (suc rounds) (discard p 2 pos (c ∷ rest)).pos
                (discard p 2 pos (c ∷ rest)).rest [] (length rest)
                (omega (arith, discard-lt 1 pos c rest)) (discard-lt 1 pos c rest) in
            rw read (parse_from-Returns rounds file.pos file.rest _ (omega (arith, le))))
          (branch Returns (next_is block_open (c ∷ rest))
            (let (content, file, read, le) =
                block_body-Reads (suc rounds) (discard p 2 pos (c ∷ rest)).pos
                  (discard p 2 pos (c ∷ rest)).rest [] (length rest)
                  (omega (arith, discard-lt 1 pos c rest)) (discard-lt 1 pos c rest) in
              rw read (parse_from-Returns rounds file.pos file.rest _ (omega (arith, le))))
            (parse_from-Returns rounds (advance p pos c) rest result (omega arith))))
    where
      shorter_by :
          (b : Bool) → length (discard p (if b then 1 else 3) pos (c ∷ rest)).rest ≤ length rest
      shorter_by true = discard-lt 0 pos c rest
      shorter_by false = discard-lt 2 pos c rest

      shorter :
          length (discard p (if next_is quote (c ∷ rest) then 1 else 3) pos (c ∷ rest)).rest
          ≤ length rest
      shorter = shorter_by (next_is quote (c ∷ rest))

  -- parse_comments returns on every input, within one round more than there are bytes.
  pub parse_comments-Returns :
      (bytes : List ℕ) → (result : List (Comment p)) × (parse_comments p bytes ≡ done result)
  unfolding parse_comments
  parse_comments-Returns bytes =
      parse_from-Returns (suc (length bytes)) initial bytes [] (omega arith)
