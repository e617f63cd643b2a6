-- ===== src/Comment.antt =====
-- `parse_comments` (librumur/src/Comment.cc) on the bytes of a file. The lookahead that `File` buffers and
-- what its stream has not delivered yet are one list here. `position` is generated, and a parameter.
pub mod Segments
pub mod Read
pub mod Ends
use rumur.Prelude.{
  ℕ, zero, suc, Bool, true, false, if◌then◌else◌, ◌==◌, ◌&&◌, ◌||◌, List, [], ◌∷◌, ◌++◌, length,
  some, none,
}
use rumur.Prelude.Results.{Result, ok, abort}
use rumur.Prelude.Runs.{Run, done, lift, ◌>>=◌}

-- `position`: the start of a file, the next line and the next column
pub record Positions : Type 1 where
  pub Position : Type 0
  pub initial : Position
  pub lines : Position → Position
  pub columns : Position → Position

abbrev pub take : ℕ → List ℕ → List ℕ
take zero bytes = []
take (suc n) [] = []
take (suc n) (c ∷ bytes) = c ∷ take n bytes

abbrev pub same_bytes : List ℕ → List ℕ → Bool
same_bytes [] [] = true
same_bytes (c ∷ bytes) (d ∷ others) = (c == d) && same_bytes bytes others
same_bytes [] (d ∷ others) = false
same_bytes (c ∷ bytes) [] = false

abbrev pub quote : List ℕ
quote = 0x22 ∷ []

abbrev pub smart_open : List ℕ
smart_open = 0xe2 ∷ 0x80 ∷ 0x9c ∷ []

abbrev pub smart_close : List ℕ
smart_close = 0xe2 ∷ 0x80 ∷ 0x9d ∷ []

abbrev pub escaped_quote : List ℕ
escaped_quote = 0x5c ∷ 0x22 ∷ []

abbrev pub escaped_smart : List ℕ
escaped_smart = 0x5c ∷ 0xe2 ∷ 0x80 ∷ 0x9d ∷ []

abbrev pub dashes : List ℕ
dashes = b'-' ∷ b'-' ∷ []

abbrev pub block_open : List ℕ
block_open = b'/' ∷ b'*' ∷ []

abbrev pub block_close : List ℕ
block_close = b'*' ∷ b'/' ∷ []

abbrev pub newline : List ℕ
newline = 0x0a ∷ []

-- `peek(expectation.size()) == expectation`
unfoldable pub next_is : List ℕ → List ℕ → Bool
next_is expectation rest = same_bytes (take (length expectation) rest) expectation

module _ (p : Positions) where
  open p use {Position, initial, lines, columns}

  pub record File : Type 0 where
    pub pos : Position
    pub rest : List ℕ

  pub record Comment : Type 0 where
    pub content : List ℕ
    pub multiline : Bool
    pub begin : Position
    pub end : Position

  unfoldable pub advance : Position → ℕ → Position
  advance pos c = if c == 0x0a then lines pos else columns pos

  unfoldable pub getchar_at : Position → List ℕ → Result (ℕ × File)
  getchar_at pos [] = abort
  getchar_at pos (c ∷ rest) = ok (c, record { pos = advance pos c; rest = rest })

  -- `read`, with its result dropped as all its callers do
  unfoldable pub discard : ℕ → Position → List ℕ → File
  discard zero pos rest = record { pos = pos; rest = rest }
  discard (suc count) pos [] = record { pos = pos; rest = [] }
  discard (suc count) pos (c ∷ rest) = discard count (advance pos c) rest

  -- the loop over the inside of a string, with the rounds that are left
  unfoldable pub swallow : ℕ → Position → List ℕ → Run File
  swallow zero pos rest = ok none
  swallow (suc rounds) pos [] = done (record { pos = pos; rest = [] })
  swallow (suc rounds) pos (c ∷ rest) =
      let after_quote = discard 2 pos (c ∷ rest) in
      let after_smart = discard 4 pos (c ∷ rest) in
      let past_quote = swallow rounds after_quote.pos after_quote.rest in
      let past_smart = swallow rounds after_smart.pos after_smart.rest in
      let past_char =
        lift (getchar_at pos (c ∷ rest)) >>= λ (_, file). swallow rounds file.pos file.rest in
      if next_is escaped_quote (c ∷ rest)
      then past_quote
      else if next_is escaped_smart (c ∷ rest)
      then past_smart
      else if next_is quote (c ∷ rest)
      then done (discard 1 pos (c ∷ rest))
      else if next_is smart_close (c ∷ rest)
      then done (discard 3 pos (c ∷ rest))
      else past_char

  -- the loop of a comment from -- on
  unfoldable pub line_body : ℕ → Position → List ℕ → List ℕ → Run (List ℕ × File)
  line_body zero pos rest content = ok none
  line_body (suc rounds) pos [] content = done (content, record { pos = pos; rest = [] })
  line_body (suc rounds) pos (c ∷ rest) content =
      let more = lift (getchar_at pos (c ∷ rest)) >>= λ (d, file).
      line_body rounds file.pos file.rest (content ++ d ∷ []) in
      if next_is newline (c ∷ rest)
      then done (content, record { pos = pos; rest = c ∷ rest })
      else more

  -- the loop of a comment between /* and */
  unfoldable pub block_body : ℕ → Position → List ℕ → List ℕ → Run (List ℕ × File)
  block_body zero pos rest content = ok none
  block_body (suc rounds) pos [] content = done (content, record { pos = pos; rest = [] })
  block_body (suc rounds) pos (c ∷ rest) content =
      let more = lift (getchar_at pos (c ∷ rest)) >>= λ (d, file).
      block_body rounds file.pos file.rest (content ++ d ∷ []) in
      if next_is block_close (c ∷ rest) then done (content, discard 2 pos (c ∷ rest)) else more

  -- the loop of `parse_comments`
  unfoldable pub parse_from : ℕ → Position → List ℕ → List Comment → Run (List Comment)
  parse_from zero pos rest result = ok none
  parse_from (suc rounds) pos [] result = done result
  parse_from (suc rounds) pos (c ∷ rest) result =
      let opened = discard (if next_is quote (c ∷ rest) then 1 else 3) pos (c ∷ rest) in
      let started = discard 2 pos (c ∷ rest) in
      let string = swallow (suc rounds) opened.pos opened.rest >>= λ file.
      parse_from rounds file.pos file.rest result in
      let line = line_body (suc rounds) started.pos started.rest [] >>= λ (content, file).
      parse_from rounds file.pos file.rest (
        result
        ++ record { content = content; multiline = false; begin = pos; end = file.pos } ∷ []) in
      let block = block_body (suc rounds) started.pos started.rest [] >>= λ (content, file).
      parse_from rounds file.pos file.rest (
        result
        ++ record { content = content; multiline = true; begin = pos; end = file.pos } ∷ []) in
      let other = lift (getchar_at pos (c ∷ rest)) >>= λ (_, file).
      parse_from rounds file.pos file.rest result in
      if next_is quote (c ∷ rest) || next_is smart_open (c ∷ rest)
      then string
      else if next_is dashes (c ∷ rest)
      then line
      else if next_is block_open (c ∷ rest)
      then block
      else other

  -- Each round takes a byte, so as many rounds as bytes and one more are enough.
  unfoldable pub parse_comments : List ℕ → Run (List Comment)
  parse_comments bytes = parse_from (suc (length bytes)) initial bytes []
