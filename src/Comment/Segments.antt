-- ===== src/Comment/Segments.antt =====
-- A file that librumur/src/Comment.cc reads, as a sequence of strings, comments and other bytes.
use rumur.Prelude.{ℕ, ◌≡◌, Bool, true, false, ◌==◌, List, [], ◌∷◌, ◌++◌}
use rumur.Comment.{
  Positions, Comment, advance, next_is, quote, smart_open, smart_close, escaped_quote,
  escaped_smart, dashes, block_open, block_close,
}

-- Inside a string: a byte, or an escaped quote.
pub data Piece : Type 0 where
  byte : ℕ → Piece
  quote_in smart_in : Piece

pub data Segment : Type 0 where
  code : ℕ → Segment
  -- whether it starts with a smart quote, the inside, and whether it ends with one
  string : Bool → List Piece → Bool → Segment
  line block : List ℕ → Segment

abbrev pub opening : Bool → List ℕ
opening false = quote
opening true = smart_open

abbrev pub closing : Bool → List ℕ
closing false = quote
closing true = smart_close

abbrev pub print_pieces : List Piece → List ℕ
print_pieces [] = []
print_pieces (byte c ∷ pieces) = c ∷ print_pieces pieces
print_pieces (quote_in ∷ pieces) = 0x5c ∷ 0x22 ∷ print_pieces pieces
print_pieces (smart_in ∷ pieces) = 0x5c ∷ 0xe2 ∷ 0x80 ∷ 0x9d ∷ print_pieces pieces

abbrev pub print : List Segment → List ℕ
print [] = []
print (code c ∷ segments) = c ∷ print segments
print (string smart pieces smart' ∷ segments) =
    opening smart ++ (print_pieces pieces ++ (closing smart' ++ print segments))
print (line content ∷ segments) = b'-' ∷ b'-' ∷ (content ++ print segments)
print (block content ∷ segments) = b'/' ∷ b'*' ∷ (content ++ (b'*' ∷ b'/' ∷ print segments))

-- No byte inside a string ends it or starts an escaped quote.
abbrev pub AreInside : List Piece → List ℕ → Type 0
AreInside [] rest = Unit {0}
AreInside (byte c ∷ pieces) rest =
    (next_is escaped_quote (c ∷ (print_pieces pieces ++ rest)) ≡ false)
    × (next_is escaped_smart (c ∷ (print_pieces pieces ++ rest)) ≡ false)
    × (next_is quote (c ∷ (print_pieces pieces ++ rest)) ≡ false)
    × (next_is smart_close (c ∷ (print_pieces pieces ++ rest)) ≡ false)
    × AreInside pieces rest
AreInside (quote_in ∷ pieces) rest = AreInside pieces rest
AreInside (smart_in ∷ pieces) rest = AreInside pieces rest

-- A comment from -- on lasts to the end of the line.
abbrev pub IsLine : List ℕ → Type 0
IsLine [] = Unit {0}
IsLine (c ∷ content) = ((c == 0x0a) ≡ false) × IsLine content

abbrev pub EndsLine : List ℕ → Type 0
EndsLine [] = Unit {0}
EndsLine (c ∷ rest) = (c == 0x0a) ≡ true

-- The end of a comment does not stand within it.
abbrev pub IsBlock : List ℕ → List ℕ → Type 0
IsBlock [] rest = Unit {0}
IsBlock (c ∷ content) rest =
    (next_is block_close (c ∷ (content ++ rest)) ≡ false) × IsBlock content rest

-- Other bytes start neither a string nor a comment.
abbrev pub IsFile : List Segment → Type 0
IsFile [] = Unit {0}
IsFile (code c ∷ segments) =
    (next_is quote (c ∷ print segments) ≡ false)
    × (next_is smart_open (c ∷ print segments) ≡ false)
    × (next_is dashes (c ∷ print segments) ≡ false)
    × (next_is block_open (c ∷ print segments) ≡ false)
    × IsFile segments
IsFile (string smart pieces smart' ∷ segments) =
    AreInside pieces (closing smart' ++ print segments) × IsFile segments
IsFile (line content ∷ segments) = IsLine content × EndsLine (print segments) × IsFile segments
IsFile (block content ∷ segments) = IsBlock content (b'*' ∷ b'/' ∷ print segments) × IsFile segments

module _ (p : Positions) where
  open p use {Position}

  -- The position after some bytes.
  abbrev pub after : Position → List ℕ → Position
  after pos [] = pos
  after pos (c ∷ bytes) = after (advance p pos c) bytes

  -- The comments of a file, each with its content and the places where it begins and ends.
  abbrev pub comments : Position → List Segment → List (Comment p)
  comments pos [] = []
  comments pos (code c ∷ segments) = comments (advance p pos c) segments
  comments pos (string smart pieces smart' ∷ segments) =
      comments (after (after (after pos (opening smart)) (print_pieces pieces)) (closing smart'))
        segments
  comments pos (line content ∷ segments) =
      let end = after (after pos dashes) content in
      record { content = content; multiline = false; begin = pos; end = end }
      ∷ comments end segments
  comments pos (block content ∷ segments) =
      let end = after (after (after pos block_open) content) block_close in
      record { content = content; multiline = true; begin = pos; end = end } ∷ comments end segments
