-- ===== src/Examples/Comments.antt =====
-- A file with a string that holds two dashes, and two comments.
use rumur.Prelude.{ℕ, ◌+◌, ◌≡◌, refl, true, false, List, [], ◌∷◌}
use rumur.Prelude.Runs.{done}
use rumur.Comment.{Positions, Comment, next_is, parse_comments}
use rumur.Comment.Segments.{
  Segment, code, string, line, block, byte, quote_in, print, IsFile, comments,
}
use rumur.Comment.Read.{parse_comments-print}
use rumur.Comment.Ends.{parse_comments-Returns}

-- the numbers of the line and of the column
abbrev line_column : Positions
line_column = record {
  Position = ℕ × ℕ;
  initial = (1, 1);
  lines = λ (l, c). (l + 1, 1);
  columns = λ (l, c). (l, c + 1);
}

-- x"--\\""--a, a new line and /*-*/
abbrev small_file : List Segment
small_file =
    code b'x'
    ∷ string false (byte b'-' ∷ byte b'-' ∷ quote_in ∷ []) false
    ∷ line (b'a' ∷ [])
    ∷ code 0x0a
    ∷ block (b'-' ∷ [])
    ∷ []

small_file-IsFile : IsFile small_file
unfolding next_is
small_file-IsFile = (
  refl,
  refl,
  refl,
  refl,
  (
    (refl, refl, refl, refl, (refl, refl, refl, refl, tt)),
    ((refl, tt), refl, (refl, refl, refl, refl, ((refl, tt), tt))),
  ),
)

parse_comments-print_example :
    parse_comments line_column (print small_file) ≡ done (comments line_column (1, 1) small_file)
parse_comments-print_example = parse_comments-print line_column small_file small_file-IsFile

parse_comments-Returns_example :
    (result : List (Comment line_column)) × (parse_comments line_column
        (b'-' ∷ b'/' ∷ b'*' ∷ b'*' ∷ [])
      ≡ done result)
parse_comments-Returns_example = parse_comments-Returns line_column (b'-' ∷ b'/' ∷ b'*' ∷ b'*' ∷ [])

two_comments :
    comments line_column (1, 1) small_file
    ≡ record { content = b'a' ∷ []; multiline = false; begin = (1, 8); end = (1, 11) }
      ∷ record { content = b'-' ∷ []; multiline = true; begin = (2, 1); end = (2, 6) }
      ∷ []
unfolding rumur.Comment.advance
two_comments = refl
