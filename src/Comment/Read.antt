-- ===== src/Comment/Read.antt =====
-- `parse_comments` of librumur/src/Comment.cc reads the comments of a file back.
use mathlib.Core.List.{append_assoc, append-nil}
use rumur.Prelude.{
  ℕ, zero, suc, ◌<◌, ◌≡◌, refl, ap, ◌∙◌, Bool, true, false, List, [], ◌∷◌, ◌++◌, length,
  length-append, arith,
}
use rumur.Prelude.Runs.{done}
use rumur.Comment.{
  Positions, Comment, advance, next_is, dashes, block_open, block_close, getchar_at, discard,
  swallow, line_body, block_body, parse_from, parse_comments,
}
use rumur.Comment.Segments.{
  Piece, byte, quote_in, smart_in, Segment, code, string, line, block, opening, closing,
  print_pieces, print, AreInside, IsLine, EndsLine, IsBlock, IsFile, after, comments,
}

module _ (p : Positions) where
  open p use {Position, initial}

  swallow-pieces :
      (pieces : List Piece) (smart : Bool) (rest : List ℕ) (rounds : ℕ) (pos : Position)
      → AreInside pieces (closing smart ++ rest)
      → length (print_pieces pieces ++ (closing smart ++ rest)) < rounds
      → swallow p rounds pos (print_pieces pieces ++ (closing smart ++ rest))
        ≡ done (record {
          pos = after p (after p pos (print_pieces pieces)) (closing smart);
          rest = rest;
        })
  unfolding swallow discard getchar_at next_is
  swallow-pieces pieces smart rest zero pos inside few = absurd (omega arith)
  swallow-pieces [] false rest (suc rounds) pos inside few = refl
  swallow-pieces [] true rest (suc rounds) pos inside few = refl
  swallow-pieces (quote_in ∷ pieces) smart rest (suc rounds) pos inside few =
      swallow-pieces pieces smart rest rounds _ inside (omega arith)
  swallow-pieces (smart_in ∷ pieces) smart rest (suc rounds) pos inside few =
      swallow-pieces pieces smart rest rounds _ inside (omega arith)
  swallow-pieces (byte c ∷ pieces) smart rest (suc rounds) pos (a, b, d, e, inside) few =
      rw (a, b, d, e)
        (swallow-pieces pieces smart rest rounds (advance p pos c) inside (omega arith))

  line_body-line :
      (content rest : List ℕ) (rounds : ℕ) (pos : Position) (before : List ℕ)
      → IsLine content
      → EndsLine rest
      → length (content ++ rest) < rounds
      → line_body p rounds pos (content ++ rest) before
        ≡ done (before ++ content, record { pos = after p pos content; rest = rest })
  unfolding line_body getchar_at next_is
  line_body-line content rest zero pos before inside ends few = absurd (omega arith)
  line_body-line [] [] (suc rounds) pos before inside ends few = rw (append-nil before) refl
  line_body-line [] (c ∷ rest) (suc rounds) pos before inside ends few =
      rw (ends, append-nil before) refl
  line_body-line (c ∷ content) rest (suc rounds) pos before (other, inside) ends few = rw other (
      line_body-line content rest rounds (advance p pos c) (before ++ c ∷ []) inside ends
        (omega arith)
      ∙ ap (λ l. done (l, record { pos = after p (advance p pos c) content; rest = rest }))
          (append_assoc before (c ∷ []) content))

  block_body-block :
      (content rest : List ℕ) (rounds : ℕ) (pos : Position) (before : List ℕ)
      → IsBlock content (b'*' ∷ b'/' ∷ rest)
      → length (content ++ (b'*' ∷ b'/' ∷ rest)) < rounds
      → block_body p rounds pos (content ++ (b'*' ∷ b'/' ∷ rest)) before
        ≡ done (
          before ++ content,
          record { pos = after p (after p pos content) block_close; rest = rest },
        )
  unfolding block_body getchar_at next_is discard
  block_body-block content rest zero pos before inside few = absurd (omega arith)
  block_body-block [] rest (suc rounds) pos before inside few = rw (append-nil before) refl
  block_body-block (c ∷ content) rest (suc rounds) pos before (other, inside) few = rw other (
      block_body-block content rest rounds (advance p pos c) (before ++ c ∷ []) inside (omega arith)
      ∙ ap
          (λ l. done (
            l,
            record { pos = after p (after p (advance p pos c) content) block_close; rest = rest },
          ))
          (append_assoc before (c ∷ []) content))

  string_length :
      (smart smart' : Bool) (pieces : List Piece) (rest : List ℕ)
      → length rest < length (opening smart ++ (print_pieces pieces ++ (closing smart' ++ rest)))
  string_length smart smart' pieces rest = omega (
    arith,
    length-append (opening smart) (print_pieces pieces ++ (closing smart' ++ rest)),
    length-append (print_pieces pieces) (closing smart' ++ rest),
    length-append (closing smart') rest,
    some smart,
  )
    where
      some : (b : Bool) → 0 < length (opening b)
      some true = omega arith
      some false = omega arith

  parse_from-comments :
      (segments : List Segment) (rounds : ℕ) (pos : Position) (result : List (Comment p))
      → IsFile segments
      → length (print segments) < rounds
      → parse_from p rounds pos (print segments) result ≡ done (result ++ comments p pos segments)
  unfolding parse_from discard getchar_at next_is
  parse_from-comments segments zero pos result file few = absurd (omega arith)
  parse_from-comments [] (suc rounds) pos result file few = rw (append-nil result) refl
  parse_from-comments (code c ∷ segments) (suc rounds) pos result (a, b, d, e, file) few =
      rw (a, b, d, e)
        (parse_from-comments segments rounds (advance p pos c) result file (omega arith))
  parse_from-comments (string false pieces smart' ∷ segments) (suc rounds) pos result (inside, file)
        few =
      rw (swallow-pieces pieces smart' (print segments) (suc rounds) _ inside (omega arith)) (
        parse_from-comments segments rounds _ result file
          (omega (arith, string_length false smart' pieces (print segments))))
  parse_from-comments (string true pieces smart' ∷ segments) (suc rounds) pos result (inside, file)
        few =
      rw (swallow-pieces pieces smart' (print segments) (suc rounds) _ inside (omega arith)) (
        parse_from-comments segments rounds _ result file
          (omega (arith, string_length true smart' pieces (print segments))))
  parse_from-comments (line content ∷ segments) (suc rounds) pos result (inside, ends, file) few =
      rw
        (line_body-line content (print segments) (suc rounds) (after p pos dashes) [] inside ends
          (omega arith))
        (parse_from-comments segments rounds _ _ file
            (omega (arith, length-append content (print segments)))
          ∙ ap done (append_assoc result _ _))
  parse_from-comments (block content ∷ segments) (suc rounds) pos result (inside, file) few =
      rw
        (block_body-block content (print segments) (suc rounds) (after p pos block_open) [] inside
          (omega arith))
        (parse_from-comments segments rounds _ _ file
            (omega (arith, length-append content (b'*' ∷ b'/' ∷ print segments)))
          ∙ ap done (append_assoc result _ _))

  -- Of a file of strings, comments and other bytes, of which no other byte starts a string or a comment
  -- and no byte of a string or a comment ends it, parse_comments returns, and its result is the comments
  -- in order, each with its content, its kind and the positions where it begins and ends.
  pub parse_comments-print :
      (segments : List Segment)
      → IsFile segments
      → parse_comments p (print segments) ≡ done (comments p initial segments)
  unfolding parse_comments
  parse_comments-print segments file =
      parse_from-comments segments (suc (length (print segments))) initial [] file (omega arith)
