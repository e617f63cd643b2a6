-- ===== src/Rule/Names/Parts.antt =====
-- The visits of librumur/src/sanitise_rule_names.cc from one part of a node to the next.
use rumur.Prelude.{
  ◌+◌, ◌^◌, ◌<◌, ◌≡◌, refl, sym, subst, ap, ◌∙◌, List, [], ◌++◌, String, Option, some, length,
  length-append, arith, All,
}
use rumur.Rule.Names.{RuleNamer, ◌>>=◌}
use rumur.Rule.Names.Symbols.{IsName}
use rumur.Rule.Names.Distinct.{push, push-append, length-push, All-append, Differ}

-- What a visit of a node leaves.
pub record Sanitised {Node : Type 0} (names_of : Node → List String) (without : Node → Node)
    (namer : RuleNamer) (node : Node) (result : Option (Node × RuleNamer)) : Type 0 where
  pub after : Node
  pub state : RuleNamer
  pub returned : result ≡ some (after, state)
  pub pushes : state.used ≡ push (names_of after) namer.used
  pub small : state.index < 2 ^ 64
  pub same : without after ≡ without node
  pub kept : length (names_of after) ≡ length (names_of node)
  pub symbols : All IsName (names_of after)
  pub different : Differ namer.used → Differ state.used

-- There is room for the names of the node.
abbrev pub HasRoom : RuleNamer → List String → Type 0
HasRoom namer new = (namer.index < 2 ^ 64) × (length namer.used + length new < 2 ^ 64)

-- One visit after another, on the parts of a node.
module _ {Left Right Both : Type 0} (left_names : Left → List String)
    (right_names : Right → List String) (both_names : Both → List String)
    (without_left : Left → Left) (without_right : Right → Right) (without_both : Both → Both)
    (join : Left → Right → Both)
    (names_join : (l : Left) (r : Right) → both_names (join l r) ≡ left_names l ++ right_names r)
    (without_join : (l l' : Left) (r r' : Right)
      → without_left l' ≡ without_left l
      → without_right r' ≡ without_right r
      → without_both (join l' r') ≡ without_both (join l r)) where
  pub Sanitised-join :
      (namer : RuleNamer) (l : Left) (r : Right) (first : Option (Left × RuleNamer))
      (visit : RuleNamer → Option (Right × RuleNamer))
      → Sanitised left_names without_left namer l first
      → ((namer' : RuleNamer)
          → HasRoom namer' (right_names r)
          → Sanitised right_names without_right namer' r (visit namer'))
      → length namer.used + length (both_names (join l r)) < 2 ^ 64
      → Sanitised both_names without_both namer
          (join l r)
          (do (l', namer') ← first; (r', namer'') ← visit namer'; some (join l' r', namer''))
  Sanitised-join namer l r first visit done later room = record {
    after = join done.after next.after;
    state = next.state;
    returned = rw (done.returned, next.returned) refl;
    pushes =
        next.pushes
        ∙ ap (push (right_names next.after)) done.pushes
        ∙ sym (push-append (left_names done.after) (right_names next.after) namer.used)
        ∙ ap (λ new. push new namer.used) (sym (names_join done.after next.after));
    small = next.small;
    same = without_join l done.after r next.after done.same next.same;
    kept = omega (
      arith,
      ap length {x = both_names (join done.after next.after)} (names_join done.after next.after),
      ap length (names_join l r),
      done.kept,
      next.kept,
      length-append (left_names done.after) (right_names next.after),
      length-append (left_names l) (right_names r),
    );
    symbols =
        subst (All IsName) (sym (names_join done.after next.after))
          (All-append IsName _ _ done.symbols next.symbols);
    different = λ h. next.different (done.different h);
  }
    where
      next : Sanitised right_names without_right done.state r (visit done.state)
      next = later done.state (
        done.small,
        omega (
          arith,
          room,
          ap length (names_join l r),
          length-append (left_names l) (right_names r),
          done.kept,
          ap length done.pushes,
          length-push (left_names done.after) namer.used,
        ),
      )

-- A visit whose result is put into another node.
module _ {Part Whole : Type 0} (part_names : Part → List String) (whole_names : Whole → List String)
    (without_part : Part → Part) (without_whole : Whole → Whole) (wrap : Part → Whole)
    (names_wrap : (p : Part) → whole_names (wrap p) ≡ part_names p)
    (without_wrap : (p p' : Part)
      → without_part p' ≡ without_part p
      → without_whole (wrap p') ≡ without_whole (wrap p)) where
  pub Sanitised-wrap :
      (namer : RuleNamer) (p : Part) (visit : Option (Part × RuleNamer))
      → Sanitised part_names without_part namer p visit
      → Sanitised whole_names without_whole namer
          (wrap p)
          (do (p', namer') ← visit; some (wrap p', namer'))
  Sanitised-wrap namer p visit done = record {
    after = wrap done.after;
    state = done.state;
    returned = rw done.returned refl;
    pushes = done.pushes ∙ ap (λ new. push new namer.used) (sym (names_wrap done.after));
    small = done.small;
    same = without_wrap p done.after done.same;
    kept = ap length (names_wrap done.after) ∙ done.kept ∙ ap length (sym (names_wrap p));
    symbols = subst (All IsName) (sym (names_wrap done.after)) done.symbols;
    different = done.different;
  }

-- A node with no rules.
pub Sanitised-leaf :
    {Node : Type 0} (names_of : Node → List String) (without : Node → Node) (namer : RuleNamer)
    (node : Node)
    → names_of node ≡ []
    → namer.index < 2 ^ 64
    → Sanitised names_of without namer node (some (node, namer))
unfolding push
Sanitised-leaf names_of without namer node empty small = record {
  after = node;
  state = namer;
  returned = refl;
  pushes = ap (λ new. push new namer.used) (sym empty);
  small = small;
  same = refl;
  kept = refl;
  symbols = subst (All IsName) (sym empty) tt;
  different = λ h. h;
}
