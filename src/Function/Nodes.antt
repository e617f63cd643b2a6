-- ===== src/Function/Nodes.antt =====
-- What `Function::is_pure` of librumur/src/Function.cc asks of the nodes that it visits.
use rumur.Prelude.{
  ℕ, ◌≡◌, ◌≢◌, ◌↔◌, inl, inr, refl, ap, ◌∙◌, Bool, true, false, if◌then◌else◌, not, ◌==◌, ◌&&◌,
  Bool-cases, ==_iff, arith,
}
use rumur.Prelude.Results.{Result, ok, err, abort, ◌>>=◌, >>=-eq-ok}
use rumur.Ast.{
  Expr, Stmt, alias_stmt, property_stmt, assignment, clear, error_stmt, for_stmt, if_stmt,
  procedure_call, put, return_stmt, switch, undefine, while_stmt,
}
use rumur.Expr.{is_global_ref}
use rumur.Function.{Tree, node, stmt, call, other, Forest, leaf, plant, Callee, null_callee, callee}
use rumur.Function.Purity.{
  all_readonly, and_not_global, is_effect, pure_call, pure_tree, pure_forest, callee_is_pure,
}

-- A statement that writes no state variable, and neither prints nor checks nor reports anything.
abbrev pub WritesNoState : Stmt → Type 0
WritesNoState (assignment lhs rhs) = is_global_ref lhs ≡ ok false
WritesNoState (clear rhs) = is_global_ref rhs ≡ ok false
WritesNoState (undefine rhs) = is_global_ref rhs ≡ ok false
WritesNoState (error_stmt message) = ⊥
WritesNoState (property_stmt category e message) = ⊥
WritesNoState (put message e) = ⊥
WritesNoState (alias_stmt aliases body) = Unit {0}
WritesNoState (for_stmt q body) = Unit {0}
WritesNoState (if_stmt clauses) = Unit {0}
WritesNoState (procedure_call e) = Unit {0}
WritesNoState (return_stmt e) = Unit {0}
WritesNoState (switch e cases) = Unit {0}
WritesNoState (while_stmt cond body) = Unit {0}

-- All statements below write no state, in the functions that are called there too, which take no
-- parameter by reference; a call of the function itself is not followed.
abbrev mutual
  pub NoEffects : ℕ → Forest → Type 0
  NoEffects root leaf = Unit {0}
  NoEffects root (plant tree forest) = NoEffectsAt root tree × NoEffects root forest

  pub NoEffectsAt : ℕ → Tree → Type 0
  NoEffectsAt root (node (stmt s) children) = WritesNoState s × NoEffects root children
  NoEffectsAt root (node other children) = NoEffects root children
  NoEffectsAt root (node (call null_callee) children) = ⊥
  NoEffectsAt root (node (call (callee id parameters inside)) children) =
      NoEffects root children × (id ≢ root → (all_readonly parameters ≡ true) × NoEffects id inside)

abbrev pub HasNoEffects : Callee → Type 0
HasNoEffects null_callee = ⊥
HasNoEffects (callee id parameters inside) = (all_readonly parameters ≡ true) × NoEffects id inside

both : (a b : Bool) → ok (a && not b) ≡ ok true → (a ≡ true) × (b ≡ false)
both a b e = ground arith

local :
    (target : Expr) (pure : Bool)
    → (is_global_ref target >>= λ global. ok (pure && not global)) ≡ ok true
    → (pure ≡ true) × (is_global_ref target ≡ ok false)
local target pure returned =
    let (global, found, rest) =
      >>=-eq-ok (is_global_ref target) (λ global. ok (pure && not global)) returned in
    ((both pure global rest).0, found ∙ ap ok (both pure global rest).1)

stmt-WritesNoState :
    (s : Stmt) (pure : Bool)
    → is_effect s ≡ false
    → and_not_global s pure ≡ ok true
    → (pure ≡ true) × WritesNoState s
stmt-WritesNoState (assignment lhs rhs) pure no_effect returned = local lhs pure returned
stmt-WritesNoState (clear rhs) pure no_effect returned = local rhs pure returned
stmt-WritesNoState (undefine rhs) pure no_effect returned = local rhs pure returned
stmt-WritesNoState (error_stmt message) pure no_effect returned = cc
stmt-WritesNoState (property_stmt category e message) pure no_effect returned = cc
stmt-WritesNoState (put message e) pure no_effect returned = cc
stmt-WritesNoState (alias_stmt aliases body) pure no_effect returned = (cc, tt)
stmt-WritesNoState (for_stmt q body) pure no_effect returned = (cc, tt)
stmt-WritesNoState (if_stmt clauses) pure no_effect returned = (cc, tt)
stmt-WritesNoState (procedure_call e) pure no_effect returned = (cc, tt)
stmt-WritesNoState (return_stmt e) pure no_effect returned = (cc, tt)
stmt-WritesNoState (switch e cases) pure no_effect returned = (cc, tt)
stmt-WritesNoState (while_stmt cond body) pure no_effect returned = (cc, tt)

WritesNoState-stmt :
    (s : Stmt) → WritesNoState s → (is_effect s ≡ false) × (and_not_global s true ≡ ok true)
WritesNoState-stmt (assignment lhs rhs) h = (refl, rw h refl)
WritesNoState-stmt (clear rhs) h = (refl, rw h refl)
WritesNoState-stmt (undefine rhs) h = (refl, rw h refl)
WritesNoState-stmt (error_stmt message) h = absurd h
WritesNoState-stmt (property_stmt category e message) h = absurd h
WritesNoState-stmt (put message e) h = absurd h
WritesNoState-stmt (alias_stmt aliases body) h = (refl, refl)
WritesNoState-stmt (for_stmt q body) h = (refl, refl)
WritesNoState-stmt (if_stmt clauses) h = (refl, refl)
WritesNoState-stmt (procedure_call e) h = (refl, refl)
WritesNoState-stmt (return_stmt e) h = (refl, refl)
WritesNoState-stmt (switch e cases) h = (refl, refl)
WritesNoState-stmt (while_stmt cond body) h = (refl, refl)

-- What a callee's own check adds to that of the call.
checked :
    (readonly : Bool) (inside : Result Bool) (pure : Bool)
    → (do pure' ← if readonly then inside else ok false; ok (pure && pure')) ≡ ok true
    → (pure ≡ true) × (readonly ≡ true) × (inside ≡ ok true)
checked true (ok pure') pure returned = (ground arith, refl, ground arith)
checked true (err e) pure returned = cc
checked true abort pure returned = cc
checked false inside pure returned = absurd (ground arith)

mutual
  unfolding pure_tree

  forest-NoEffects :
      (root : ℕ) (forest : Forest) (pure : Bool)
      → pure_forest root forest pure ≡ ok true
      → (pure ≡ true) × NoEffects root forest
  forest-NoEffects root leaf pure returned = (cc, tt)
  forest-NoEffects root (plant tree forest) pure returned =
      let (pure', first, rest) =
        >>=-eq-ok (pure_tree root tree pure) (λ pure'. pure_forest root forest pure') returned in
      let (now, after) = forest-NoEffects root forest pure' rest in
      let (before, at) = tree-NoEffects root tree pure (first ∙ ap ok now) in (before, (at, after))

  tree-NoEffects :
      (root : ℕ) (tree : Tree) (pure : Bool)
      → pure_tree root tree pure ≡ ok true
      → (pure ≡ true) × NoEffectsAt root tree
  tree-NoEffects root (node (stmt s) children) pure returned = elim (Bool-cases (is_effect s)) [
    | inl effect ↦ cc (rw effect at returned)
    | inr no_effect ↦
        let (pure', first, rest) =
          >>=-eq-ok (and_not_global s pure) (λ pure'. pure_forest root children pure')
            (rw no_effect at returned) in
        let (now, below) = forest-NoEffects root children pure' rest in
        let (before, local_only) = stmt-WritesNoState s pure no_effect (first ∙ ap ok now) in
        (before, (local_only, below))
  ]
  tree-NoEffects root (node other children) pure returned =
      forest-NoEffects root children pure returned
  tree-NoEffects root (node (call null_callee) children) pure returned = cc
  tree-NoEffects root (node (call (callee id parameters inside)) children) pure returned =
      let (pure', first, rest) =
        >>=-eq-ok (pure_forest root children pure)
          (λ pure'.
            pure_call (id == root) pure'
              (if all_readonly parameters then pure_forest id inside true else ok false))
          returned in
      elim (Bool-cases (id == root)) [
        | inl own ↦
            let now : ok pure' ≡ ok true = rw own at rest in
            let (before, below) = forest-NoEffects root children pure (first ∙ now) in
            (before, (below, λ strange. absurd (strange ((==_iff id root).0 own))))
        | inr strange ↦
            let (now, fixed, pure_inside) =
              checked (all_readonly parameters) (pure_forest id inside true) pure'
                (rw strange at rest) in
            let (before, below) = forest-NoEffects root children pure (first ∙ ap ok now) in
            (before, (below, λ _. (fixed, (forest-NoEffects id inside true pure_inside).1)))
      ]

mutual
  unfolding pure_tree

  NoEffects-forest :
      (root : ℕ) (forest : Forest) → NoEffects root forest → pure_forest root forest true ≡ ok true
  NoEffects-forest root leaf h = refl
  NoEffects-forest root (plant tree forest) (at, after) =
      rw (NoEffects-tree root tree at) (NoEffects-forest root forest after)

  NoEffects-tree :
      (root : ℕ) (tree : Tree) → NoEffectsAt root tree → pure_tree root tree true ≡ ok true
  NoEffects-tree root (node (stmt s) children) (local_only, below) =
      let (no_effect, kept) = WritesNoState-stmt s local_only in
      rw (no_effect, kept) (NoEffects-forest root children below)
  NoEffects-tree root (node other children) below = NoEffects-forest root children below
  NoEffects-tree root (node (call null_callee) children) h = absurd h
  NoEffects-tree root (node (call (callee id parameters inside)) children) (below, called) =
      rw (NoEffects-forest root children below) (elim (Bool-cases (id == root)) [
        | inl own ↦ rw own refl
        | inr strange ↦
            let apart : id ≢ root = (λ e. cc (strange, (==_iff id root).1 e)) in
            rw (strange, (called apart).0, NoEffects-forest id inside (called apart).1) refl
      ])

pub callee_is_pure_iff : (f : Callee) → (callee_is_pure f ≡ ok true) ↔ HasNoEffects f
unfolding callee_is_pure
callee_is_pure_iff null_callee = ((λ e. cc), λ h. absurd h)
callee_is_pure_iff (callee id parameters inside) = (
  (λ returned. elim (Bool-cases (all_readonly parameters)) [
    | inl fixed ↦ (fixed, (forest-NoEffects id inside true (rw fixed at returned)).1)
    | inr by_reference ↦ cc (rw by_reference at returned)
  ]),
  λ h. rw h.0 (NoEffects-forest id inside h.1),
)
