-- ===== src/Compiler/DesugarExamples.antt =====
-- desugar on small statements.
use coroutine_durable_fork.Prelude.{ℕ, ◌≡◌, ◌≢◌, refl, Bool, true, false, [], ◌∷◌, none, some, ◌==◌}
use coroutine_durable_fork.Compiler.Ast.{
  user, tmp, call, eql, land, binary, Expr, ident, basic_lit, node, nil, cons, may_yield, size,
}
use coroutine_durable_fork.Compiler.Decompose.{
  decompose_node, hoist_parts, hoist_fun, hoist, Decomposed, decompose_expression, prereqs,
}
use coroutine_durable_fork.Compiler.Decompose.Total.{decompose_expression_total}
use coroutine_durable_fork.Compiler.Decompose.Flat.{IsFlat, AreFlat, decompose_expression-IsFlat}
use coroutine_durable_fork.Compiler.Decompose.Inline.{IsFresh}
use coroutine_durable_fork.Compiler.Decompose.Inline.RoundTrip.{
  run_assigns, replace, replace-decompose_expression,
}
use coroutine_durable_fork.Compiler.Decompose.Order.{operands_reversed}
use coroutine_durable_fork.Compiler.Ast
use coroutine_durable_fork.Compiler.Desugar.Syntax
use coroutine_durable_fork.Compiler.Desugar.Syntax.{
  of_user, generated, break_, define, Stmt, no_stmt, empty, expr_stmt, block, branch, for_, if_,
  assign, labeled, case_clause, switch, Stmts, only, any_marked,
}
use coroutine_durable_fork.Compiler.Desugar.State.{
  Desugarer, done, out_of_fuel, new_var, new_label, add_user_label, use_label, is_member,
}
use coroutine_durable_fork.Compiler.Desugar.FlatMap.{one}
use coroutine_durable_fork.Compiler.Desugar.Switch.{chain, or_tests}
use coroutine_durable_fork.Compiler.Desugar.Rewrite.{desugar, desugar_stmt, initial, weight}
use coroutine_durable_fork.Compiler.Desugar.Meets.{IsUsed}
use coroutine_durable_fork.Compiler.Desugar.Branches.{Branches, IsSource}
use coroutine_durable_fork.Compiler.Desugar.Kept.{labels}
use coroutine_durable_fork.Compiler.Desugar.Total.{desugar_stmt_total, desugar_stmt-Branches}
use coroutine_durable_fork.Compiler.Desugar.Selection.{chain-desugar, empty_switch-desugar}

-- f(), and f(g())
abbrev called : ℕ → Expr
called f = node true (call false) (cons (ident (user f)) nil)

abbrev nested : Expr
nested = node true (call false) (cons (ident (user 0)) (cons (called 1) nil))

abbrev outer : Expr
outer = node true (call false) (cons (ident (user 0)) (cons (ident (tmp 0)) nil))

abbrev in_parts : Decomposed
in_parts = record { expr = outer; assigns = (0, called 1) ∷ []; vars = 1 }

decomposes : decompose_expression 0 false nested ≡ some in_parts
unfolding decompose_expression may_yield size prereqs
decomposes = refl

decompose_expression_total_example :
    (d : Decomposed) × (decompose_expression 0 false nested ≡ some d)
decompose_expression_total_example = decompose_expression_total 0 false nested

decompose_expression-IsFlat_example : IsFlat outer × AreFlat ((0, called 1) ∷ [])
unfolding may_yield
decompose_expression-IsFlat_example =
    decompose_expression-IsFlat 0 false nested in_parts refl decomposes

replace-decompose_expression_example : replace (run_assigns [] ((0, called 1) ∷ [])) outer ≡ nested
unfolding IsFresh
replace-decompose_expression_example =
    replace-decompose_expression 0 false nested in_parts (tt, ((tt, tt), tt)) decomposes

operands_reversed_example :
    decompose_expression 0 false (node true (binary land) (cons (called 1) (cons (called 2) nil)))
    ≡ some (record {
      expr = node true (binary land) (cons (ident (tmp 0)) (cons (ident (tmp 1)) nil));
      assigns = (1, called 2) ∷ (0, called 1) ∷ [];
      vars = 2;
    })
unfolding may_yield decompose_node hoist_parts hoist_fun hoist
operands_reversed_example =
    operands_reversed 0 false land (called 1) (called 2)
      ((refl, λ k. refl), ((refl, λ k. refl), tt))

-- L: for { f(); break L }
abbrev endless : Stmt
endless = labeled true (of_user 0) (
    for_ true no_stmt Ast.Expr.absent no_stmt (
      block true (
        Syntax.Stmts.cons (expr_stmt true (called 0))
          (only (branch true break_ (some (of_user 0)))))))

abbrev endless_done : Stmt
endless_done = labeled false (generated 0) (
    for_ false no_stmt Ast.Expr.absent no_stmt (
      block false (
        Syntax.Stmts.cons (expr_stmt true (called 0))
          (only (branch false break_ (some (generated 0)))))))

abbrev last : Desugarer
last = record { vars = 0; labels = 1; unused_labels = []; user_labels = (0, 0) ∷ [] }

desugars : desugar_stmt endless ≡ done endless_done last
unfolding desugar_stmt new_var new_label add_user_label use_label decompose_expression may_yield
    size prereqs
desugars = refl

desugar_stmt_total_example : desugar_stmt endless ≢ out_of_fuel
unfolding IsSource Branches
desugar_stmt_total_example = desugar_stmt_total endless (tt, tt, (tt, (tt, tt)))

desugar_stmt-Branches_example :
    Branches (IsUsed last) endless_done
    × ((s₀ : Stmt) × (desugar (weight endless) endless none none none initial ≡ done s₀ last)
        × ((l : ℕ) → is_member l last.unused_labels ≡ false → labels l endless_done ≡ labels l s₀))
unfolding IsSource Branches
desugar_stmt-Branches_example =
    desugar_stmt-Branches endless (tt, tt, (tt, (tt, tt))) endless_done last desugars

-- switch tag { case 1: default: a case 2: f() }
abbrev tag : Expr
tag = ident (tmp 0)

abbrev quiet : Stmts
quiet = only (expr_stmt false (ident (user 5)))

abbrev busy : Stmts
busy = only (expr_stmt true (called 0))

abbrev clauses : Stmts
clauses =
    Syntax.Stmts.cons (case_clause false nil quiet)
      (only (case_clause true (one (basic_lit 2)) busy))

abbrev all_clauses : Stmts
all_clauses = Syntax.Stmts.cons (case_clause false (one (basic_lit 1)) Syntax.Stmts.nil) clauses

abbrev start : Desugarer
start = record { vars = 1; labels = 0; unused_labels = []; user_labels = [] }

abbrev stop : Desugarer
stop = record { vars = 3; labels = 0; unused_labels = []; user_labels = [] }

abbrev compared : ℕ → Expr
compared n = node false (binary eql) (cons tag (one (basic_lit n)))

abbrev chained : Stmt
chained =
    if_ false (assign false (one (ident (tmp 1))) define (one (compared 1))) (ident (tmp 1))
      (block false Syntax.Stmts.nil)
      (if_ true (assign false (one (ident (tmp 2))) define (one (compared 2))) (ident (tmp 2))
        (block true busy) (block false quiet))

chains : chain (some tag) all_clauses no_stmt start ≡ done chained stop
unfolding chain new_var may_yield
chains = refl

abbrev is_two : Expr → Bool
is_two (node m k (cons t (cons (basic_lit n) nil))) = n == 2
is_two e = false

clause_left : desugar 9 chained none none none stop ≡ done chained stop
unfolding may_yield or_tests
clause_left =
    chain-desugar 8 (some tag) false (basic_lit 1) nil Syntax.Stmts.nil clauses no_stmt chained none
      none none start stop refl refl chains

called_twice :
    (e : Desugarer) × (desugar 4
        (switch true no_stmt (called 0) Syntax.Stmts.nil)
        none
        none
        none
        initial
      ≡ done
          (block false (
            Syntax.Stmts.cons (assign true (one tag) define (one (called 0))) (
              only (
                labeled false
                  (generated 0)
                  (switch false no_stmt (called 0) (only (case_clause false nil (only empty))))))))
          e)
called_twice = empty_switch-desugar 2 (user 0) none none initial
