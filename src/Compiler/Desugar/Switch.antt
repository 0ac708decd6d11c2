-- ===== src/Compiler/Desugar/Switch.antt =====
-- The cases of desugar, compiler/desugar.go, for switches: a switch becomes a chain of
-- conditionals, inside a switch with one case.
use coroutine_durable_fork.Prelude.{ℕ, Bool, true, false, ◌||◌, Option, none, some}
use coroutine_durable_fork.Compiler.Ast.{
  eql, or_, binary, type_assert, Expr, absent, node, Exprs, may_yield,
}
use coroutine_durable_fork.Compiler.Ast
use coroutine_durable_fork.Compiler.Desugar.Syntax.{
  define, generated, Stmt, no_stmt, empty, assign, expr_stmt, block, case_clause, if_, labeled,
  switch, type_switch, Stmts, nil, cons, ◌+++◌, only, any_marked,
}
use coroutine_durable_fork.Compiler.Desugar.State.{
  type_assertion, M, ◌>>=◌, give, fail, new_var, new_label, add_user_label,
}
use coroutine_durable_fork.Compiler.Desugar.FlatMap.{one, desugar_list}
use coroutine_durable_fork.Compiler.Desugar.Simple.{Rec, alone, init_of, with_prologue}

-- The tag in a variable; without a tag, none.
unfoldable pub tag_of : Expr → M (Option Expr × Stmts)
tag_of absent = give (none, nil)
tag_of e = do v ← new_var; give (some v, only (assign (may_yield e) (one v) define (one e)))

-- The test for a value of a case: tag == value, without a tag the value.
abbrev pub test : Option Expr → Expr → Expr
test none v = v
test (some t) v = node (may_yield v) (binary eql) (Ast.Exprs.cons t (one v))

abbrev pub either : Expr → Expr → Expr
either x y = node (may_yield x || may_yield y) (binary or_) (Ast.Exprs.cons x (one y))

-- The tests, from the left, joined by the operator |.
unfoldable pub or_tests : Option Expr → Expr → Exprs → Expr
or_tests t x Ast.Exprs.nil = x
or_tests t x (Ast.Exprs.cons v vs) = or_tests t (either x (test t v)) vs

-- if tmp := test; tmp { body } else ...
unfoldable pub case_if : Expr → Expr → Stmts → Stmt → Stmt
case_if v e body rest =
    if_ (may_yield e || any_marked body) (assign (may_yield e) (one v) define (one e)) v
      (block (any_marked body) body) rest

-- The chain of conditionals, with `last` the body of the default case so far.
unfoldable pub chain : Option Expr → Stmts → Stmt → M Stmt
unfolding or_tests case_if
chain t nil last = give last
chain t (cons (case_clause m Ast.Exprs.nil body) cs) last =
    chain t cs (block (any_marked body) body)
chain t (cons (case_clause m (Ast.Exprs.cons e es) body) cs) last = do
  v ← new_var
  rest ← chain t cs last
  give (case_if v (or_tests t (test t e) es) body rest)
chain t (cons s cs) last = fail type_assertion

abbrev pub head_or_empty : Stmt → Stmt
head_or_empty no_stmt = empty
head_or_empty s = s

-- The tag stays only without cases. It is then the node that stands in the assignment of the
-- prologue, which is decomposed in place.
abbrev pub last_value : Expr → Stmts → Expr
last_value e nil = e
last_value e (cons (assign m l t (Ast.Exprs.cons r Ast.Exprs.nil)) nil) = r
last_value e (cons s ss) = last_value e ss

abbrev pub tag_kept : Stmt → Expr → Stmts → Expr
tag_kept no_stmt absent prologue = absent
tag_kept no_stmt e prologue = last_value e prologue
tag_kept s e prologue = absent

unfoldable pub desugar_switch : Rec → Stmt → Expr → Stmts → Option ℕ → Option ℕ → M Stmt
unfolding tag_of chain desugar_list
desugar_switch rec init e cs c u = do
  l ← new_label
  _ ← add_user_label u l
  t ← tag_of e
  head ← chain t.0 cs no_stmt
  prologue ← desugar_list (alone rec) (init_of init +++ t.1)
  body ← rec (head_or_empty head) (some l) c none
  give (
      with_prologue prologue (
        labeled false (generated l) (
          switch false no_stmt (tag_kept head e prologue)
            (only (case_clause false Ast.Exprs.nil (only body))))))

-- The asserted operand in a variable, where it may yield.
unfoldable pub asserted : Expr → Bool → M (Expr × Stmts)
asserted x false = give (x, nil)
asserted x true = do v ← new_var; give (v, only (assign false (one v) define (one x)))

unfoldable pub assertion : Expr → M (Expr × Stmts)
unfolding asserted
assertion (node m (type_assert k) (Ast.Exprs.cons x Ast.Exprs.nil)) = do
  r ← asserted x (may_yield x)
  give (node m (type_assert k) (one r.0), r.1)
assertion e = fail type_assertion

-- x.(type), or v := x.(type).
unfoldable pub subject : Stmt → M (Stmt × Stmts)
unfolding assertion
subject (expr_stmt m e) = do r ← assertion e; give (expr_stmt m r.0, r.1)
subject (assign m lhs tok (Ast.Exprs.cons e es)) = do
  r ← assertion e
  give (assign m lhs tok (Ast.Exprs.cons r.0 es), r.1)
subject s = fail type_assertion

unfoldable pub desugar_type_switch : Rec → Stmt → Stmt → Stmt → Option ℕ → Option ℕ → M Stmt
unfolding subject desugar_list
desugar_type_switch rec init a body c u = do
  l ← new_label
  _ ← add_user_label u l
  r ← subject a
  prologue ← desugar_list (alone rec) (init_of init +++ r.1)
  body₁ ← rec body (some l) c none
  give (
      block false
        (prologue +++ only (labeled false (generated l) (type_switch false no_stmt r.0 body₁))))
