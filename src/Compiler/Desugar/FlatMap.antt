-- ===== src/Compiler/Desugar/FlatMap.antt =====
-- flatMap and desugarList of compiler/desugar.go: the expressions of a statement are decomposed,
-- and the assignments stand before the statement.
use coroutine_durable_fork.Prelude.{ℕ, Bool, true, false, List, [], ◌∷◌, Option, none, some}
use coroutine_durable_fork.Compiler.Ast.{Expr, ident, tmp, Exprs}
use coroutine_durable_fork.Compiler.Ast
use coroutine_durable_fork.Compiler.Decompose.{Decomposed, decompose_expression}
use coroutine_durable_fork.Compiler.Desugar.Syntax.{
  define, Spec, Stmt, assign, decl_var, expr_stmt, send, return_, inc_dec, Stmts, nil, cons, ◌+++◌,
  only,
}
use coroutine_durable_fork.Compiler.Desugar.State.{
  Desugarer, Outcome, done, out_of_fuel, M, ◌>>=◌, give,
}

abbrev pub one : Expr → Exprs
one e = Ast.Exprs.cons e Ast.Exprs.nil

abbrev pub many : Exprs → Bool
many Ast.Exprs.nil = false
many (Ast.Exprs.cons e Ast.Exprs.nil) = false
many (Ast.Exprs.cons e (Ast.Exprs.cons f es)) = true

abbrev pub assigns_of : List (ℕ × Expr) → Stmts
assigns_of [] = nil
assigns_of ((i, e) ∷ as_) =
    cons (assign false (one (ident (tmp i))) define (one e)) (assigns_of as_)

abbrev pub decomposed : Desugarer → Option Decomposed → Outcome (Expr × Stmts)
decomposed d none = out_of_fuel
decomposed d (some r) = done (r.expr, assigns_of r.assigns) (record d { vars = r.vars })

-- decomposeExpression, on the state.
unfoldable pub decompose : Bool → Expr → M (Expr × Stmts)
decompose multi e d = decomposed d (decompose_expression d.vars multi e)

unfoldable pub decompose_all : Bool → Exprs → M (Exprs × Stmts)
unfolding decompose
decompose_all multi Ast.Exprs.nil = give (Ast.Exprs.nil, nil)
decompose_all multi (Ast.Exprs.cons e es) = do
  v ← decompose multi e
  vs ← decompose_all multi es
  give (Ast.Exprs.cons v.0 vs.0, v.1 +++ vs.1)

unfoldable pub decompose_specs : List Spec → M (List Spec × Stmts)
unfolding decompose_all
decompose_specs [] = give ([], nil)
decompose_specs (s ∷ ss) = do
  v ← decompose_all (many s.values) s.values
  vs ← decompose_specs ss
  give (record s { values = v.0 } ∷ vs.0, v.1 +++ vs.1)

unfoldable pub flat_map : Stmt → M Stmts
unfolding decompose_specs
flat_map (assign m l define r) = do
  v ← decompose_all (many r) r
  give (v.1 +++ only (assign m l define v.0))
flat_map (assign m l t r) = do
  u ← decompose_all true l
  v ← decompose_all true r
  give ((u.1 +++ v.1) +++ only (assign m u.0 t v.0))
flat_map (decl_var m ss) = do v ← decompose_specs ss; give (v.1 +++ only (decl_var m v.0))
flat_map (expr_stmt m e) = do v ← decompose false e; give (v.1 +++ only (expr_stmt m v.0))
flat_map (send m c e) = do
  u ← decompose true c
  v ← decompose true e
  give ((u.1 +++ v.1) +++ only (send m u.0 v.0))
flat_map (return_ m es) = do v ← decompose_all (many es) es; give (v.1 +++ only (return_ m v.0))
flat_map (inc_dec m e t) = do v ← decompose false e; give (v.1 +++ only (inc_dec m v.0 t))
flat_map s = give (only s)

-- The statements one after the other, each by `rec`.
unfoldable pub desugar_each : (Stmt → M Stmt) → Stmts → M Stmts
desugar_each rec nil = give nil
desugar_each rec (cons s ss) = do t ← rec s; ts ← desugar_each rec ss; give (cons t ts)

unfoldable pub desugar_list : (Stmt → M Stmt) → Stmts → M Stmts
unfolding flat_map desugar_each
desugar_list rec nil = give nil
desugar_list rec (cons s ss) = do
  gen ← flat_map s
  ts ← desugar_each rec gen
  rest ← desugar_list rec ss
  give (ts +++ rest)
