-- ===== src/Compiler/Desugar/Select.antt =====
-- The case of desugar, compiler/desugar.go, for select: a select that only records the selection,
-- then a switch over it with the bodies. The literal i is `basic_lit i`.
use coroutine_durable_fork.Prelude.{ℕ, suc, Bool, false, ◌||◌, [], ◌∷◌, Option}
use coroutine_durable_fork.Compiler.Ast.{
  Name, underscore, arrow, Op, unary, Expr, ident, basic_lit, node, Exprs, may_yield,
}
use coroutine_durable_fork.Compiler.Ast
use coroutine_durable_fork.Compiler.Desugar.Syntax.{
  Tok, define, assign_tok, type_of, Stmt, no_stmt, assign, decl_var, expr_stmt, send, block,
  case_clause, comm_clause, select, switch, Stmts, nil, cons, ◌+++◌, only, any_marked,
}
use coroutine_durable_fork.Compiler.Desugar.State.{
  unexpected_case, type_assertion, M, ◌>>=◌, give, fail, new_var,
}
use coroutine_durable_fork.Compiler.Desugar.FlatMap.{one, desugar_list}
use coroutine_durable_fork.Compiler.Desugar.Simple.{Rec, alone}

-- What a communication leaves before the select, in it, and before the body of its case, and
-- whether the latter may yield.
pub record Comm : Type 0 where
  pub prologue : Stmts
  pub comm : Stmt
  pub assigns : Stmts
  pub yields : Bool

-- The operand of a receive operation.
abbrev pub received : Expr → M Expr
received (node m (unary arrow) (Ast.Exprs.cons x Ast.Exprs.nil)) = give x
received (node m (unary o) es) = fail unexpected_case
received e = fail type_assertion

abbrev pub with_operand : Expr → Expr → Expr
with_operand (node m k es) x = node m k (one x)
with_operand e x = e

abbrev pub name_of : Expr → Name
name_of (ident x) = x
name_of e = underscore

-- What a case receives into: variables declared before the select, assigned on before the body.
pub record Targets : Type 0 where
  pub temporaries : Exprs
  pub declared : Stmts
  pub copied : Stmts
  pub yields : Bool

abbrev pub add_target : Expr → Tok → Expr → Targets → Targets
add_target e tok v r = record {
  temporaries = Ast.Exprs.cons v r.temporaries;
  declared =
      cons
        (decl_var false
          (record { names = name_of v ∷ []; typ = type_of e; values = Ast.Exprs.nil } ∷ []))
        r.declared;
  copied = cons (assign (may_yield e) (one e) tok (one v)) r.copied;
  yields = may_yield e || r.yields;
}

unfoldable pub targets : Tok → Exprs → M Targets
targets tok Ast.Exprs.nil =
    give (record { temporaries = Ast.Exprs.nil; declared = nil; copied = nil; yields = false })
targets tok (Ast.Exprs.cons e es) = do v ← new_var; r ← targets tok es; give (add_target e tok v r)

-- x := e, not in the set of what may yield.
abbrev pub unmarked : Expr → Expr → Stmt
unmarked x e = assign false (one x) define (one e)

unfoldable pub desugar_comm : Stmt → M Comm
unfolding targets
desugar_comm no_stmt =
    give (record { prologue = nil; comm = no_stmt; assigns = nil; yields = false })
desugar_comm (send m c e) = do
  x ← new_var
  y ← new_var
  give (record {
    prologue = cons (assign (may_yield c) (one x) define (one c)) (only (unmarked y e));
    comm = send m x y;
    assigns = nil;
    yields = false;
  })
desugar_comm (expr_stmt m e) = do
  c ← received e
  x ← new_var
  give (record {
    prologue = only (unmarked x c);
    comm = expr_stmt m (with_operand e x);
    assigns = nil;
    yields = false;
  })
desugar_comm (assign m lhs tok (Ast.Exprs.cons e Ast.Exprs.nil)) = do
  c ← received e
  x ← new_var
  r ← targets tok lhs
  give (record {
    prologue = cons (unmarked x c) r.declared;
    comm = assign m r.temporaries assign_tok (one (with_operand e x));
    assigns = r.copied;
    yields = r.yields;
  })
desugar_comm s = fail unexpected_case

pub record Selected : Type 0 where
  pub prologue : Stmts
  pub raw : Stmts
  pub clauses : Stmts
  pub yields : Bool

-- The case `i` of the select, and that of the switch.
abbrev pub add_clause : Expr → ℕ → Stmts → Comm → Selected → Selected
add_clause x i body r s = record {
  prologue = r.prologue +++ s.prologue;
  raw =
      cons (comm_clause false r.comm (only (assign false (one x) assign_tok (one (basic_lit i)))))
        s.raw;
  clauses =
      cons (case_clause (any_marked body || r.yields) (one (basic_lit i)) (r.assigns +++ body))
        s.clauses;
  yields = (any_marked body || r.yields) || s.yields;
}

unfoldable pub select_clauses : Expr → ℕ → Stmts → M Selected
unfolding desugar_comm
select_clauses x i nil = give (record { prologue = nil; raw = nil; clauses = nil; yields = false })
select_clauses x i (cons (comm_clause m comm body) cs) = do
  r ← desugar_comm comm
  s ← select_clauses x (suc i) cs
  give (add_clause x i body r s)
select_clauses x i (cons c cs) = fail type_assertion

unfoldable pub desugar_select : Rec → Stmts → Option ℕ → Option ℕ → Option ℕ → M Stmt
unfolding select_clauses desugar_list
desugar_select rec nil b c u = give (select false nil)
desugar_select rec (cons s ss) b c u = do
  x ← new_var
  r ← select_clauses x 1 (cons s ss)
  prologue ← desugar_list (alone rec) (cons (unmarked x (basic_lit 0)) r.prologue)
  t ← rec (switch r.yields no_stmt x r.clauses) b c u
  give (block false (prologue +++ cons (select false r.raw) (only t)))
