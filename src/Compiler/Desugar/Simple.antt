-- ===== src/Compiler/Desugar/Simple.antt =====
-- The cases of desugar, compiler/desugar.go, for blocks, branches, deferred calls, conditionals and
-- labels. A case takes the recursive call, `rec`, which takes the labels to break to and to
-- continue at, and the user's label of the statement.
use coroutine_durable_fork.Prelude.{ℕ, Bool, true, false, ◌&&◌, Option, none, some, if◌then◌else◌}
use coroutine_durable_fork.Compiler.Ast.{Expr, func_lit, thunk, Exprs, may_yield}
use coroutine_durable_fork.Compiler.Ast
use coroutine_durable_fork.Compiler.Desugar.Syntax.{
  define, BranchTok, break_, continue_, goto_, fall_through, Label, of_user, generated, Stmt,
  no_stmt, assign, block, branch, case_clause, comm_clause, defer, if_, Stmts, nil, cons, ◌+++◌,
  only,
}
use coroutine_durable_fork.Compiler.Desugar.State.{
  label_not_found, not_implemented, M, ◌>>=◌, give, fail, new_var, get_user_label, use_label,
}
use coroutine_durable_fork.Compiler.Desugar.FlatMap.{one, desugar_list}

abbrev pub Rec : Type 0
Rec = Stmt → Option ℕ → Option ℕ → Option ℕ → M Stmt

-- A statement of a list, with the labels of the list and no label of its own.
abbrev pub inside : Rec → Option ℕ → Option ℕ → Stmt → M Stmt
inside rec b c s = rec s b c none

abbrev pub alone : Rec → Stmt → M Stmt
alone rec s = rec s none none none

-- The initial statement, unless it is nil.
abbrev pub init_of : Stmt → Stmts
init_of no_stmt = nil
init_of s = only s

abbrev pub with_prologue : Stmts → Stmt → Stmt
with_prologue nil s = s
with_prologue (cons p ps) s = block false (cons p ps +++ only s)

unfoldable pub desugar_block : Rec → Stmts → Option ℕ → Option ℕ → M Stmt
unfolding desugar_list
desugar_block rec ss b c = do ts ← desugar_list (inside rec b c) ss; give (block false ts)

unfoldable pub desugar_case_clause : Rec → Exprs → Stmts → Option ℕ → Option ℕ → M Stmt
unfolding desugar_list
desugar_case_clause rec es ss b c = do
  ts ← desugar_list (inside rec b c) ss
  give (case_clause false es ts)

unfoldable pub desugar_comm_clause : Rec → Stmt → Stmts → Option ℕ → Option ℕ → M Stmt
unfolding desugar_list
desugar_comm_clause rec comm ss b c = do
  ts ← desugar_list (inside rec b c) ss
  give (comm_clause false comm ts)

abbrev pub generated_label : Option ℕ → Option Label
generated_label none = none
generated_label (some l) = some (generated l)

unfoldable pub branch_to : BranchTok → Option ℕ → M Stmt
branch_to tok l = do _ ← use_label l; give (branch false tok (generated_label l))

abbrev pub branch_to_user : BranchTok → Option ℕ → M Stmt
branch_to_user tok none = fail label_not_found
branch_to_user tok (some l) = branch_to tok (some l)

-- A generated label is not the user's.
unfoldable pub desugar_branch : BranchTok → Option Label → Option ℕ → Option ℕ → M Stmt
unfolding branch_to get_user_label
desugar_branch tok (some (of_user u)) b c = do l ← get_user_label u; branch_to_user tok l
desugar_branch tok (some (generated l)) b c = fail label_not_found
desugar_branch break_ none b c = branch_to break_ b
desugar_branch continue_ none b c = branch_to continue_ c
desugar_branch goto_ none b c = fail not_implemented
desugar_branch fall_through none b c = fail not_implemented

-- A variable for each argument.
unfoldable pub temporaries : Exprs → M (Exprs × Stmts)
temporaries Ast.Exprs.nil = give (Ast.Exprs.nil, nil)
temporaries (Ast.Exprs.cons e es) = do
  v ← new_var
  r ← temporaries es
  give (Ast.Exprs.cons v r.0, cons (assign (may_yield e) (one v) define (one e)) r.1)

abbrev pub is_literal : Expr → Bool
is_literal (func_lit n) = true
is_literal (thunk es) = true
is_literal _ = false

abbrev pub is_nil : Exprs → Bool
is_nil Ast.Exprs.nil = true
is_nil (Ast.Exprs.cons e es) = false

-- The deferred call, without arguments: a literal stays, all else gets a literal around it.
abbrev pub deferred : Expr → Exprs → Stmt
deferred f args =
    if is_literal f && is_nil args
    then defer true f args
    else defer true (thunk (Ast.Exprs.cons f args)) Ast.Exprs.nil

unfoldable pub desugar_defer : Rec → Expr → Exprs → M Stmt
unfolding temporaries desugar_list
desugar_defer rec f args = do
  r ← temporaries args
  prologue ← desugar_list (alone rec) r.1
  give (with_prologue prologue (deferred f r.0))

-- A condition that may yield goes to a variable.
unfoldable pub condition : Expr → Bool → M (Expr × Stmts)
condition e false = give (e, nil)
condition e true = do v ← new_var; give (v, only (assign true (one v) define (one e)))

unfoldable pub desugar_if : Rec → Stmt → Expr → Stmt → Stmt → Option ℕ → Option ℕ → M Stmt
unfolding desugar_list condition
desugar_if rec init e body els b c = do
  v ← condition e (may_yield e)
  prologue ← desugar_list (alone rec) (init_of init +++ v.1)
  body₁ ← rec body b c none
  els₁ ← rec els b c none
  give (block false (prologue +++ only (if_ false no_stmt v.0 body₁ els₁)))

-- The user's label goes, and is passed to the statement that gets a label. Only the user's labels
-- stand in the source.
unfoldable pub desugar_labeled : Rec → Label → Stmt → Option ℕ → Option ℕ → M Stmt
desugar_labeled rec (of_user u) s b c = rec s b c (some u)
desugar_labeled rec (generated l) s b c = rec s b c none
