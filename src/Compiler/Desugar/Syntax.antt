-- ===== src/Compiler/Desugar/Syntax.antt =====
-- The statements of go/ast, before and after desugar. A statement carries whether it is in the set
-- nodesThatMayYield; a nil statement is `no_stmt`. A label is a number, that of the user's own or
-- that of `_l`. The type of a range expression stands in the range statement.
use coroutine_durable_fork.Prelude.{ℕ, Bool, true, false, ◌||◌, List, Option}
use coroutine_durable_fork.Compiler.Ast.{Name, Expr, Exprs}

pub data Tok : Type 0 where
  define assign_tok inc dec : Tok
  other_tok : ℕ → Tok

pub data BranchTok : Type 0 where
  break_ continue_ goto_ fall_through : BranchTok

pub data Label : Type 0 where
  of_user generated : ℕ → Label

-- What a variable is declared with: a type, the type of an expression, or none.
pub data SpecType : Type 0 where
  no_type : SpecType
  written : ℕ → SpecType
  type_of : Expr → SpecType

pub record Spec : Type 0 where
  pub names : List Name
  pub typ : SpecType
  pub values : Exprs

-- An array or a slice; a map, with the type of slices of its keys.
pub data RangeType : Type 0 where
  sequence other_type : RangeType
  map_of : ℕ → RangeType

mutual
  pub data Stmt : Type 0 where
    no_stmt bad empty : Stmt
    assign : Bool → Exprs → Tok → Exprs → Stmt
    decl_var : Bool → List Spec → Stmt
    decl_other : Bool → ℕ → Stmt
    expr_stmt : Bool → Expr → Stmt
    send : Bool → Expr → Expr → Stmt
    return_ : Bool → Exprs → Stmt
    inc_dec : Bool → Expr → Tok → Stmt
    block : Bool → Stmts → Stmt
    branch : Bool → BranchTok → Option Label → Stmt
    case_clause : Bool → Exprs → Stmts → Stmt
    comm_clause : Bool → Stmt → Stmts → Stmt
    defer go : Bool → Expr → Exprs → Stmt
    for_ : Bool → Stmt → Expr → Stmt → Stmt → Stmt
    if_ : Bool → Stmt → Expr → Stmt → Stmt → Stmt
    labeled : Bool → Label → Stmt → Stmt
    range : Bool → RangeType → Expr → Expr → Tok → Expr → Stmt → Stmt
    select : Bool → Stmts → Stmt
    switch : Bool → Stmt → Expr → Stmts → Stmt
    type_switch : Bool → Stmt → Stmt → Stmt → Stmt

  pub data Stmts : Type 0 where
    nil : Stmts
    cons : Stmt → Stmts → Stmts

infixr 65 ◌+++◌
abbrev pub ◌+++◌ : Stmts → Stmts → Stmts
nil +++ ts = ts
cons s ss +++ ts = cons s (ss +++ ts)

abbrev pub only : Stmt → Stmts
only s = cons s nil

-- mayYield of desugar.go, for a statement.
abbrev pub marked : Stmt → Bool
marked no_stmt = false
marked bad = true
marked empty = false
marked (assign m l t r) = m
marked (decl_var m s) = m
marked (decl_other m n) = m
marked (expr_stmt m e) = m
marked (send m c v) = m
marked (return_ m es) = m
marked (inc_dec m e t) = m
marked (block m ss) = m
marked (branch m t l) = m
marked (case_clause m es ss) = m
marked (comm_clause m c ss) = m
marked (defer m f es) = m
marked (go m f es) = m
marked (for_ m i c p b) = m
marked (if_ m i c b e) = m
marked (labeled m l s) = m
marked (range m t k v o x b) = m
marked (select m ss) = m
marked (switch m i t ss) = m
marked (type_switch m i a b) = m

abbrev pub any_marked : Stmts → Bool
any_marked nil = false
any_marked (cons s ss) = marked s || any_marked ss

abbrev pub list_of : Stmt → Stmts
list_of (block m ss) = ss
list_of s = nil
