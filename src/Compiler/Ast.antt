-- ===== src/Compiler/Ast.antt =====
-- The expressions of go/ast, as far as the passes of compiler/ tell them apart. A node carries
-- whether it is in the set nodesThatMayYield; the parts of a node stand in the order in which
-- desugar.go visits them. An identifier is its name, a nil expression is `absent`. Broken code,
-- ast.BadExpr, does not get past the type checker and is left out.
use coroutine_durable_fork.Prelude.{ℕ, suc, ◌+◌, Bool, false}

-- A temporary variable is `_v` with its number.
pub data Name : Type 0 where
  user : ℕ → Name
  tmp : ℕ → Name
  underscore len make append : Name

pub data Op : Type 0 where
  not_ eql or_ lss arrow land lor : Op
  other : ℕ → Op

-- A call says whether it has several results.
pub data Kind : Type 0 where
  binary unary : Op → Kind
  call : Bool → Kind
  composite_lit index_list selector type_assert : ℕ → Kind
  ellipsis index key_value paren slice star : Kind

mutual
  pub data Expr : Type 0 where
    ident : Name → Expr
    basic_lit func_lit type_expr : ℕ → Expr
    thunk : Exprs → Expr
    absent : Expr
    node : Bool → Kind → Exprs → Expr

  pub data Exprs : Type 0 where
    nil : Exprs
    cons : Expr → Exprs → Exprs

-- mayYield of desugar.go. A selector on an identifier does not yield, whatever the set says.
unfoldable pub may_yield : Expr → Bool
may_yield (node m (selector s) (cons (ident x) nil)) = false
may_yield (node m k es) = m
may_yield _ = false

unfoldable mutual
  pub size : Expr → ℕ
  size (node m k es) = suc (size_all es)
  size _ = 1

  pub size_all : Exprs → ℕ
  size_all nil = 0
  size_all (cons e es) = size e + size_all es
