-- ===== src/Compiler/Syntax.antt =====
-- The statements of go/ast that the later passes of the compiler meet, after desugaring. A map
-- keyed by nodes, as dispatchSpans and mayYield, is an annotation of type `A` on each node; `E`
-- holds the expressions of the source and `L` the statements that no pass looks into.
use coroutine_durable_fork.Prelude.{ℕ, List}

-- The operators of go/token that the passes write.
pub data Token : Type 0 where
  add sub mul quo rem and or xor shl shr and_not lss : Token
  assign define : Token
  add_assign sub_assign mul_assign quo_assign rem_assign and_assign or_assign : Token
  xor_assign shl_assign shr_assign and_not_assign : Token
  inc dec illegal : Token

-- `ip` is the selector `_f.IP` of the frame.
pub data Expr (E : Type 0) : Type 0 where
  source : E → Expr E
  ip : Expr E
  literal : ℕ → Expr E
  binary : Token → Expr E → Expr E → Expr E

-- An assignment is the list of its pairs: it has as many left as right sides.
pub data Post (E : Type 0) : Type 0 where
  no_post : Post E
  inc_dec : Expr E → Token → Post E
  assignment : Token → List (Expr E × Expr E) → Post E

pub data Leaf (E L : Type 0) : Type 0 where
  plain : L → Leaf E L
  set : Expr E → Expr E → Leaf E L
  fall_through : Leaf E L

-- A case clause with no guards is the default clause.
mutual
  pub data Stmt (A E L : Type 0) : Type 0 where
    leaf : A → Leaf E L → Stmt A E L
    block : Block A E L → Stmt A E L
    if_else : A → E → Block A E L → Else A E L → Stmt A E L
    for_loop : A → List E → Post E → Block A E L → Stmt A E L
    switch : A → List E → Block A E L → Stmt A E L
    type_switch : A → E → Block A E L → Stmt A E L
    select : A → Block A E L → Stmt A E L
    case_clause : A → List (Expr E) → Stmts A E L → Stmt A E L
    comm_clause : A → L → Stmts A E L → Stmt A E L
    labeled : A → ℕ → Stmt A E L → Stmt A E L

  pub data Else (A E L : Type 0) : Type 0 where
    no_else : Else A E L
    else_do : Stmt A E L → Else A E L

  pub data Block (A E L : Type 0) : Type 0 where
    braces : A → Stmts A E L → Block A E L

  pub data Stmts (A E L : Type 0) : Type 0 where
    nil : Stmts A E L
    cons : Stmt A E L → Stmts A E L → Stmts A E L

module _ {A E L : Type 0} where
  abbrev pub block_note : Block A E L → A
  block_note (braces a ss) = a

  -- What a map keyed by nodes holds for the node.
  abbrev pub note : Stmt A E L → A
  note (leaf a l) = a
  note (block b) = block_note b
  note (if_else a c b e) = a
  note (for_loop a c p b) = a
  note (switch a t b) = a
  note (type_switch a t b) = a
  note (select a b) = a
  note (case_clause a g ss) = a
  note (comm_clause a c ss) = a
  note (labeled a l s) = a

  infixr 65 ◌+++◌
  abbrev pub ◌+++◌ : Stmts A E L → Stmts A E L → Stmts A E L
  nil +++ ts = ts
  cons s ss +++ ts = cons s (ss +++ ts)

-- The tree under a change of annotations.
unfoldable mutual
  pub renote : {A B E L : Type 0} → (A → B) → Stmt A E L → Stmt B E L
  renote f (leaf a l) = leaf (f a) l
  renote f (block b) = block (renote_block f b)
  renote f (if_else a c b e) = if_else (f a) c (renote_block f b) (renote_else f e)
  renote f (for_loop a c p b) = for_loop (f a) c p (renote_block f b)
  renote f (switch a t b) = switch (f a) t (renote_block f b)
  renote f (type_switch a t b) = type_switch (f a) t (renote_block f b)
  renote f (select a b) = select (f a) (renote_block f b)
  renote f (case_clause a g ss) = case_clause (f a) g (renote_list f ss)
  renote f (comm_clause a c ss) = comm_clause (f a) c (renote_list f ss)
  renote f (labeled a l s) = labeled (f a) l (renote f s)

  pub renote_else : {A B E L : Type 0} → (A → B) → Else A E L → Else B E L
  renote_else f no_else = no_else
  renote_else f (else_do s) = else_do (renote f s)

  pub renote_block : {A B E L : Type 0} → (A → B) → Block A E L → Block B E L
  renote_block f (braces a ss) = braces (f a) (renote_list f ss)

  pub renote_list : {A B E L : Type 0} → (A → B) → Stmts A E L → Stmts B E L
  renote_list f nil = nil
  renote_list f (cons s ss) = cons (renote f s) (renote_list f ss)
