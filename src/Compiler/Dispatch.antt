-- ===== src/Compiler/Dispatch.antt =====
-- compiler/dispatch.go: spans of statement numbers, and the switches by which a resumed function
-- finds its way back to the statement where it stopped.
pub mod Spans
pub mod Resume
pub mod Fall
use coroutine_durable_fork.Prelude.{
  ℕ, suc, ◌+◌, Bool, true, false, List, [], ◌∷◌, ◌++◌, map, if◌then◌else◌,
}
use coroutine_durable_fork.Compiler.Syntax.{
  Token, add, sub, mul, quo, rem, and, or, xor, shl, shr, and_not, lss, assign, add_assign,
  sub_assign, mul_assign, quo_assign, rem_assign, and_assign, or_assign, xor_assign, shl_assign,
  shr_assign, and_not_assign, inc, dec, illegal, Expr, ip, literal, binary, Post, no_post, inc_dec,
  assignment, Leaf, set, fall_through, Stmt, leaf, block, if_else, for_loop, switch, type_switch,
  select, case_clause, comm_clause, labeled, Else, no_else, else_do, Block, braces, Stmts, nil,
  cons, note, renote, renote_else, renote_block, renote_list,
}

-- From `start` up to, and without, `end`.
pub record Span : Type 0 where
  pub start : ℕ
  pub end : ℕ

-- What the maps mayYield and dispatchSpans hold for a node.
pub record Note : Type 0 where
  pub span : Span
  pub yields : Bool

abbrev pub span_of : Bool → ℕ → ℕ → Note
span_of yields start end = record { span = record { start = start; end = end }; yields = yields }

-- trackDispatchSpans0: the tree with its spans, and the next number.
unfoldable mutual
  pub track : {E L : Type 0} → Stmt Bool E L → ℕ → Stmt Note E L × ℕ
  track (leaf a l) n = (leaf (span_of a n (n + 1)) l, n + 1)
  track (block b) n = let (b₁, m) = track_block b n in (block b₁, m)
  track (if_else a c b e) n =
      let (b₁, m) = track_block b n in
      let (e₁, k) = track_else e m in (if_else (span_of a n k) c b₁ e₁, k)
  track (for_loop a c p b) n = let (b₁, m) = track_block b n in (for_loop (span_of a n m) c p b₁, m)
  track (switch a t b) n = let (b₁, m) = track_block b n in (switch (span_of a n m) t b₁, m)
  track (type_switch a t b) n =
      let (b₁, m) = track_block b n in (type_switch (span_of a n m) t b₁, m)
  track (select a b) n = let (b₁, m) = track_block b n in (select (span_of a n m) b₁, m)
  track (case_clause a g ss) n =
      let (ss₁, m) = track_list ss n in (case_clause (span_of a n m) g ss₁, m)
  track (comm_clause a c ss) n =
      let (ss₁, m) = track_list ss n in (comm_clause (span_of a n m) c ss₁, m)
  track (labeled a l s) n = let (s₁, m) = track s n in (labeled (span_of a n m) l s₁, m)

  pub track_else : {E L : Type 0} → Else Bool E L → ℕ → Else Note E L × ℕ
  track_else no_else n = (no_else, n)
  track_else (else_do s) n = let (s₁, m) = track s n in (else_do s₁, m)

  pub track_block : {E L : Type 0} → Block Bool E L → ℕ → Block Note E L × ℕ
  track_block (braces a nil) n = (braces (span_of a n (n + 1)) nil, n + 1)
  track_block (braces a (cons s ss)) n =
      let (s₁, m) = track s n in
      let (ss₁, k) = track_list ss m in (braces (span_of a n k) (cons s₁ ss₁), k)

  pub track_list : {E L : Type 0} → Stmts Bool E L → ℕ → Stmts Note E L × ℕ
  track_list nil n = (nil, n)
  track_list (cons s ss) n =
      let (s₁, m) = track s n in let (ss₁, k) = track_list ss m in (cons s₁ ss₁, k)

-- trackDispatchSpans
unfoldable pub track_dispatch_spans : {E L : Type 0} → Block Bool E L → Block Note E L
track_dispatch_spans b = (track_block b 1).0

-- The operator of x++ and x--, and of an assignment x op= y.
unfoldable pub step_operator : Token → Token
step_operator inc = add
step_operator dec = sub
step_operator _ = illegal

unfoldable pub operator : Token → Token
operator add_assign = add
operator sub_assign = sub
operator mul_assign = mul
operator quo_assign = quo
operator rem_assign = rem
operator and_assign = and
operator or_assign = or
operator xor_assign = xor
operator shl_assign = shl
operator shr_assign = shr
operator and_not_assign = and_not
operator _ = illegal

abbrev is_assign : Token → Bool
is_assign assign = true
is_assign _ = false

module _ {E : Type 0} where
  abbrev pub plain_pairs : Token → List (Expr E × Expr E) → List (Expr E × Expr E)
  plain_pairs t ps = if is_assign t then ps else map (λ (x, y). (x, binary (operator t) x y)) ps

  -- The post statement of a loop as pairs of a parallel assignment.
  abbrev pub post_pairs : Post E → List (Expr E × Expr E)
  post_pairs no_post = []
  post_pairs (inc_dec x t) = (x, binary (step_operator t) x (literal 1)) ∷ []
  post_pairs (assignment t ps) = plain_pairs t ps

  -- Each round of a compiled loop begins at the start of its body.
  unfoldable pub compile_post : Post E → ℕ → Post E
  unfolding operator step_operator
  compile_post p start = assignment assign (post_pairs p ++ (ip, literal start) ∷ [])

  -- _f.IP < end
  abbrev pub below : ℕ → Expr E
  below end = binary lss ip (literal end)

abbrev pub strip : {E L : Type 0} → Stmt Note E L → Stmt (Unit {0}) E L
strip = renote (λ _. tt)

-- unnestBlocks: out of the braces round a single statement.
unfoldable pub unnest : {A E L : Type 0} → Stmt A E L → Stmt A E L
unnest (block (braces a (cons s nil))) = unnest s
unnest s = s

module _ {E L : Type 0} where
  -- What follows a statement that is not the last: _f.IP = end; fallthrough.
  abbrev pub passing_on : ℕ → Stmts (Unit {0}) E L
  passing_on end = cons (leaf tt (set ip (literal end))) (cons (leaf tt fall_through) nil)

  -- The clauses of compileDispatch0, from the statements with their spans and the compiled ones.
  unfoldable pub cases : Stmts Note E L → Stmts (Unit {0}) E L → Stmts (Unit {0}) E L
  cases (cons s nil) (cons c cs) =
      cons (case_clause tt (below (note s).span.end ∷ []) (cons (unnest c) nil)) nil
  cases (cons s (cons t ss)) (cons c cs) =
      cons
        (case_clause tt (below (note s).span.end ∷ [])
          (cons (unnest c) (passing_on (note s).span.end)))
        (cases (cons t ss) cs)
  cases _ _ = nil

  -- The list of a block or clause: a single statement loses its braces, more become a switch.
  unfoldable pub arrange : Stmts Note E L → Stmts (Unit {0}) E L → Stmts (Unit {0}) E L
  unfolding cases
  arrange nil cs = nil
  arrange (cons s nil) (cons c cs) = cons (unnest c) nil
  arrange (cons s nil) nil = nil
  arrange (cons s (cons t ss)) cs =
      cons (switch tt [] (braces tt (cases (cons s (cons t ss)) cs))) nil

-- compileDispatch. A node that cannot yield stays as it is.
unfoldable mutual
  unfolding arrange compile_post

  pub compile : {E L : Type 0} → Stmt Note E L → Stmt (Unit {0}) E L
  compile (leaf a l) = leaf tt l
  compile (block b) = block (compile_block b)
  compile (if_else a c b e) =
      if a.yields then if_else tt c (compile_block b) (compile_else e) else strip (if_else a c b e)
  compile (for_loop a c p b) =
      if a.yields
      then for_loop tt c (compile_post p a.span.start) (compile_block b)
      else strip (for_loop a c p b)
  compile (switch a t (braces b ss)) =
      if a.yields
      then switch tt t (braces tt (compile_each ss))
      else strip (switch a t (braces b ss))
  compile (type_switch a t (braces b ss)) =
      if a.yields
      then type_switch tt t (braces tt (compile_each ss))
      else strip (type_switch a t (braces b ss))
  compile (select a (braces b ss)) =
      if a.yields then select tt (braces tt (compile_each ss)) else strip (select a (braces b ss))
  compile (case_clause a g ss) =
      if a.yields
      then case_clause tt g (arrange ss (compile_each ss))
      else strip (case_clause a g ss)
  compile (comm_clause a c ss) =
      if a.yields
      then comm_clause tt c (arrange ss (compile_each ss))
      else strip (comm_clause a c ss)
  compile (labeled a l s) = if a.yields then labeled tt l (compile s) else strip (labeled a l s)

  pub compile_else : {E L : Type 0} → Else Note E L → Else (Unit {0}) E L
  compile_else no_else = no_else
  compile_else (else_do s) = else_do (compile s)

  pub compile_block : {E L : Type 0} → Block Note E L → Block (Unit {0}) E L
  compile_block (braces a ss) =
      if a.yields
      then braces tt (arrange ss (compile_each ss))
      else renote_block (λ _. tt) (braces a ss)

  pub compile_each : {E L : Type 0} → Stmts Note E L → Stmts (Unit {0}) E L
  compile_each nil = nil
  compile_each (cons s ss) = cons (compile s) (compile_each ss)
