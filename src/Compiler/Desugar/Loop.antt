-- ===== src/Compiler/Desugar/Loop.antt =====
-- The cases of desugar, compiler/desugar.go, for loops: a condition that may yield becomes a guard
-- in the body, and a range becomes a loop over the indices, for a map over those of its keys.
use coroutine_durable_fork.Prelude.{ℕ, Bool, true, false, ◌&&◌, Option, none, some, if◌then◌else◌}
use coroutine_durable_fork.Compiler.Ast.{
  underscore, len, make, append, not_, lss, binary, unary, call, index, Expr, ident, basic_lit,
  type_expr, absent, node, Exprs, may_yield,
}
use coroutine_durable_fork.Compiler.Ast
use coroutine_durable_fork.Compiler.Desugar.Syntax.{
  define, assign_tok, inc, break_, generated, RangeType, sequence, map_of, other_type, Stmt,
  no_stmt, assign, inc_dec, block, branch, for_, if_, labeled, range, Stmts, cons, ◌+++◌, only,
  marked, list_of,
}
use coroutine_durable_fork.Compiler.Desugar.State.{
  not_implemented, type_assertion, M, ◌>>=◌, give, fail, new_var, new_label, add_user_label,
}
use coroutine_durable_fork.Compiler.Desugar.FlatMap.{one, desugar_list}
use coroutine_durable_fork.Compiler.Desugar.Simple.{Rec, alone}

abbrev pub pair : Expr → Expr → Exprs
pair e f = Ast.Exprs.cons e (one f)

-- if !cond { break }
abbrev pub guard : Expr → Stmt
guard e =
    if_ true no_stmt (node true (unary not_) (one e)) (block true (only (branch true break_ none)))
      no_stmt

-- The body, with the guard where the condition may yield.
abbrev pub guarded : Expr → Stmt → Stmt
guarded e body =
    if may_yield e
    then block true (cons (guard e) (list_of body))
    else block (marked body) (list_of body)

unfoldable pub with_init : Rec → Stmt → Stmt → M Stmt
unfolding desugar_list
with_init rec no_stmt s = give s
with_init rec init s = do
  prologue ← desugar_list (alone rec) (only init)
  give (block false (prologue +++ only s))

unfoldable pub desugar_for : Rec → Stmt → Expr → Stmt → Stmt → Option ℕ → M Stmt
unfolding with_init
desugar_for rec init e post body u = do
  l ← new_label
  _ ← add_user_label u l
  body₁ ← rec (guarded e body) (some l) (some l) none
  post₁ ← rec post none none none
  with_init rec init (
      labeled false (generated l)
        (for_ false no_stmt (if may_yield e then absent else e) post₁ body₁))

-- Nil, or the underscore.
abbrev pub is_blank : Expr → Bool
is_blank absent = true
is_blank (ident underscore) = true
is_blank _ = false

abbrev pub len_of : Expr → Expr
len_of x = node false (call false) (pair (ident len) x)

abbrev pub item : Expr → Expr → Expr
item x i = node false index (pair x i)

-- for i := 0; i < len(x); i++ { body }
abbrev pub count_loop : Expr → Expr → Bool → Stmt → Stmt
count_loop i x m body =
    for_ m (assign false (one i) define (one (basic_lit 0)))
      (node false (binary lss) (pair i (len_of x))) (inc_dec false i inc) body

-- The key, or a variable in its place.
unfoldable pub key_or_new : Expr → M Expr
key_or_new absent = new_var
key_or_new (ident underscore) = new_var
key_or_new (ident x) = give (ident x)
key_or_new e = fail type_assertion

-- v := x[i] before the body.
abbrev pub with_value : Expr → Expr → Expr → Stmt → Stmt
with_value v x i body =
    if is_blank v
    then body
    else block (marked body) (cons (assign false (one v) define (one (item x i))) (list_of body))

unfoldable pub range_sequence :
    Rec → Expr → Expr → Expr → Stmt → Stmts → Option ℕ → Option ℕ → Option ℕ → M Stmt
unfolding key_or_new
range_sequence rec k v x body prologue b c u = do
  i ← key_or_new k
  s ← rec (count_loop i x (marked body) (with_value v x i body)) b c u
  give (block false (prologue +++ only s))

-- _keys := make([]keyType, 0, len(_map)); for k := range _map { _keys = append(_keys, k) }
abbrev pub collect_keys : ℕ → Expr → Expr → Expr → Stmt
collect_keys t keys k x = block false (
    cons
      (assign false (one keys) define (
        one (
          node false (call false) (
            Ast.Exprs.cons (ident make)
              (Ast.Exprs.cons (type_expr t) (pair (basic_lit 0) (len_of x)))))))
      (only (
        range false (map_of t) k absent define x (
          block false (
            only (
              assign false (one keys) assign_tok
                (one (node false (call false) (Ast.Exprs.cons (ident append) (pair keys k))))))))))

abbrev pub map_value : Expr → M Expr
map_value absent = give (ident underscore)
map_value (ident x) = give (ident x)
map_value e = fail type_assertion

-- for _, mapKey := range _keys { if mapValue, ok := _map[mapKey]; ok { body } }
abbrev pub keys_loop : Expr → Expr → Expr → Expr → Expr → Stmt → Stmt
keys_loop keys x k v ok body = range (marked body) sequence absent k define keys (
    block (marked body)
      (only (if_ (marked body) (assign false (pair v ok) define (one (item x k))) ok body no_stmt)))

unfoldable pub range_entries :
    Rec → ℕ → Expr → Expr → Expr → Stmt → Stmts → Option ℕ → Option ℕ → Option ℕ → M Stmt
unfolding key_or_new
range_entries rec t k v x body prologue b c u = do
  keys ← new_var
  y ← new_var
  k₁ ← key_or_new k
  v₁ ← map_value v
  ok ← new_var
  s ← rec (keys_loop keys x k₁ v₁ ok body) b c u
  give (block false (prologue +++ cons (collect_keys t keys y x) (only s)))

unfoldable pub range_count : Rec → Expr → Stmt → Stmts → Option ℕ → Option ℕ → Option ℕ → M Stmt
range_count rec x body prologue b c u = do
  i ← new_var
  s ← rec (count_loop i x (marked body) body) b c u
  give (block false (prologue +++ only s))

unfoldable pub range_map :
    Rec → ℕ → Expr → Expr → Expr → Stmt → Stmts → Option ℕ → Option ℕ → Option ℕ → M Stmt
unfolding range_count range_entries
range_map rec t k v x body prologue b c u =
    if is_blank k && is_blank v
    then range_count rec x body prologue b c u
    else range_entries rec t k v x body prologue b c u

unfoldable pub range_over :
    Rec → RangeType → Expr → Expr → Expr → Stmt → Stmts → Option ℕ → Option ℕ → Option ℕ → M Stmt
unfolding range_sequence range_map
range_over rec sequence k v x body p b c u = range_sequence rec k v x body p b c u
range_over rec (map_of t) k v x body p b c u = range_map rec t k v x body p b c u
range_over rec other_type k v x body p b c u = fail not_implemented

unfoldable pub desugar_range :
    Rec → RangeType → Expr → Expr → Expr → Stmt → Option ℕ → Option ℕ → Option ℕ → M Stmt
unfolding desugar_list range_over
desugar_range rec t k v x body b c u = do
  y ← new_var
  prologue ← desugar_list (alone rec) (only (assign (may_yield x) (one y) define (one x)))
  range_over rec t k v y body prologue b c u
