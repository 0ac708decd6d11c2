-- ===== src/Compiler/Desugar/Rewrite.antt =====
-- desugar of compiler/desugar.go: the method, by the kind of the statement, with the recursion on
-- fuel; and the function, which also takes away the labels that are not used. A statement that
-- does not yield stays as it is.
use coroutine_durable_fork.Prelude.{ℕ, false, zero, suc, ◌+◌, [], none, if◌then◌else◌}
use coroutine_durable_fork.Compiler.Ast.{Exprs}
use coroutine_durable_fork.Compiler.Ast
use coroutine_durable_fork.Compiler.Desugar.Syntax.{
  Stmt, bad, block, branch, case_clause, comm_clause, defer, go, for_, if_, labeled, range, select,
  switch, type_switch, assign, RangeType, map_of, Stmts, nil, cons, marked,
}
use coroutine_durable_fork.Compiler.Desugar.State.{
  Desugarer, Outcome, done, panic, out_of_fuel, give, fail, bad_stmt, not_implemented,
}
use coroutine_durable_fork.Compiler.Desugar.Simple.{
  Rec, desugar_block, desugar_branch, desugar_case_clause, desugar_comm_clause, desugar_defer,
  desugar_if, desugar_labeled,
}
use coroutine_durable_fork.Compiler.Desugar.Loop.{desugar_for, desugar_range}
use coroutine_durable_fork.Compiler.Desugar.Select.{desugar_select}
use coroutine_durable_fork.Compiler.Desugar.Switch.{desugar_switch, desugar_type_switch}
use coroutine_durable_fork.Compiler.Desugar.Labels.{remove_unused}

-- The cases, for a statement that may yield.
unfoldable pub desugar_marked : Rec → Rec
unfolding desugar_block desugar_branch desugar_case_clause desugar_comm_clause desugar_defer
    desugar_for desugar_if desugar_labeled desugar_range desugar_select desugar_switch
    desugar_type_switch
desugar_marked rec bad b c u = fail bad_stmt
desugar_marked rec (block m ss) b c u = desugar_block rec ss b c
desugar_marked rec (branch m tok l) b c u = desugar_branch tok l b c
desugar_marked rec (case_clause m es ss) b c u = desugar_case_clause rec es ss b c
desugar_marked rec (comm_clause m comm ss) b c u = desugar_comm_clause rec comm ss b c
desugar_marked rec (defer m f args) b c u = desugar_defer rec f args
desugar_marked rec (for_ m init e post body) b c u = desugar_for rec init e post body u
desugar_marked rec (go m f args) b c u = fail not_implemented
desugar_marked rec (if_ m init e body els) b c u = desugar_if rec init e body els b c
desugar_marked rec (labeled m l s) b c u = desugar_labeled rec l s b c
desugar_marked rec (range m t k v tok x body) b c u = desugar_range rec t k v x body b c u
desugar_marked rec (select m cs) b c u = desugar_select rec cs b c u
desugar_marked rec (switch m init e cs) b c u = desugar_switch rec init e cs c u
desugar_marked rec (type_switch m init a body) b c u = desugar_type_switch rec init a body c u
desugar_marked rec s b c u = give s

unfoldable pub desugar : ℕ → Rec
unfolding desugar_marked
desugar zero s b c u d = out_of_fuel
desugar (suc n) s b c u d = (if marked s then desugar_marked (desugar n) s b c u else give s) d

unfoldable pub length_all : Exprs → ℕ
length_all Ast.Exprs.nil = 0
length_all (Ast.Exprs.cons e es) = suc (length_all es)

-- The variables that a case of a select receives into.
unfoldable pub targets_of : Stmt → ℕ
unfolding length_all
targets_of (assign m lhs tok rhs) = length_all lhs
targets_of s = 0

unfoldable pub range_weight : RangeType → ℕ
range_weight (map_of t) = 20
range_weight t = 12

-- The fuel for a statement: what its parts need, and the statements that its case adds.
unfoldable mutual
  unfolding targets_of range_weight

  pub weight : Stmt → ℕ
  weight (block m ss) = suc (weight_all ss)
  weight (case_clause m es ss) = suc (weight_all ss) + 4
  weight (comm_clause m comm ss) = suc (weight_all ss) + 4 + targets_of comm
  weight (for_ m init e post body) = weight init + weight post + weight body + 6
  weight (if_ m init e body els) = weight init + weight body + weight els + 2
  weight (labeled m l s) = suc (weight s)
  weight (range m t k v tok x body) = weight body + range_weight t
  weight (select m ss) = weight_all ss + 5
  weight (switch m init e cs) = weight init + weight_all cs + 3
  weight (type_switch m init a body) = weight init + weight body + 2
  weight (defer m f args) = 2
  weight s = 1

  pub weight_all : Stmts → ℕ
  weight_all nil = 0
  weight_all (cons s ss) = weight s + weight_all ss

unfoldable pub without_unused : Outcome Stmt → Outcome Stmt
unfolding remove_unused
without_unused (done s d) = done (remove_unused false d.unused_labels s) d
without_unused (panic p) = panic p
without_unused out_of_fuel = out_of_fuel

abbrev pub initial : Desugarer
initial = record { vars = 0; labels = 0; unused_labels = []; user_labels = [] }

unfoldable pub desugar_stmt : Stmt → Outcome Stmt
unfolding desugar weight without_unused
desugar_stmt s = without_unused (desugar (weight s) s none none none initial)
