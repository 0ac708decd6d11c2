-- ===== src/Compiler/Desugar/Labels.antt =====
-- The second pass of desugar, compiler/desugar.go: the labels that no branch uses go. astutil.Apply
-- walks what was below a statement also when it has been replaced. So a replacement is lost at the
-- root, as the result of Apply is not used, and below a label that goes: there `live` is false.
use coroutine_durable_fork.Prelude.{ℕ, Bool, true, false, ◌&&◌, List, if◌then◌else◌}
use coroutine_durable_fork.Compiler.Desugar.Syntax.{
  of_user, generated, Stmt, block, case_clause, comm_clause, for_, if_, labeled, range, select,
  switch, type_switch, Stmts, nil, cons,
}
use coroutine_durable_fork.Compiler.Desugar.State.{is_member}

unfoldable mutual
  pub remove_unused : Bool → List ℕ → Stmt → Stmt
  remove_unused live ls (block m ss) = block m (remove_unused_all ls ss)
  remove_unused live ls (case_clause m es ss) = case_clause m es (remove_unused_all ls ss)
  remove_unused live ls (comm_clause m c ss) = comm_clause m c (remove_unused_all ls ss)
  remove_unused live ls (for_ m i c p b) = for_ m i c p (remove_unused true ls b)
  remove_unused live ls (if_ m i c b e) =
      if_ m i c (remove_unused true ls b) (remove_unused true ls e)
  remove_unused live ls (labeled m (of_user u) s) = labeled m (of_user u) (remove_unused true ls s)
  remove_unused live ls (labeled m (generated l) s) =
      let t = remove_unused true ls s in
      let u = remove_unused false ls s in
      if live && is_member l ls then u else labeled m (generated l) t
  remove_unused live ls (range m t k v o x b) = range m t k v o x (remove_unused true ls b)
  remove_unused live ls (select m ss) = select m (remove_unused_all ls ss)
  remove_unused live ls (switch m i t ss) = switch m i t (remove_unused_all ls ss)
  remove_unused live ls (type_switch m i a b) = type_switch m i a (remove_unused true ls b)
  remove_unused live ls s = s

  pub remove_unused_all : List ℕ → Stmts → Stmts
  remove_unused_all ls nil = nil
  remove_unused_all ls (cons s ss) = cons (remove_unused true ls s) (remove_unused_all ls ss)
