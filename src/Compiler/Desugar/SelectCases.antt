-- ===== src/Compiler/Desugar/SelectCases.antt =====
-- The case of desugar, compiler/desugar.go, for select, by what is promised of the recursive call.
use coroutine_durable_fork.Prelude.{ℕ, suc, Bool, ◌+◌, ◌≤◌, ◌≡◌, Option, none, arith}
use coroutine_durable_fork.Compiler.Ast.{arrow, unary, Expr, basic_lit, node, Exprs, may_yield}
use coroutine_durable_fork.Compiler.Ast
use coroutine_durable_fork.Compiler.Desugar.Syntax.{
  Tok, Stmt, no_stmt, assign, expr_stmt, send, comm_clause, switch, Stmts, nil, cons, ◌+++◌,
}
use coroutine_durable_fork.Compiler.Desugar.State.{Desugarer, new_var}
use coroutine_durable_fork.Compiler.Desugar.FlatMap.{desugar_list}
use coroutine_durable_fork.Compiler.Desugar.Simple.{Rec, inside}
use coroutine_durable_fork.Compiler.Desugar.Select.{
  Comm, received, Targets, targets, unmarked, desugar_comm, Selected, add_clause, select_clauses,
  desugar_select,
}
use coroutine_durable_fork.Compiler.Desugar.Meets.{
  IsGood, IsBelow, IsBelow-Extends, Extends-trans, Holds, panics, Holds-bind, Holds-give, Any,
  new_var-Holds,
}
use coroutine_durable_fork.Compiler.Desugar.Branches.{
  Branches, AllBranches, IsSource, IsLinked, AreLinked, AreLinked-Extends, AllBranches-append, Fits,
  AllFit, AllFit-append,
}
use coroutine_durable_fork.Compiler.Desugar.Rewrite.{weight, weight_all, targets_of, length_all}
use coroutine_durable_fork.Compiler.Desugar.Lists.{Each}
use coroutine_durable_fork.Compiler.Desugar.SimpleCases.{prologue-Holds}

weight_all-append : (ss ts : Stmts) → weight_all (ss +++ ts) ≡ weight_all ss + weight_all ts
unfolding weight_all
weight_all-append nil ts = omega arith
weight_all-append (cons s ss) ts = omega (arith, weight_all-append ss ts)

-- The variables are declared before, and what is copied fits in the place of the targets.
record TargetsFit (n : ℕ) (es : Exprs) (r : Targets) : Type 0 where
  declared : AllFit n r.declared
  small : weight_all r.copied ≤ length_all es
  source : AllBranches (λ l. ⊥) r.copied

targets-Holds :
    (n : ℕ) (tok : Tok) (es : Exprs) (d : Desugarer)
    → 1 ≤ n
    → IsGood d
    → Holds (λ r e. TargetsFit n es r) d (targets tok es d)
unfolding targets AllFit Fits weight IsSource Branches length_all
targets-Holds n tok Ast.Exprs.nil d h g =
    Holds-give _ _ _ g (record { declared = tt; small = omega arith; source = tt })
targets-Holds n tok (Ast.Exprs.cons e es) d h g =
    Holds-bind _ new_var _ (new_var-Holds d g) (λ v d₁ g₁ k₁ _.
      Holds-bind _ (targets tok es) _ (targets-Holds n tok es d₁ h g₁) (λ r d₂ g₂ k₂ q.
        Holds-give _ _ _ g₂ (record {
          declared = ((h, tt), q.declared);
          small = omega (arith, q.small);
          source = (tt, q.source);
        })))

record CommFits (n : ℕ) (s : Stmt) (r : Comm) : Type 0 where
  prologue : AllFit n r.prologue
  small : weight_all r.assigns ≤ targets_of s
  source : AllBranches (λ l. ⊥) r.assigns

received-Holds : (e : Expr) (d : Desugarer) → IsGood d → Holds Any d (received e d)
received-Holds (node m (unary arrow) (Ast.Exprs.cons x Ast.Exprs.nil)) d g = Holds-give _ _ _ g tt
received-Holds (node m (unary o) es) d g = panics _
received-Holds e d g = panics _

desugar_comm-Holds :
    (n : ℕ) (s : Stmt) (d : Desugarer)
    → 1 ≤ n
    → IsGood d
    → Holds (λ r e. CommFits n s r) d (desugar_comm s d)
unfolding desugar_comm AllFit Fits weight IsSource Branches targets_of
desugar_comm-Holds n no_stmt d h g =
    Holds-give _ _ _ g (record { prologue = tt; small = omega arith; source = tt })
desugar_comm-Holds n (send m c e) d h g =
    Holds-bind _ new_var _ (new_var-Holds d g) (λ x d₁ g₁ k₁ _.
      Holds-bind _ new_var _ (new_var-Holds d₁ g₁) (λ y d₂ g₂ k₂ _.
        Holds-give _ _ _ g₂
          (record { prologue = ((h, tt), ((h, tt), tt)); small = omega arith; source = tt })))
desugar_comm-Holds n (expr_stmt m e) d h g =
    Holds-bind _ (received e) _ (received-Holds e d g) (λ c d₁ g₁ k₁ _.
      Holds-bind _ new_var _ (new_var-Holds d₁ g₁) (λ y d₂ g₂ k₂ _.
        Holds-give _ _ _ g₂
          (record { prologue = ((h, tt), tt); small = omega arith; source = tt })))
desugar_comm-Holds n (assign m lhs tok (Ast.Exprs.cons e Ast.Exprs.nil)) d h g =
    Holds-bind _ (received e) _ (received-Holds e d g) (λ c d₁ g₁ k₁ _.
      Holds-bind _ new_var _ (new_var-Holds d₁ g₁) (λ x d₂ g₂ k₂ _.
        Holds-bind _ (targets tok lhs) _ (targets-Holds n tok lhs d₂ h g₂) (λ r d₃ g₃ k₃ q.
          Holds-give _ _ _ g₃
            (record { prologue = ((h, tt), q.declared); small = q.small; source = q.source }))))
desugar_comm-Holds n s d h g = panics _

record SelectedFits (n : ℕ) (cs : Stmts) (r : Selected) : Type 0 where
  prologue : AllFit n r.prologue
  small : weight_all r.clauses ≤ weight_all cs
  source : AllBranches (λ l. ⊥) r.clauses
  raw : (e : Desugarer) → AreLinked r.raw e

add_clause-SelectedFits :
    (n : ℕ) (x : Expr) (i : ℕ) (comm : Stmt) (body cs : Stmts) (marked : Bool) (r : Comm)
    (s : Selected)
    → AllBranches (λ l. ⊥) body
    → CommFits n comm r
    → SelectedFits n cs s
    → SelectedFits n (cons (comm_clause marked comm body) cs) (add_clause x i body r s)
unfolding weight_all weight AreLinked Branches
add_clause-SelectedFits n x i comm body cs marked r s p q k = record {
  prologue = AllFit-append n r.prologue s.prologue q.prologue k.prologue;
  small = omega (arith, q.small, k.small, weight_all-append r.assigns body);
  source = (AllBranches-append _ r.assigns body q.source p, k.source);
  raw = λ e. ((tt, tt), k.raw e);
}

select_clauses-Holds :
    (n : ℕ) (x : Expr) (i : ℕ) (cs : Stmts) (d : Desugarer)
    → 1 ≤ n
    → AllBranches (λ l. ⊥) cs
    → IsGood d
    → Holds (λ r e. SelectedFits n cs r) d (select_clauses x i cs d)
unfolding select_clauses AllFit weight_all AreLinked Branches
select_clauses-Holds n x i nil d h p g =
    Holds-give _ _ _ g (record { prologue = tt; small = omega arith; source = tt; raw = λ e. tt })
select_clauses-Holds n x i (cons (comm_clause m comm body) cs) d h (p, ps) g =
    Holds-bind _ (desugar_comm comm) _ (desugar_comm-Holds n comm d h g) (λ r d₁ g₁ k₁ q.
      Holds-bind _ (select_clauses x (suc i) cs) _ (select_clauses-Holds n x (suc i) cs d₁ h ps g₁)
        (λ s d₂ g₂ k₂ k.
          Holds-give _ _ _ g₂ (add_clause-SelectedFits n x i comm body cs m r s p q k)))
select_clauses-Holds n x i (cons c cs) d h p g = panics _

pub desugar_select-Holds :
    (n : ℕ) (rec : Rec)
    → Each n rec
    → (cs : Stmts) (b c u : Option ℕ) (d : Desugarer) → weight_all cs + 4 ≤ n
    → AllBranches (λ l. ⊥) cs
    → IsGood d
    → IsBelow d b
    → IsBelow d c
    → Holds IsLinked d (desugar_select rec cs b c u d)
unfolding desugar_select AllFit Fits weight IsSource IsLinked AreLinked Branches
desugar_select-Holds n rec each nil b c u d w p g hb hc = Holds-give _ _ _ g tt
desugar_select-Holds n rec each (cons s ss) b c u d w p g hb hc =
    Holds-bind _ new_var _ (new_var-Holds d g) (λ x d₁ g₁ k₁ _.
      Holds-bind _ (select_clauses x 1 (cons s ss)) _
        (select_clauses-Holds n x 1 (cons s ss) d₁ (omega (arith, w)) p g₁)
        (λ r d₂ g₂ k₂ q.
          Holds-bind _
            (desugar_list (inside rec none none) (cons (unmarked x (basic_lit 0)) r.prologue)) _
            (prologue-Holds n rec each (cons (unmarked x (basic_lit 0)) r.prologue) d₂
              ((omega (arith, w), tt), q.prologue) g₂)
            (λ ts d₃ g₃ k₃ l.
              let far = Extends-trans k₁ (Extends-trans k₂ k₃) in
              Holds-bind _ (rec (switch r.yields no_stmt x r.clauses) b c u) _
                (each (switch r.yields no_stmt x r.clauses) b c u d₃
                  (omega (arith, w, q.small), (tt, q.source)) g₃ (IsBelow-Extends b far hb)
                  (IsBelow-Extends c far hc))
                (λ t d₄ g₄ k₄ o.
                  Holds-give _ _ _ g₄
                    (AllBranches-append _ ts _ (AreLinked-Extends ts k₄ l) (q.raw d₄, (o, tt)))))))
