-- ===== src/Compiler/Desugar/SwitchCases.antt =====
-- The cases of desugar, compiler/desugar.go, for switches, by what is promised of the recursive call.
use coroutine_durable_fork.Prelude.{ℕ, ◌+◌, ◌≤◌, Bool, true, false, Option, none, some, arith}
use coroutine_durable_fork.Compiler.Ast.{Expr, absent, type_assert, node, Exprs, may_yield}
use coroutine_durable_fork.Compiler.Ast
use coroutine_durable_fork.Compiler.Desugar.Syntax.{
  define, Stmt, no_stmt, assign, expr_stmt, block, case_clause, Stmts, nil, cons, ◌+++◌, only,
  any_marked,
}
use coroutine_durable_fork.Compiler.Desugar.State.{Desugarer, new_var, new_label, add_user_label}
use coroutine_durable_fork.Compiler.Desugar.FlatMap.{one, desugar_list}
use coroutine_durable_fork.Compiler.Desugar.Simple.{Rec, inside, init_of}
use coroutine_durable_fork.Compiler.Desugar.Switch.{
  tag_of, case_if, chain, head_or_empty, desugar_switch, asserted, assertion, subject,
  desugar_type_switch,
}
use coroutine_durable_fork.Compiler.Desugar.Meets.{
  IsGood, IsBelow, IsBelow-Extends, Extends-trans, Holds, panics, Holds-bind, Holds-map, Holds-give,
  new_var-Holds, new_label-Holds, add_user_label-Holds,
}
use coroutine_durable_fork.Compiler.Desugar.Branches.{
  Branches, AllBranches, IsSource, IsLinked, AreLinked, AreLinked-Extends, AllBranches-append, Fits,
  AllFit, AllFit-append,
}
use coroutine_durable_fork.Compiler.Desugar.Rewrite.{weight, weight_all}
use coroutine_durable_fork.Compiler.Desugar.Lists.{AfterFit, Each}
use coroutine_durable_fork.Compiler.Desugar.SimpleCases.{
  init_of-AllFit, with_prologue-IsLinked, prologue-Holds,
}

assign-AllFit :
    (n : ℕ) (m : Bool) (v e : Expr) → 1 ≤ n → AllFit n (only (assign m (one v) define (one e)))
unfolding AllFit Fits weight IsSource Branches
assign-AllFit n m v e h = ((h, tt), tt)

tag_of-Holds :
    (n : ℕ) (e : Expr) (d : Desugarer) → 1 ≤ n → IsGood d → Holds (AfterFit n) d (tag_of e d)
unfolding tag_of AllFit
tag_of-Holds n absent d h g = Holds-give _ _ _ g tt
tag_of-Holds n e d h g =
    Holds-bind _ new_var _ (new_var-Holds d g)
      (λ v d₁ g₁ k₁ _. Holds-give _ _ _ g₁ (assign-AllFit n (may_yield e) v e h))

-- The chain is no larger than the clauses and the default case before them.
chain-Holds :
    (t : Option Expr) (cs : Stmts) (last : Stmt) (d : Desugarer)
    → AllBranches (λ l. ⊥) cs
    → IsSource last
    → IsGood d
    → Holds (λ s e. Fits (weight_all cs + weight last) s) d (chain t cs last d)
unfolding chain Fits weight IsSource Branches case_if
chain-Holds t nil last d p q g = Holds-give _ _ _ g (omega arith, q)
chain-Holds t (cons (case_clause m Ast.Exprs.nil body) cs) last d (p, ps) q g =
    Holds-map _ (chain-Holds t cs (block (any_marked body) body) d ps p g)
      (λ s e k. (omega (arith, k.0), k.1))
chain-Holds t (cons (case_clause m (Ast.Exprs.cons e es) body) cs) last d (p, ps) q g =
    Holds-bind _ new_var _ (new_var-Holds d g) (λ v d₁ g₁ k₁ _.
      Holds-bind _ (chain t cs last) _ (chain-Holds t cs last d₁ ps q g₁)
        (λ rest d₂ g₂ k₂ k. Holds-give _ _ _ g₂ (omega (arith, k.0), (tt, p, k.1))))
chain-Holds t (cons s cs) last d p q g = panics _

head_or_empty-Fits : (n : ℕ) (s : Stmt) → Fits n s → Fits n (head_or_empty s)
unfolding Fits weight IsSource Branches
head_or_empty-Fits n no_stmt h = h
head_or_empty-Fits n s h = h

asserted-Holds :
    (n : ℕ) (x : Expr) (t : Bool) (d : Desugarer)
    → 1 ≤ n
    → IsGood d
    → Holds (AfterFit n) d (asserted x t d)
unfolding asserted AllFit
asserted-Holds n x false d h g = Holds-give _ _ _ g tt
asserted-Holds n x true d h g =
    Holds-bind _ new_var _ (new_var-Holds d g)
      (λ v d₁ g₁ k₁ _. Holds-give _ _ _ g₁ (assign-AllFit n false v x h))

assertion-Holds :
    (n : ℕ) (e : Expr) (d : Desugarer) → 1 ≤ n → IsGood d → Holds (AfterFit n) d (assertion e d)
unfolding assertion
assertion-Holds n (node m (type_assert k) (Ast.Exprs.cons x Ast.Exprs.nil)) d h g =
    Holds-bind _ (asserted x (may_yield x)) _ (asserted-Holds n x (may_yield x) d h g)
      (λ r d₁ g₁ k₁ q. Holds-give _ _ _ g₁ q)
assertion-Holds n e d h g = panics _

subject-Holds :
    (n : ℕ) (s : Stmt) (d : Desugarer) → 1 ≤ n → IsGood d → Holds (AfterFit n) d (subject s d)
unfolding subject
subject-Holds n (expr_stmt m e) d h g =
    Holds-bind _ (assertion e) _ (assertion-Holds n e d h g) (λ r d₁ g₁ k₁ q. Holds-give _ _ _ g₁ q)
subject-Holds n (assign m lhs tok (Ast.Exprs.cons e es)) d h g =
    Holds-bind _ (assertion e) _ (assertion-Holds n e d h g) (λ r d₁ g₁ k₁ q. Holds-give _ _ _ g₁ q)
subject-Holds n s d h g = panics _

module _ (n : ℕ) (rec : Rec) (each : Each n rec) where
  pub desugar_switch-Holds :
      (init : Stmt) (e : Expr) (cs : Stmts) (c u : Option ℕ) (d : Desugarer)
      → Fits n init
      → weight_all cs + 1 ≤ n
      → AllBranches (λ l. ⊥) cs
      → IsGood d
      → IsBelow d c
      → Holds IsLinked d (desugar_switch rec init e cs c u d)
  unfolding desugar_switch IsBelow IsLinked Branches Fits IsSource weight
  desugar_switch-Holds init e cs c u d hi w p g hc =
      Holds-bind _ new_label _ (new_label-Holds d g) (λ l d₁ g₁ k₁ below.
        Holds-bind _ (add_user_label u l) _ (add_user_label-Holds u l d₁ g₁ below) (λ _ d₂ g₂ k₂ _.
          Holds-bind _ (tag_of e) _ (tag_of-Holds n e d₂ (omega (arith, w)) g₂) (λ t d₃ g₃ k₃ r.
            Holds-bind _ (chain t.0 cs no_stmt) _ (chain-Holds t.0 cs no_stmt d₃ p tt g₃)
              (λ head d₄ g₄ k₄ h.
                Holds-bind _ (desugar_list (inside rec none none) (init_of init +++ t.1)) _
                  (prologue-Holds n rec each (init_of init +++ t.1) d₄
                    (AllFit-append n (init_of init) t.1 (init_of-AllFit n init hi) r) g₄)
                  (λ ts d₅ g₅ k₅ q.
                    let near = Extends-trans k₂ (Extends-trans k₃ (Extends-trans k₄ k₅)) in
                    Holds-bind _ (rec (head_or_empty head) (some l) c none) _
                      (each (head_or_empty head) (some l) c none d₅
                        (head_or_empty-Fits n head (omega (arith, h.0, w), h.1)) g₅
                        (IsBelow-Extends (some l) near below)
                        (IsBelow-Extends c (Extends-trans k₁ near) hc))
                      (λ body d₆ g₆ k₆ o. Holds-give _ _ _ g₆ (
                        with_prologue-IsLinked ts _ d₆ (AreLinked-Extends ts k₆ q)
                          (tt, ((o, tt), tt)))))))))

  pub desugar_type_switch-Holds :
      (init a body : Stmt) (c u : Option ℕ) (d : Desugarer)
      → 1 ≤ n
      → Fits n init
      → Fits n body
      → IsGood d
      → IsBelow d c
      → Holds IsLinked d (desugar_type_switch rec init a body c u d)
  unfolding desugar_type_switch IsBelow IsLinked AreLinked Branches
  desugar_type_switch-Holds init a body c u d h hi hb g hc =
      Holds-bind _ new_label _ (new_label-Holds d g) (λ l d₁ g₁ k₁ below.
        Holds-bind _ (add_user_label u l) _ (add_user_label-Holds u l d₁ g₁ below) (λ _ d₂ g₂ k₂ _.
          Holds-bind _ (subject a) _ (subject-Holds n a d₂ h g₂) (λ r d₃ g₃ k₃ p.
            Holds-bind _ (desugar_list (inside rec none none) (init_of init +++ r.1)) _
              (prologue-Holds n rec each (init_of init +++ r.1) d₃
                (AllFit-append n (init_of init) r.1 (init_of-AllFit n init hi) p) g₃)
              (λ ts d₄ g₄ k₄ q.
                let near = Extends-trans k₂ (Extends-trans k₃ k₄) in
                Holds-bind _ (rec body (some l) c none) _
                  (each body (some l) c none d₄ hb g₄ (IsBelow-Extends (some l) near below)
                    (IsBelow-Extends c (Extends-trans k₁ near) hc))
                  (λ body₁ d₅ g₅ k₅ o.
                    Holds-give _ _ _ g₅
                      (AllBranches-append _ ts _ (AreLinked-Extends ts k₅ q) ((tt, o), tt)))))))
