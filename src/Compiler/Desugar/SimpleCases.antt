-- ===== src/Compiler/Desugar/SimpleCases.antt =====
-- The cases of desugar, compiler/desugar.go, for blocks, branches, deferred calls, conditionals and
-- labels, by what is promised of the recursive call.
use coroutine_durable_fork.Prelude.{ℕ, ◌≤◌, ◌≡◌, refl, Bool, true, false, ◌&&◌, Option, none, some}
use coroutine_durable_fork.Compiler.Ast.{Expr, Exprs, may_yield}
use coroutine_durable_fork.Compiler.Ast
use coroutine_durable_fork.Compiler.Desugar.Syntax.{
  BranchTok, break_, continue_, goto_, fall_through, Label, of_user, generated, Stmt, no_stmt,
  assign, define, branch, Stmts, nil, cons, ◌+++◌, only,
}
use coroutine_durable_fork.Compiler.Desugar.State.{Desugarer, new_var, use_label, get_user_label}
use coroutine_durable_fork.Compiler.Desugar.FlatMap.{one, desugar_list}
use coroutine_durable_fork.Compiler.Desugar.Simple.{
  Rec, inside, init_of, with_prologue, desugar_block, desugar_case_clause, desugar_comm_clause,
  generated_label, branch_to, branch_to_user, desugar_branch, temporaries, deferred, is_literal,
  is_nil, desugar_defer, condition, desugar_if, desugar_labeled,
}
use coroutine_durable_fork.Compiler.Desugar.Meets.{
  IsUsed, IsGood, IsBelow, IsBelow-Extends, Extends-trans, Holds, panics, Holds-bind, Holds-give,
  new_var-Holds, use_label-Holds, get_user_label-Holds,
}
use coroutine_durable_fork.Compiler.Desugar.Branches.{
  Branches, IsSource, IsLinked, AreLinked, IsLinked-Extends, AreLinked-Extends, AllBranches-append,
  Fits, AllFit, AllFit-append,
}
use coroutine_durable_fork.Compiler.Desugar.Rewrite.{weight}
use coroutine_durable_fork.Compiler.Desugar.Lists.{AfterFit, Each, desugar_list-Holds}

pub init_of-AllFit : (n : ℕ) (s : Stmt) → Fits n s → AllFit n (init_of s)
unfolding AllFit
init_of-AllFit n no_stmt h = tt
init_of-AllFit n s h = (h, tt)

pub with_prologue-IsLinked :
    (p : Stmts) (s : Stmt) (d : Desugarer)
    → AreLinked p d
    → IsLinked s d
    → IsLinked (with_prologue p s) d
unfolding IsLinked AreLinked Branches
with_prologue-IsLinked nil s d h k = k
with_prologue-IsLinked (cons q p) s d h k =
    AllBranches-append (IsUsed d) (cons q p) (only s) h (k, tt)

IsLinked-branch :
    (tok : BranchTok) (o : Option ℕ) (d : Desugarer)
    → ((l : ℕ) → o ≡ some l → IsUsed d l)
    → IsLinked (branch false tok (generated_label o)) d
unfolding IsLinked Branches
IsLinked-branch tok none d h = tt
IsLinked-branch tok (some l) d h = h l refl

branch_to-Holds :
    (tok : BranchTok) (o : Option ℕ) (d : Desugarer)
    → IsGood d
    → IsBelow d o
    → Holds IsLinked d (branch_to tok o d)
unfolding branch_to
branch_to-Holds tok o d g h =
    Holds-bind _ (use_label o) _ (use_label-Holds o d g h)
      (λ x d₁ g₁ k₁ p. Holds-give _ _ _ g₁ (IsLinked-branch tok o d₁ p))

branch_to_user-Holds :
    (tok : BranchTok) (o : Option ℕ) (d : Desugarer)
    → IsGood d
    → IsBelow d o
    → Holds IsLinked d (branch_to_user tok o d)
branch_to_user-Holds tok none d g h = panics _
branch_to_user-Holds tok (some l) d g h = branch_to-Holds tok (some l) d g h

pub desugar_branch-Holds :
    (tok : BranchTok) (l : Option Label) (b c : Option ℕ) (d : Desugarer)
    → IsGood d
    → IsBelow d b
    → IsBelow d c
    → Holds IsLinked d (desugar_branch tok l b c d)
unfolding desugar_branch
desugar_branch-Holds tok (some (of_user u)) b c d g hb hc =
    Holds-bind _ (get_user_label u) _ (get_user_label-Holds u d g)
      (λ o d₁ g₁ k₁ p. branch_to_user-Holds tok o d₁ g₁ p)
desugar_branch-Holds tok (some (generated l)) b c d g hb hc = panics _
desugar_branch-Holds break_ none b c d g hb hc = branch_to-Holds break_ b d g hb
desugar_branch-Holds continue_ none b c d g hb hc = branch_to-Holds continue_ c d g hc
desugar_branch-Holds goto_ none b c d g hb hc = panics _
desugar_branch-Holds fall_through none b c d g hb hc = panics _

temporaries-Holds :
    (n : ℕ) (es : Exprs) (d : Desugarer)
    → 1 ≤ n
    → IsGood d
    → Holds (AfterFit n) d (temporaries es d)
unfolding temporaries AllFit Fits weight IsSource Branches
temporaries-Holds n Ast.Exprs.nil d h g = Holds-give _ _ _ g tt
temporaries-Holds n (Ast.Exprs.cons e es) d h g =
    Holds-bind _ new_var _ (new_var-Holds d g) (λ v d₁ g₁ k₁ p.
      Holds-bind _ (temporaries es) _ (temporaries-Holds n es d₁ h g₁) (λ r d₂ g₂ k₂ q.
        let fit : AllFit n (cons (assign (may_yield e) (one v) define (one e)) r.1) =
          ((h, tt), q) in
        Holds-give _ _ _ g₂ fit))

deferred-IsLinked :
    (f : Expr) (args : Exprs) (t : Bool) (d : Desugarer)
    → (is_literal f && is_nil args) ≡ t
    → IsLinked (deferred f args) d
unfolding IsLinked Branches
deferred-IsLinked f args true d h = rw h tt
deferred-IsLinked f args false d h = rw h tt

pub condition-Holds :
    (n : ℕ) (e : Expr) (t : Bool) (d : Desugarer)
    → 1 ≤ n
    → IsGood d
    → Holds (AfterFit n) d (condition e t d)
unfolding condition AllFit Fits weight IsSource Branches
condition-Holds n e false d h g = Holds-give _ _ _ g tt
condition-Holds n e true d h g = Holds-bind _ new_var _ (new_var-Holds d g) (λ v d₁ g₁ k₁ p.
    let fit : AllFit n (only (assign true (one v) define (one e))) = ((h, tt), tt) in
    Holds-give _ _ _ g₁ fit)

module _ (n : ℕ) (rec : Rec) (each : Each n rec) where
  pub desugar_block-Holds :
      (ss : Stmts) (b c : Option ℕ) (d : Desugarer)
      → AllFit n ss
      → IsGood d
      → IsBelow d b
      → IsBelow d c
      → Holds IsLinked d (desugar_block rec ss b c d)
  unfolding desugar_block IsLinked Branches AreLinked
  desugar_block-Holds ss b c d h g hb hc =
      Holds-bind _ (desugar_list (inside rec b c) ss) _
        (desugar_list-Holds n rec each ss b c d h g hb hc) (λ ts d₁ g₁ k₁ p. Holds-give _ _ _ g₁ p)

  pub desugar_case_clause-Holds :
      (es : Exprs) (ss : Stmts) (b c : Option ℕ) (d : Desugarer)
      → AllFit n ss
      → IsGood d
      → IsBelow d b
      → IsBelow d c
      → Holds IsLinked d (desugar_case_clause rec es ss b c d)
  unfolding desugar_case_clause IsLinked Branches AreLinked
  desugar_case_clause-Holds es ss b c d h g hb hc =
      Holds-bind _ (desugar_list (inside rec b c) ss) _
        (desugar_list-Holds n rec each ss b c d h g hb hc) (λ ts d₁ g₁ k₁ p. Holds-give _ _ _ g₁ p)

  pub desugar_comm_clause-Holds :
      (comm : Stmt) (ss : Stmts) (b c : Option ℕ) (d : Desugarer)
      → AllFit n ss
      → IsGood d
      → IsBelow d b
      → IsBelow d c
      → Holds IsLinked d (desugar_comm_clause rec comm ss b c d)
  unfolding desugar_comm_clause IsLinked Branches AreLinked
  desugar_comm_clause-Holds comm ss b c d h g hb hc =
      Holds-bind _ (desugar_list (inside rec b c) ss) _
        (desugar_list-Holds n rec each ss b c d h g hb hc) (λ ts d₁ g₁ k₁ p. Holds-give _ _ _ g₁ p)

  -- The statements before another, without labels.
  pub prologue-Holds :
      (ss : Stmts) (d : Desugarer)
      → AllFit n ss
      → IsGood d
      → Holds AreLinked d (desugar_list (inside rec none none) ss d)
  unfolding IsBelow
  prologue-Holds ss d h g = desugar_list-Holds n rec each ss none none d h g tt tt

  pub desugar_defer-Holds :
      (f : Expr) (args : Exprs) (d : Desugarer)
      → 1 ≤ n
      → IsGood d
      → Holds IsLinked d (desugar_defer rec f args d)
  unfolding desugar_defer
  desugar_defer-Holds f args d h g =
      Holds-bind _ (temporaries args) _ (temporaries-Holds n args d h g) (λ r d₁ g₁ k₁ p.
        Holds-bind _ (desugar_list (inside rec none none) r.1) _ (prologue-Holds r.1 d₁ p g₁)
          (λ ts d₂ g₂ k₂ q.
            Holds-give _ _ _ g₂
              (with_prologue-IsLinked ts _ d₂ q (deferred-IsLinked f r.0 _ d₂ refl))))

  pub desugar_if-Holds :
      (init : Stmt) (e : Expr) (body els : Stmt) (b c : Option ℕ) (d : Desugarer)
      → 1 ≤ n
      → Fits n init
      → Fits n body
      → Fits n els
      → IsGood d
      → IsBelow d b
      → IsBelow d c
      → Holds IsLinked d (desugar_if rec init e body els b c d)
  unfolding desugar_if IsLinked AreLinked Branches
  desugar_if-Holds init e body els b c d h hi ht he g hb hc =
      Holds-bind _ (condition e (may_yield e)) _ (condition-Holds n e (may_yield e) d h g)
        (λ v d₁ g₁ k₁ p.
          Holds-bind _ (desugar_list (inside rec none none) (init_of init +++ v.1)) _
            (prologue-Holds (init_of init +++ v.1) d₁
              (AllFit-append n (init_of init) v.1 (init_of-AllFit n init hi) p) g₁)
            (λ ts d₂ g₂ k₂ q.
              let k = Extends-trans k₁ k₂ in
              Holds-bind _ (rec body b c none) _
                (each body b c none d₂ ht g₂ (IsBelow-Extends b k hb) (IsBelow-Extends c k hc))
                (λ body₁ d₃ g₃ k₃ r.
                  let k = Extends-trans k k₃ in
                  Holds-bind _ (rec els b c none) _
                    (each els b c none d₃ he g₃ (IsBelow-Extends b k hb) (IsBelow-Extends c k hc))
                    (λ els₁ d₄ g₄ k₄ s. Holds-give _ _ _ g₄ (
                      AllBranches-append _ ts _ (AreLinked-Extends ts (Extends-trans k₃ k₄) q)
                        ((tt, IsLinked-Extends body₁ k₄ r, s), tt))))))

  pub desugar_labeled-Holds :
      (l : Label) (s : Stmt) (b c : Option ℕ) (d : Desugarer)
      → Fits n s
      → IsGood d
      → IsBelow d b
      → IsBelow d c
      → Holds IsLinked d (desugar_labeled rec l s b c d)
  unfolding desugar_labeled
  desugar_labeled-Holds (of_user u) s b c d h g hb hc = each s b c (some u) d h g hb hc
  desugar_labeled-Holds (generated l) s b c d h g hb hc = each s b c none d h g hb hc
