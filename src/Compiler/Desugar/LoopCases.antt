-- ===== src/Compiler/Desugar/LoopCases.antt =====
-- The case of desugar, compiler/desugar.go, for loops, by what is promised of the recursive call.
use coroutine_durable_fork.Prelude.{
  ℕ, ◌+◌, ◌≤◌, Bool, true, false, Option, none, some, if◌then◌else◌, arith,
}
use coroutine_durable_fork.Compiler.Ast.{Expr, may_yield}
use coroutine_durable_fork.Compiler.Desugar.Syntax.{
  map_of, Stmt, no_stmt, range, block, cons, only, list_of,
}
use coroutine_durable_fork.Compiler.Desugar.State.{Desugarer, new_label, add_user_label}
use coroutine_durable_fork.Compiler.Desugar.FlatMap.{desugar_list}
use coroutine_durable_fork.Compiler.Desugar.Simple.{Rec, inside}
use coroutine_durable_fork.Compiler.Desugar.Loop.{guard, guarded, with_init, desugar_for}
use coroutine_durable_fork.Compiler.Desugar.Meets.{
  IsGood, IsBelow, IsBelow-Extends, Holds, Holds-bind, Holds-give, new_label-Holds,
  add_user_label-Holds,
}
use coroutine_durable_fork.Compiler.Desugar.Branches.{
  Branches, AllBranches, IsSource, IsLinked, AreLinked, IsLinked-Extends, AllBranches-append, Fits,
  AllFit,
}
use coroutine_durable_fork.Compiler.Desugar.Rewrite.{weight, weight_all, range_weight}
use coroutine_durable_fork.Compiler.Desugar.Lists.{Each}
use coroutine_durable_fork.Compiler.Desugar.SimpleCases.{prologue-Holds}

pub weight_pos : (s : Stmt) → 1 ≤ weight s
unfolding weight range_weight
weight_pos (range m (map_of i) k v t x b) = omega arith
weight_pos _ = omega arith

pub list_of-weight : (s : Stmt) → weight_all (list_of s) + 1 ≤ weight s
unfolding weight range_weight
list_of-weight (range m (map_of i) k v t x b) = omega arith
list_of-weight _ = omega arith

pub list_of-source : (s : Stmt) → IsSource s → AllBranches (λ l. ⊥) (list_of s)
unfolding IsSource Branches
list_of-source (block m ss) h = h
list_of-source _ h = tt

pub Fits-if : (n : ℕ) (t : Bool) (s u : Stmt) → Fits n s → Fits n u → Fits n (if t then s else u)
Fits-if n true s u h k = h
Fits-if n false s u h k = k

guarded-Fits :
    (n : ℕ) (e : Expr) (body : Stmt) → weight body + 6 ≤ n → IsSource body → Fits n (guarded e body)
unfolding Fits weight IsSource Branches
guarded-Fits n e body h p =
    let k = list_of-weight body in
    let q : AllBranches (λ l. ⊥) (list_of body) = list_of-source body p in
    Fits-if n (may_yield e) (block true (cons (guard e) (list_of body))) _
      (omega (arith, h, k), ((tt, (tt, tt), tt), q)) (omega (arith, h, k), q)

module _ (n : ℕ) (rec : Rec) (each : Each n rec) where
  with_init-Holds :
      (init s : Stmt) (d : Desugarer)
      → Fits n init
      → IsGood d
      → IsLinked s d
      → Holds IsLinked d (with_init rec init s d)
  unfolding with_init AllFit IsLinked AreLinked Branches
  with_init-Holds no_stmt s d h g p = Holds-give _ _ _ g p
  with_init-Holds init s d h g p =
      Holds-bind _ (desugar_list (inside rec none none) (only init)) _
        (prologue-Holds n rec each (only init) d (h, tt) g)
        (λ ts d₁ g₁ k₁ q.
          Holds-give _ _ _ g₁ (AllBranches-append _ ts _ q (IsLinked-Extends s k₁ p, tt)))

  pub desugar_for-Holds :
      (init : Stmt) (e : Expr) (post body : Stmt) (u : Option ℕ) (d : Desugarer)
      → Fits n init
      → Fits n post
      → weight body + 6 ≤ n
      → IsSource body
      → IsGood d
      → Holds IsLinked d (desugar_for rec init e post body u d)
  unfolding desugar_for IsBelow IsLinked Branches
  desugar_for-Holds init e post body u d hi hp hb p g =
      Holds-bind _ new_label _ (new_label-Holds d g) (λ l d₁ g₁ k₁ below.
        Holds-bind _ (add_user_label u l) _ (add_user_label-Holds u l d₁ g₁ below) (λ x d₂ g₂ k₂ y.
          let hl = IsBelow-Extends (some l) k₂ below in
          Holds-bind _ (rec (guarded e body) (some l) (some l) none) _
            (each (guarded e body) (some l) (some l) none d₂ (guarded-Fits n e body hb p) g₂ hl hl)
            (λ body₁ d₃ g₃ k₃ q.
              Holds-bind _ (rec post none none none) _ (each post none none none d₃ hp g₃ tt tt)
                (λ post₁ d₄ g₄ k₄ r.
                  with_init-Holds init _ d₄ hi g₄ (tt, r, IsLinked-Extends body₁ k₄ q)))))
