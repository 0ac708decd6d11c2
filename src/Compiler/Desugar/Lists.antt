-- ===== src/Compiler/Desugar/Lists.antt =====
-- flatMap and desugarList of compiler/desugar.go, by what is promised of each statement.
use coroutine_durable_fork.Prelude.{
  ℕ, ◌≤◌, ◌≡◌, Bool, true, false, List, [], ◌∷◌, Option, none, some, arith,
}
use coroutine_durable_fork.Compiler.Ast.{Expr, Exprs}
use coroutine_durable_fork.Compiler.Ast
use coroutine_durable_fork.Compiler.Decompose.{Decomposed, decompose_expression}
use coroutine_durable_fork.Compiler.Decompose.Total.{decompose_expression_total}
use coroutine_durable_fork.Compiler.Desugar.Syntax.{
  define, Spec, Stmt, assign, decl_var, expr_stmt, send, return_, inc_dec, Stmts, nil, cons, ◌+++◌,
  only,
}
use coroutine_durable_fork.Compiler.Desugar.State.{Desugarer, M, ◌>>=◌, give}
use coroutine_durable_fork.Compiler.Desugar.FlatMap.{
  assigns_of, decompose, decomposed, decompose_all, decompose_specs, many, flat_map, desugar_each,
  desugar_list,
}
use coroutine_durable_fork.Compiler.Desugar.Simple.{Rec, inside}
use coroutine_durable_fork.Compiler.Desugar.Meets.{
  IsUsed, IsGood, IsBelow, IsBelow-Extends, Extends-trans, Holds, gives, Holds-bind, Holds-give,
}
use coroutine_durable_fork.Compiler.Desugar.Branches.{
  Branches, IsLinked, AreLinked, IsLinked-Extends, AreLinked-Extends, AllBranches-append, Fits,
  AllFit, AllFit-append,
}
use coroutine_durable_fork.Compiler.Desugar.Rewrite.{weight}

assigns_of-AllFit : (n : ℕ) (as_ : List (ℕ × Expr)) → 1 ≤ n → AllFit n (assigns_of as_)
unfolding AllFit Fits weight Branches
assigns_of-AllFit n [] h = tt
assigns_of-AllFit n (a ∷ as_) h = ((h, tt), assigns_of-AllFit n as_ h)

-- A result, and statements before it.
abbrev pub AfterFit : {A : Type 0} → ℕ → (A × Stmts) → Desugarer → Type 0
AfterFit n v d = AllFit n v.1

decomposed-Holds :
    (n : ℕ) (d : Desugarer) (o : Option Decomposed) (r : Decomposed)
    → o ≡ some r
    → 1 ≤ n
    → IsGood d
    → Holds (AfterFit n) d (decomposed d o)
unfolding IsGood IsUsed
decomposed-Holds n d none r q h g = cc
decomposed-Holds n d (some r) s q h g =
    gives _ _ g (record { grows = omega arith; stays = λ l u. u }) (assigns_of-AllFit n r.assigns h)

pub decompose-Holds :
    (n : ℕ) (multi : Bool) (e : Expr) (d : Desugarer)
    → 1 ≤ n
    → IsGood d
    → Holds (AfterFit n) d (decompose multi e d)
unfolding decompose
decompose-Holds n multi e d h g =
    let (r, q) = decompose_expression_total d.vars multi e in
    decomposed-Holds n d (decompose_expression d.vars multi e) r q h g

decompose_all-Holds :
    (n : ℕ) (multi : Bool) (es : Exprs) (d : Desugarer)
    → 1 ≤ n
    → IsGood d
    → Holds (AfterFit n) d (decompose_all multi es d)
unfolding decompose_all AllFit
decompose_all-Holds n multi Ast.Exprs.nil d h g = Holds-give _ _ _ g tt
decompose_all-Holds n multi (Ast.Exprs.cons e es) d h g =
    Holds-bind _ (decompose multi e) _ (decompose-Holds n multi e d h g) (λ v d₁ g₁ k₁ p.
      Holds-bind _ (decompose_all multi es) _ (decompose_all-Holds n multi es d₁ h g₁)
        (λ vs d₂ g₂ k₂ q. Holds-give _ _ _ g₂ (AllFit-append n v.1 vs.1 p q)))

decompose_specs-Holds :
    (n : ℕ) (ss : List Spec) (d : Desugarer)
    → 1 ≤ n
    → IsGood d
    → Holds (AfterFit n) d (decompose_specs ss d)
unfolding decompose_specs AllFit
decompose_specs-Holds n [] d h g = Holds-give _ _ _ g tt
decompose_specs-Holds n (s ∷ ss) d h g =
    Holds-bind _ (decompose_all (many s.values) s.values) _
      (decompose_all-Holds n (many s.values) s.values d h g)
      (λ v d₁ g₁ k₁ p.
        Holds-bind _ (decompose_specs ss) _ (decompose_specs-Holds n ss d₁ h g₁)
          (λ vs d₂ g₂ k₂ q. Holds-give _ _ _ g₂ (AllFit-append n v.1 vs.1 p q)))

only-AllFit : (n : ℕ) (s : Stmt) → Fits n s → AllFit n (only s)
unfolding AllFit
only-AllFit n s h = (h, tt)

-- One group of expressions, and the statement behind what they leave.
after :
    {A : Type 0} (n : ℕ) (m : M (A × Stmts)) (f : A → Stmt) (d : Desugarer)
    → Holds (AfterFit n) d (m d)
    → ((a : A) → Fits n (f a))
    → Holds (λ ss e. AllFit n ss) d ((m >>= (λ v. give (v.1 +++ only (f v.0)))) d)
after n m f d h k =
    Holds-bind _ m _ h
      (λ v d₁ g₁ k₁ q. Holds-give _ _ _ g₁ (AllFit-append n v.1 _ q (only-AllFit n _ (k v.0))))

-- Two groups of expressions, and the statement behind.
after_two :
    {A B : Type 0} (n : ℕ) (m : M (A × Stmts)) (o : M (B × Stmts)) (f : A → B → Stmt)
    (d : Desugarer)
    → Holds (AfterFit n) d (m d)
    → ((e : Desugarer) → IsGood e → Holds (AfterFit n) e (o e))
    → ((a : A) (b : B) → Fits n (f a b))
    → Holds
        (λ ss e. AllFit n ss)
        d
        ((m >>= (λ u. o >>= (λ v. give ((u.1 +++ v.1) +++ only (f u.0 v.0))))) d)
after_two n m o f d h j k = Holds-bind _ m _ h (λ u d₁ g₁ k₁ p.
    Holds-bind _ o _ (j d₁ g₁) (λ v d₂ g₂ k₂ q. Holds-give _ _ _ g₂ (
      AllFit-append n (u.1 +++ v.1) _ (AllFit-append n u.1 v.1 p q) (only-AllFit n _ (k u.0 v.0)))))

pub flat_map-Holds :
    (n : ℕ) (s : Stmt) (d : Desugarer)
    → Fits n s
    → IsGood d
    → Holds (λ ss e. AllFit n ss) d (flat_map s d)
unfolding flat_map Fits weight Branches
flat_map-Holds n (assign m l define r) d (h, p) g =
    after n (decompose_all (many r) r) _ d (decompose_all-Holds n (many r) r d h g) (λ v. (h, tt))
flat_map-Holds n (assign m l t r) d (h, p) g =
    after_two n (decompose_all true l) (decompose_all true r) _ d
      (decompose_all-Holds n true l d h g) (λ e k. decompose_all-Holds n true r e h k)
      (λ u v. (h, tt))
flat_map-Holds n (decl_var m ss) d (h, p) g =
    after n (decompose_specs ss) _ d (decompose_specs-Holds n ss d h g) (λ v. (h, tt))
flat_map-Holds n (expr_stmt m e) d (h, p) g =
    after n (decompose false e) _ d (decompose-Holds n false e d h g) (λ v. (h, tt))
flat_map-Holds n (send m c e) d (h, p) g =
    after_two n (decompose true c) (decompose true e) _ d (decompose-Holds n true c d h g)
      (λ x k. decompose-Holds n true e x h k) (λ u v. (h, tt))
flat_map-Holds n (return_ m es) d (h, p) g =
    after n (decompose_all (many es) es) _ d (decompose_all-Holds n (many es) es d h g)
      (λ v. (h, tt))
flat_map-Holds n (inc_dec m e t) d (h, p) g =
    after n (decompose false e) _ d (decompose-Holds n false e d h g) (λ v. (h, tt))
flat_map-Holds n s d h g = Holds-give _ _ _ g (only-AllFit n _ h)

-- What is promised of the recursive call, where the fuel `n` is enough.
abbrev pub Each : ℕ → Rec → Type 0
Each n rec =
    (s : Stmt) (b c u : Option ℕ) (d : Desugarer)
    → Fits n s
    → IsGood d
    → IsBelow d b
    → IsBelow d c
    → Holds IsLinked d (rec s b c u d)

module _ (n : ℕ) (rec : Rec) (each : Each n rec) where
  desugar_each-Holds :
      (ss : Stmts) (b c : Option ℕ) (d : Desugarer)
      → AllFit n ss
      → IsGood d
      → IsBelow d b
      → IsBelow d c
      → Holds AreLinked d (desugar_each (inside rec b c) ss d)
  unfolding desugar_each AllFit AreLinked Branches IsLinked
  desugar_each-Holds nil b c d h g hb hc = Holds-give _ _ _ g tt
  desugar_each-Holds (cons s ss) b c d (h, hs) g hb hc =
      Holds-bind _ (inside rec b c s) _ (each s b c none d h g hb hc) (λ t d₁ g₁ k₁ p.
        Holds-bind _ (desugar_each (inside rec b c) ss) _
          (desugar_each-Holds ss b c d₁ hs g₁ (IsBelow-Extends b k₁ hb) (IsBelow-Extends c k₁ hc))
          (λ ts d₂ g₂ k₂ q. Holds-give _ _ _ g₂ (IsLinked-Extends t k₂ p, q)))

  pub desugar_list-Holds :
      (ss : Stmts) (b c : Option ℕ) (d : Desugarer)
      → AllFit n ss
      → IsGood d
      → IsBelow d b
      → IsBelow d c
      → Holds AreLinked d (desugar_list (inside rec b c) ss d)
  unfolding desugar_list AllFit AreLinked Branches
  desugar_list-Holds nil b c d h g hb hc = Holds-give _ _ _ g tt
  desugar_list-Holds (cons s ss) b c d (h, hs) g hb hc =
      Holds-bind _ (flat_map s) _ (flat_map-Holds n s d h g) (λ gen d₁ g₁ k₁ p.
        Holds-bind _ (desugar_each (inside rec b c) gen) _
          (desugar_each-Holds gen b c d₁ p g₁ (IsBelow-Extends b k₁ hb) (IsBelow-Extends c k₁ hc))
          (λ ts d₂ g₂ k₂ q.
            Holds-bind _ (desugar_list (inside rec b c) ss) _
              (desugar_list-Holds ss b c d₂ hs g₂ (IsBelow-Extends b (Extends-trans k₁ k₂) hb)
                (IsBelow-Extends c (Extends-trans k₁ k₂) hc))
              (λ rest d₃ g₃ k₃ r.
                Holds-give _ _ _ g₃ (AllBranches-append _ ts rest (AreLinked-Extends ts k₃ q) r))))
