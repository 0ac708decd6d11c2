-- ===== src/Compiler/Decompose/Inline/RoundTrip.antt =====
-- The assignments of decomposeExpression, compiler/desugar.go, run in their order.
use mathlib.Core.List.{reverse, reverse-cons}
use coroutine_durable_fork.Prelude.{
  ℕ, zero, suc, ◌+◌, ◌-◌, ◌≡◌, refl, sym, ap, subst, ◌∙◌, Bool, Bool-cases, inl, inr, true, false,
  List, [], ◌∷◌, ◌++◌, Option, none, some, length, length-append, if◌then◌else◌, arith, get_elem?,
  leb, ltb, append_assoc, ◌==◌,
}
use coroutine_durable_fork.Compiler.Ast.{
  user, tmp, underscore, len, make, append, Expr, ident, basic_lit, func_lit, type_expr, thunk,
  absent, node, Exprs, nil, cons, size,
}
use coroutine_durable_fork.Compiler.Decompose.{
  decompose_node, drain, numbered, prereqs, Decomposed, decompose_expression,
}
use coroutine_durable_fork.Compiler.Decompose.Total.{
  quiet, own, plain, decompose_expression-Decomposes, drain_step, behind_head-some,
}
use coroutine_durable_fork.Compiler.Decompose.Inline.{
  or_else, value_of_lem, inline, inline_all, values, IsFresh, IsFresh-suc, inline-IsFresh, Holds,
  inline-decompose_node,
}
use coroutine_durable_fork.Compiler.Decompose.Inline.Fresh.{
  AllFresh, AllFresh-append, AllFresh-suc, decompose_node-AllFresh,
}

-- The values of variables, the last assignment first.
abbrev pub value_in : ℕ → List (ℕ × Expr) → Option Expr
value_in i [] = none
value_in i ((j, e) ∷ env) = if j == i then some e else value_in i env

unfoldable mutual
  pub replace : List (ℕ × Expr) → Expr → Expr
  replace env (ident (tmp i)) = or_else (ident (tmp i)) (value_in i env)
  replace env (thunk es) = thunk (replace_all env es)
  replace env (node m k es) = node m k (replace_all env es)
  replace env e = e

  pub replace_all : List (ℕ × Expr) → Exprs → Exprs
  replace_all env nil = nil
  replace_all env (cons e es) = cons (replace env e) (replace_all env es)

-- The assignments, one after the other.
unfoldable pub run_assigns : List (ℕ × Expr) → List (ℕ × Expr) → List (ℕ × Expr)
unfolding replace
run_assigns env [] = env
run_assigns env ((i, e) ∷ as_) = run_assigns ((i, replace env e) ∷ env) as_

value_in-numbered :
    (i s : ℕ) (vs : List Expr)
    → value_in i (numbered s vs) ≡ (if leb s i then get_elem? vs (i - s) else none)
value_in-numbered i s [] = ground arith
value_in-numbered i s (v ∷ vs) = elim (Bool-cases (ltb s i)) [
  | inl before ↦
      let d : i - s ≡ suc (i - suc s) = ground arith in
      let here : (s == i) ≡ false = ground arith in
      let reached : leb s i ≡ true = ground arith in
      let next : leb (suc s) i ≡ true = ground arith in
      rw (here, reached, d) (value_in-numbered i (suc s) vs ∙ rw next refl)
  | inr after ↦ elim (Bool-cases (s == i)) [
    | inl here ↦
        let d : i - s ≡ 0 = ground arith in
        let reached : leb s i ≡ true = ground arith in rw (here, reached, d) refl
    | inr there ↦
        let reached : leb s i ≡ false = ground arith in
        let next : leb (suc s) i ≡ false = ground arith in
        rw (there, reached) (value_in-numbered i (suc s) vs ∙ rw next refl)
  ]
]

mutual
  unfolding replace inline

  replace-numbered : (s : ℕ) (vs : List Expr) (e : Expr) → replace (numbered s vs) e ≡ inline s vs e
  replace-numbered s vs (ident (tmp i)) = ground (arith, value_in-numbered i s vs)
  replace-numbered s vs (thunk es) = ap thunk (replace_all-numbered s vs es)
  replace-numbered s vs (node m k es) = ap (node m k) (replace_all-numbered s vs es)
  replace-numbered s vs (ident (user i)) = refl
  replace-numbered s vs (ident underscore) = refl
  replace-numbered s vs (ident len) = refl
  replace-numbered s vs (ident make) = refl
  replace-numbered s vs (ident append) = refl
  replace-numbered s vs (basic_lit n) = refl
  replace-numbered s vs (func_lit n) = refl
  replace-numbered s vs (type_expr n) = refl
  replace-numbered s vs absent = refl

  replace_all-numbered :
      (s : ℕ) (vs : List Expr) (es : Exprs) → replace_all (numbered s vs) es ≡ inline_all s vs es
  replace_all-numbered s vs nil = refl
  replace_all-numbered s vs (cons e es) = cc (replace-numbered s vs e, replace_all-numbered s vs es)

run_assigns-append :
    (env xs : List (ℕ × Expr)) (i : ℕ) (e : Expr)
    → run_assigns env (xs ++ (i, e) ∷ []) ≡ (i, replace (run_assigns env xs) e) ∷ run_assigns env xs
unfolding run_assigns
run_assigns-append env [] i e = refl
run_assigns-append env ((j, x) ∷ xs) i e = run_assigns-append ((j, replace env x) ∷ env) xs i e

run_assigns-prereqs :
    (n : ℕ) (qs : List Expr) → run_assigns [] (prereqs n qs) ≡ numbered n (values n qs)
unfolding prereqs run_assigns values
run_assigns-prereqs n [] = refl
run_assigns-prereqs n (q ∷ qs) =
    let ih = run_assigns-prereqs (suc n) qs in
    ap (run_assigns []) (reverse-cons (n, q) (numbered (suc n) qs))
    ∙ run_assigns-append [] (reverse (numbered (suc n) qs)) n q
    ∙ ap (λ env. (n, replace env q) ∷ env) ih
    ∙ ap (λ x. (n, x) ∷ numbered (suc n) (values (suc n) qs))
        (replace-numbered (suc n) (values (suc n) qs) q)

Holds-cons :
    (x : Expr) (vs : List Expr) (i : ℕ) (cs : List Expr) → Holds vs i cs → Holds (x ∷ vs) (suc i) cs
Holds-cons x vs i [] h = tt
Holds-cons x vs i (c ∷ cs) (e, h) = (e, Holds-cons x vs (suc i) cs h)

Holds-here : (cs more : List Expr) → Holds (cs ++ more) 0 cs
Holds-here [] more = tt
Holds-here (c ∷ cs) more = (refl, Holds-cons c (cs ++ more) 0 cs (Holds-here cs more))

Holds-behind : (xs cs more : List Expr) → Holds ((xs ++ cs) ++ more) (length xs) cs
Holds-behind [] cs more = Holds-here cs more
Holds-behind (x ∷ xs) cs more =
    Holds-cons x ((xs ++ cs) ++ more) (length xs) cs (Holds-behind xs cs more)

-- The values of the queue are what was queued, and what follows.
values-drain :
    (f t n : ℕ) (ps qs : List Expr)
    → n ≡ t + length ps
    → AllFresh t ps
    → drain f n ps ≡ some qs
    → (more : List Expr) × (values t qs ≡ ps ++ more)
unfolding drain values
values-drain f t n [] qs e h r = (values t qs, refl)
values-drain zero t n (p ∷ ps) qs e h r = cc
values-drain (suc f) t n (p ∷ ps) qs e (h, hs) r =
    let q = (decompose_node n p).0 in
    let cs = (decompose_node n p).1 in
    let (rs, r', split) = behind_head-some q _ qs r in
    let fresh : AllFresh (suc t) (ps ++ cs) =
      AllFresh-append (suc t) ps cs (AllFresh-suc t ps hs)
        (decompose_node-AllFresh (suc t) n p (IsFresh-suc t p h)) in
    let (more, v) =
      values-drain f (suc t) (n + length cs) (ps ++ cs) rs (omega (arith, e, length-append ps cs))
        fresh r' in
    let holds : Holds (values (suc t) rs) (length ps) cs =
      subst (λ vs. Holds vs (length ps) cs) (sym v) (Holds-behind ps cs more) in
    let head =
      inline-decompose_node (suc t) (values (suc t) rs) n (length ps) p (omega (arith, e))
        (IsFresh-suc t p h) holds in
    (
      cs ++ more,
      ap (values t) split
          ∙ ap (λ x. x ∷ values (suc t) rs) head
          ∙ ap (λ vs. p ∷ vs) (v ∙ append_assoc ps cs more),
    )

replace-assigns :
    (n : ℕ) (qs : List Expr) (e : Expr)
    → replace (run_assigns [] (prereqs n qs)) e ≡ inline n (values n qs) e
replace-assigns n qs e =
    ap (λ env. replace env e) (run_assigns-prereqs n qs) ∙ replace-numbered n (values n qs) e

own_variable :
    (f n : ℕ) (e : Expr) (qs : List Expr)
    → IsFresh n e
    → drain f (n + 1) (e ∷ []) ≡ some qs
    → replace (run_assigns [] (prereqs n qs)) (ident (tmp n)) ≡ e
unfolding inline
own_variable f n e qs h r =
    let (more, v) = values-drain f n (n + 1) (e ∷ []) qs (omega arith) (h, tt) r in
    replace-assigns n qs (ident (tmp n))
    ∙ value_of_lem n (values n qs) n 0 e (omega arith) (ap (λ vs. get_elem? vs 0) v)

in_place :
    (f n : ℕ) (e q : Expr) (qs : List Expr)
    → IsFresh n e
    → drain f n (e ∷ []) ≡ some (q ∷ qs)
    → replace (run_assigns [] (prereqs n qs)) q ≡ e
in_place f n e q qs h r =
    let (g, rs, r', split) = drain_step f n e [] (q ∷ qs) r in
    let cs = (decompose_node n e).1 in
    let (more, v) =
      values-drain g n (n + length cs) cs rs refl (decompose_node-AllFresh n n e h) r' in
    let tail : qs ≡ rs = cc in
    let front : q ≡ (decompose_node n e).0 = cc in
    let holds : Holds (values n qs) 0 cs =
      subst (λ vs. Holds vs 0 cs) (sym (ap (values n) tail ∙ v)) (Holds-here cs more) in
    replace-assigns n qs q
    ∙ ap (inline n (values n qs)) front
    ∙ inline-decompose_node n (values n qs) n 0 e (omega arith) h holds

-- Where the variables are new, the assignments, run in their order, give the expression that is
-- left the value of the one that was decomposed.
pub replace-decompose_expression :
    (n : ℕ) (multi : Bool) (e : Expr) (d : Decomposed)
    → IsFresh n e
    → decompose_expression n multi e ≡ some d
    → replace (run_assigns [] d.assigns) d.expr ≡ e
unfolding values prereqs
replace-decompose_expression n multi e d h r =
    elim (decompose_expression-Decomposes n multi e d r) [
      | quiet still same ↦ rw same (replace-assigns n [] e ∙ inline-IsFresh n [] e h)
      | own qs busy q same ↦ rw same (own_variable (size e) n e qs h q)
      | plain q qs busy rest s same ↦ rw same (in_place (size e) n e q qs h s)
    ]
