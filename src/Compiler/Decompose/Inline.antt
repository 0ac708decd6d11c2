-- ===== src/Compiler/Decompose/Inline.antt =====
-- The variables of decomposeExpression, compiler/desugar.go, with their values put back.
pub mod Fresh
pub mod RoundTrip
use coroutine_durable_fork.Prelude.{
  ℕ, zero, suc, ◌+◌, ◌-◌, ◌≤◌, ◌<◌, ◌≡◌, refl, sym, ap, subst, ◌∙◌, Bool, Bool-cases, inl, inr,
  true, false, not, ◌&&◌, List, [], ◌∷◌, ◌++◌, Option, none, some, length, if◌then◌else◌, arith,
  get_elem?, leb, append_assoc, append-nil,
}
use coroutine_durable_fork.Compiler.Ast.{
  Name, user, tmp, underscore, len, make, append, Op, binary, unary, Kind, call, composite_lit,
  index_list, selector, type_assert, ellipsis, index, key_value, paren, slice, star, Expr, ident,
  basic_lit, func_lit, type_expr, thunk, absent, node, Exprs, nil, cons, may_yield, size, size_all,
}
use coroutine_durable_fork.Compiler.Decompose.{
  hoist, hoist_all, hoist_fun, hoist_element, hoist_elements, hoist_parts, decompose_node, drain,
  behind_head, Decomposed, decompose_expression, is_call, with_call, with_head,
}
use coroutine_durable_fork.Compiler.Decompose.Total.{drain_step}

abbrev pub or_else : Expr → Option Expr → Expr
or_else e none = e
or_else e (some x) = x

-- The variable `i`, where the variables from `s` on have the values `vs`.
abbrev pub value_of : ℕ → List Expr → ℕ → Expr
value_of s vs i = if leb s i then or_else (ident (tmp i)) (get_elem? vs (i - s)) else ident (tmp i)

unfoldable mutual
  pub inline : ℕ → List Expr → Expr → Expr
  inline s vs (ident (tmp i)) = value_of s vs i
  inline s vs (thunk es) = thunk (inline_all s vs es)
  inline s vs (node m k es) = node m k (inline_all s vs es)
  inline s vs e = e

  pub inline_all : ℕ → List Expr → Exprs → Exprs
  inline_all s vs nil = nil
  inline_all s vs (cons e es) = cons (inline s vs e) (inline_all s vs es)

-- The values of the variables from `s` on, each assigned an expression over those behind it.
unfoldable pub values : ℕ → List Expr → List Expr
unfolding inline
values s [] = []
values s (q ∷ qs) = let vs = values (suc s) qs in inline (suc s) vs q ∷ vs

-- No variable from `s` on occurs.
unfoldable mutual
  pub IsFresh : ℕ → Expr → Type 0
  IsFresh s (ident (tmp i)) = i < s
  IsFresh s (thunk es) = AreFresh s es
  IsFresh s (node m k es) = AreFresh s es
  IsFresh s _ = Unit {0}

  pub AreFresh : ℕ → Exprs → Type 0
  AreFresh s nil = Unit {0}
  AreFresh s (cons e es) = IsFresh s e × AreFresh s es

mutual
  unfolding inline IsFresh

  pub inline-IsFresh : (s : ℕ) (vs : List Expr) (e : Expr) → IsFresh s e → inline s vs e ≡ e
  inline-IsFresh s vs (ident (tmp i)) h = ground arith
  inline-IsFresh s vs (thunk es) h = ap thunk (inline_all-AreFresh s vs es h)
  inline-IsFresh s vs (node m k es) h = ap (node m k) (inline_all-AreFresh s vs es h)
  inline-IsFresh s vs (ident (user i)) h = refl
  inline-IsFresh s vs (ident underscore) h = refl
  inline-IsFresh s vs (ident len) h = refl
  inline-IsFresh s vs (ident make) h = refl
  inline-IsFresh s vs (ident append) h = refl
  inline-IsFresh s vs (basic_lit n) h = refl
  inline-IsFresh s vs (func_lit n) h = refl
  inline-IsFresh s vs (type_expr n) h = refl
  inline-IsFresh s vs absent h = refl

  inline_all-AreFresh :
      (s : ℕ) (vs : List Expr) (es : Exprs) → AreFresh s es → inline_all s vs es ≡ es
  inline_all-AreFresh s vs nil h = refl
  inline_all-AreFresh s vs (cons e es) (h, k) =
      cc (inline-IsFresh s vs e h, inline_all-AreFresh s vs es k)

mutual
  unfolding IsFresh

  pub IsFresh-suc : (s : ℕ) (e : Expr) → IsFresh s e → IsFresh (suc s) e
  IsFresh-suc s (ident (tmp i)) h = omega arith
  IsFresh-suc s (thunk es) h = AreFresh-suc s es h
  IsFresh-suc s (node m k es) h = AreFresh-suc s es h
  IsFresh-suc s (ident (user i)) h = tt
  IsFresh-suc s (ident underscore) h = tt
  IsFresh-suc s (ident len) h = tt
  IsFresh-suc s (ident make) h = tt
  IsFresh-suc s (ident append) h = tt
  IsFresh-suc s (basic_lit n) h = tt
  IsFresh-suc s (func_lit n) h = tt
  IsFresh-suc s (type_expr n) h = tt
  IsFresh-suc s absent h = tt

  AreFresh-suc : (s : ℕ) (es : Exprs) → AreFresh s es → AreFresh (suc s) es
  AreFresh-suc s nil h = tt
  AreFresh-suc s (cons e es) (h, k) = (IsFresh-suc s e h, AreFresh-suc s es k)

-- At `i`, the values `vs` have the expressions `cs`.
abbrev pub Holds : List Expr → ℕ → List Expr → Type 0
Holds vs i [] = Unit {0}
Holds vs i (c ∷ cs) = (get_elem? vs i ≡ some c) × Holds vs (suc i) cs

Holds-left : (vs : List Expr) (i : ℕ) (cs ds : List Expr) → Holds vs i (cs ++ ds) → Holds vs i cs
Holds-left vs i [] ds h = tt
Holds-left vs i (c ∷ cs) ds (e, h) = (e, Holds-left vs (suc i) cs ds h)

Holds-right :
    (vs : List Expr) (i : ℕ) (cs ds : List Expr)
    → Holds vs i (cs ++ ds)
    → Holds vs (i + length cs) ds
Holds-right vs i [] ds h = subst (λ j. Holds vs j ds) (omega arith) h
Holds-right vs i (c ∷ cs) ds (e, h) =
    subst (λ j. Holds vs j ds) (omega arith) (Holds-right vs (suc i) cs ds h)

pub value_of_lem :
    (s : ℕ) (vs : List Expr) (n i : ℕ) (e : Expr)
    → n ≡ s + i
    → get_elem? vs i ≡ some e
    → value_of s vs n ≡ e
value_of_lem s vs n i e p h =
    let reached : leb s n ≡ true = ground arith in
    let place : n - s ≡ i = omega arith in rw (reached, place, h) refl

hoist_busy : (n : ℕ) (e : Expr) → may_yield e ≡ true → hoist n e ≡ (ident (tmp n), e ∷ [])
unfolding hoist
hoist_busy n e h = rw h refl

hoist_quiet : (n : ℕ) (e : Expr) → may_yield e ≡ false → hoist n e ≡ (e, [])
unfolding hoist
hoist_quiet n e h = rw h refl

receiver_busy :
    (n : ℕ) (m : Bool) (t : ℕ) (x : Expr)
    → may_yield x ≡ true
    → hoist_fun n (node m (selector t) (cons x nil))
      ≡ (node m (selector t) (cons (ident (tmp n)) nil), x ∷ [])
unfolding hoist_fun
receiver_busy n m t x h = rw h refl

receiver_quiet :
    (n : ℕ) (m : Bool) (t : ℕ) (x : Expr)
    → may_yield x ≡ false
    → hoist_fun n (node m (selector t) (cons x nil)) ≡ hoist n (node m (selector t) (cons x nil))
unfolding hoist_fun
receiver_quiet n m t x h = rw h refl

module _ (s : ℕ) (vs : List Expr) where
  -- With its parts put back, a node is what it was.
  inline-hoist :
      (n i : ℕ) (e : Expr)
      → n ≡ s + i
      → IsFresh s e
      → Holds vs i (hoist n e).1
      → inline s vs (hoist n e).0 ≡ e
  unfolding inline
  inline-hoist n i e p f h = elim (Bool-cases (may_yield e)) [
    | inl busy ↦
        let q = hoist_busy n e busy in
        ap (λ v. inline s vs v.0) q ∙ value_of_lem s vs n i e p (subst (λ v. Holds vs i v.1) q h).0
    | inr quiet ↦ ap (λ v. inline s vs v.0) (hoist_quiet n e quiet) ∙ inline-IsFresh s vs e f
  ]

  inline-hoist_all :
      (n i : ℕ) (es : Exprs)
      → n ≡ s + i
      → AreFresh s es
      → Holds vs i (hoist_all n es).1
      → inline_all s vs (hoist_all n es).0 ≡ es
  unfolding inline hoist_all IsFresh
  inline-hoist_all n i nil p f h = refl
  inline-hoist_all n i (cons e es) p (f, fs) h =
      let c = (hoist n e).1 in
      let cs = (hoist_all (n + length c) es).1 in
      cc (
        inline-hoist n i e p f (Holds-left vs i c cs h),
        inline-hoist_all (n + length c) (i + length c) es (omega (arith, p)) fs
            (Holds-right vs i c cs h),
      )

  inline-hoist_fun :
      (n i : ℕ) (e : Expr)
      → n ≡ s + i
      → IsFresh s e
      → Holds vs i (hoist_fun n e).1
      → inline s vs (hoist_fun n e).0 ≡ e
  unfolding inline hoist_fun IsFresh
  inline-hoist_fun n i (node m (selector t) (cons x nil)) p f h = elim (Bool-cases (may_yield x)) [
    | inl busy ↦
        let q = receiver_busy n m t x busy in
        ap (λ v. inline s vs v.0) q
        ∙ ap (λ x. node m (selector t) (cons x nil))
            (value_of_lem s vs n i x p (subst (λ v. Holds vs i v.1) q h).0)
    | inr quiet ↦
        let q = receiver_quiet n m t x quiet in
        ap (λ v. inline s vs v.0) q
        ∙ inline-hoist n i (node m (selector t) (cons x nil)) p f (subst (λ v. Holds vs i v.1) q h)
  ]
  inline-hoist_fun n i e p f h = inline-hoist n i e p f h

  inline-hoist_element :
      (n i : ℕ) (e : Expr)
      → n ≡ s + i
      → IsFresh s e
      → Holds vs i (hoist_element n e).1
      → inline s vs (hoist_element n e).0 ≡ e
  unfolding inline hoist_element IsFresh
  inline-hoist_element n i (node m key_value es) p f h =
      ap (node m key_value) (inline-hoist_all n i es p f h)
  inline-hoist_element n i e p f h = inline-hoist n i e p f h

  inline-hoist_elements :
      (n i : ℕ) (es : Exprs)
      → n ≡ s + i
      → AreFresh s es
      → Holds vs i (hoist_elements n es).1
      → inline_all s vs (hoist_elements n es).0 ≡ es
  unfolding inline hoist_elements IsFresh
  inline-hoist_elements n i nil p f h = refl
  inline-hoist_elements n i (cons e es) p (f, fs) h =
      let c = (hoist_element n e).1 in
      let cs = (hoist_elements (n + length c) es).1 in
      cc (
        inline-hoist_element n i e p f (Holds-left vs i c cs h),
        inline-hoist_elements (n + length c) (i + length c) es (omega (arith, p)) fs
            (Holds-right vs i c cs h),
      )

  inline-hoist_parts :
      (k : Kind) (n i : ℕ) (es : Exprs)
      → n ≡ s + i
      → AreFresh s es
      → Holds vs i (hoist_parts k n es).1
      → inline_all s vs (hoist_parts k n es).0 ≡ es
  unfolding inline hoist_parts IsFresh
  inline-hoist_parts (call t) n i (cons e es) p (f, fs) h =
      let c = (hoist_fun n e).1 in
      let cs = (hoist_all (n + length c) es).1 in
      cc (
        inline-hoist_fun n i e p f (Holds-left vs i c cs h),
        inline-hoist_all (n + length c) (i + length c) es (omega (arith, p)) fs
            (Holds-right vs i c cs h),
      )
  inline-hoist_parts (composite_lit t) n i es p f h = inline-hoist_elements n i es p f h
  inline-hoist_parts _ n i es p f h = inline-hoist_all n i es p f h

  pub inline-decompose_node :
      (n i : ℕ) (e : Expr)
      → n ≡ s + i
      → IsFresh s e
      → Holds vs i (decompose_node n e).1
      → inline s vs (decompose_node n e).0 ≡ e
  unfolding inline decompose_node IsFresh
  inline-decompose_node n i (node m k es) p f h = ap (node m k) (inline-hoist_parts k n i es p f h)
  inline-decompose_node n i e p f h = inline-IsFresh s vs e f
