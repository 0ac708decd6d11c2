-- ===== src/Compiler/Decompose/Inline/Fresh.antt =====
-- The variables in what decomposeExpression of compiler/desugar.go queues.
use coroutine_durable_fork.Prelude.{ℕ, suc, ◌+◌, Bool-cases, inl, inr, List, [], ◌∷◌, ◌++◌, length}
use coroutine_durable_fork.Compiler.Ast.{
  Kind, call, composite_lit, selector, key_value, Expr, node, Exprs, nil, cons, may_yield,
}
use coroutine_durable_fork.Compiler.Decompose.{
  hoist, hoist_all, hoist_fun, hoist_element, hoist_elements, hoist_parts, decompose_node,
}
use coroutine_durable_fork.Compiler.Decompose.Inline.{IsFresh, AreFresh, IsFresh-suc}

abbrev pub AllFresh : ℕ → List Expr → Type 0
AllFresh s [] = Unit {0}
AllFresh s (e ∷ es) = IsFresh s e × AllFresh s es

pub AllFresh-append :
    (s : ℕ) (xs ys : List Expr) → AllFresh s xs → AllFresh s ys → AllFresh s (xs ++ ys)
AllFresh-append s [] ys h k = k
AllFresh-append s (x ∷ xs) ys (h, hs) k = (h, AllFresh-append s xs ys hs k)

pub AllFresh-suc : (s : ℕ) (es : List Expr) → AllFresh s es → AllFresh (suc s) es
AllFresh-suc s [] h = tt
AllFresh-suc s (e ∷ es) (h, hs) = (IsFresh-suc s e h, AllFresh-suc s es hs)

module _ (s : ℕ) where
  hoist-AllFresh : (n : ℕ) (e : Expr) → IsFresh s e → AllFresh s (hoist n e).1
  unfolding hoist
  hoist-AllFresh n e h = elim (Bool-cases (may_yield e)) [
    | inl busy ↦ rw (busy, hoist) (h, tt)
    | inr quiet ↦ rw (quiet, hoist) tt
  ]

  hoist_all-AllFresh : (n : ℕ) (es : Exprs) → AreFresh s es → AllFresh s (hoist_all n es).1
  unfolding hoist_all IsFresh
  hoist_all-AllFresh n nil h = tt
  hoist_all-AllFresh n (cons e es) (h, hs) =
      AllFresh-append s (hoist n e).1 _ (hoist-AllFresh n e h)
        (hoist_all-AllFresh (n + length (hoist n e).1) es hs)

  hoist_fun-AllFresh : (n : ℕ) (e : Expr) → IsFresh s e → AllFresh s (hoist_fun n e).1
  unfolding hoist_fun IsFresh
  hoist_fun-AllFresh n (node m (selector t) (cons x nil)) h = elim (Bool-cases (may_yield x)) [
    | inl busy ↦ rw (busy, hoist_fun) h
    | inr quiet ↦ rw (quiet, hoist_fun) (hoist-AllFresh n (node m (selector t) (cons x nil)) h)
  ]
  hoist_fun-AllFresh n e h = hoist-AllFresh n e h

  hoist_element-AllFresh : (n : ℕ) (e : Expr) → IsFresh s e → AllFresh s (hoist_element n e).1
  unfolding hoist_element IsFresh
  hoist_element-AllFresh n (node m key_value es) h = hoist_all-AllFresh n es h
  hoist_element-AllFresh n e h = hoist-AllFresh n e h

  hoist_elements-AllFresh :
      (n : ℕ) (es : Exprs) → AreFresh s es → AllFresh s (hoist_elements n es).1
  unfolding hoist_elements IsFresh
  hoist_elements-AllFresh n nil h = tt
  hoist_elements-AllFresh n (cons e es) (h, hs) =
      AllFresh-append s (hoist_element n e).1 _ (hoist_element-AllFresh n e h)
        (hoist_elements-AllFresh (n + length (hoist_element n e).1) es hs)

  hoist_parts-AllFresh :
      (k : Kind) (n : ℕ) (es : Exprs) → AreFresh s es → AllFresh s (hoist_parts k n es).1
  unfolding hoist_parts IsFresh
  hoist_parts-AllFresh (call t) n (cons f args) (h, hs) =
      AllFresh-append s (hoist_fun n f).1 _ (hoist_fun-AllFresh n f h)
        (hoist_all-AllFresh (n + length (hoist_fun n f).1) args hs)
  hoist_parts-AllFresh (composite_lit t) n es h = hoist_elements-AllFresh n es h
  hoist_parts-AllFresh _ n es h = hoist_all-AllFresh n es h

  pub decompose_node-AllFresh : (n : ℕ) (e : Expr) → IsFresh s e → AllFresh s (decompose_node n e).1
  unfolding decompose_node IsFresh
  decompose_node-AllFresh n (node m k es) h = hoist_parts-AllFresh k n es h
  decompose_node-AllFresh n e h = tt
