-- ===== src/Compiler/Decompose/Flat.antt =====
-- The parts of the expressions that decomposeExpression of compiler/desugar.go leaves.
use mathlib.Core.List.{reverse, reverse-cons}
use coroutine_durable_fork.Prelude.{
  some-inj, ℕ, zero, suc, ◌+◌, ◌≡◌, refl, sym, subst, Bool, Bool-cases, inl, inr, ◌⊎◌, true, false,
  List, [], ◌∷◌, ◌++◌, some, length,
}
use coroutine_durable_fork.Compiler.Ast.{
  binary, unary, Kind, call, composite_lit, index_list, selector, type_assert, ellipsis, index,
  key_value, paren, slice, star, Expr, ident, basic_lit, func_lit, type_expr, thunk, absent, node,
  Exprs, nil, cons, may_yield, size,
}
use coroutine_durable_fork.Compiler.Decompose.{
  hoist, hoist_all, hoist_fun, hoist_element, hoist_elements, hoist_parts, decompose_node, drain,
  numbered, prereqs, Decomposed, decompose_expression,
}
use coroutine_durable_fork.Compiler.Decompose.Total.{
  quiet, own, plain, decompose_expression-Decomposes, behind_head-some,
}

abbrev pub AreQuiet : Exprs → Type 0
AreQuiet nil = Unit {0}
AreQuiet (cons e es) = (may_yield e ≡ false) × AreQuiet es

abbrev pub IsQuietPair : Expr → Type 0
IsQuietPair (node m key_value es) = AreQuiet es
IsQuietPair e = ⊥

-- An element of a composite literal may be a pair of parts that do not yield.
abbrev pub IsQuietElement : Expr → Type 0
IsQuietElement e = (may_yield e ≡ false) ⊎ IsQuietPair e

abbrev pub AreQuietElements : Exprs → Type 0
AreQuietElements nil = Unit {0}
AreQuietElements (cons e es) = IsQuietElement e × AreQuietElements es

-- No part of the node may yield.
abbrev pub IsFlatNode : Kind → Exprs → Type 0
IsFlatNode (composite_lit t) es = AreQuietElements es
IsFlatNode _ es = AreQuiet es

abbrev pub IsFlat : Expr → Type 0
IsFlat (node m k es) = IsFlatNode k es
IsFlat _ = Unit {0}

hoist-quiet : (n : ℕ) (e : Expr) → may_yield (hoist n e).0 ≡ false
unfolding hoist may_yield
hoist-quiet n e = elim (Bool-cases (may_yield e)) [
  | inl busy ↦ rw (busy, hoist) refl
  | inr still ↦ rw (still, hoist) still
]

hoist_all-AreQuiet : (n : ℕ) (es : Exprs) → AreQuiet (hoist_all n es).0
unfolding hoist_all
hoist_all-AreQuiet n nil = tt
hoist_all-AreQuiet n (cons e es) =
    (hoist-quiet n e, hoist_all-AreQuiet (n + length (hoist n e).1) es)

hoist_fun-quiet : (n : ℕ) (e : Expr) → may_yield (hoist_fun n e).0 ≡ false
unfolding hoist_fun may_yield
hoist_fun-quiet n (node m (selector t) (cons x nil)) = elim (Bool-cases (may_yield x)) [
  | inl busy ↦ rw (busy, hoist_fun) refl
  | inr still ↦ rw (still, hoist_fun) (hoist-quiet n (node m (selector t) (cons x nil)))
]
hoist_fun-quiet n e = hoist-quiet n e

hoist_element-IsQuietElement : (n : ℕ) (e : Expr) → IsQuietElement (hoist_element n e).0
unfolding hoist_element
hoist_element-IsQuietElement n (node m key_value es) = inr (hoist_all-AreQuiet n es)
hoist_element-IsQuietElement n e = inl (hoist-quiet n e)

hoist_elements-AreQuietElements : (n : ℕ) (es : Exprs) → AreQuietElements (hoist_elements n es).0
unfolding hoist_elements
hoist_elements-AreQuietElements n nil = tt
hoist_elements-AreQuietElements n (cons e es) = (
  hoist_element-IsQuietElement n e,
  hoist_elements-AreQuietElements (n + length (hoist_element n e).1) es,
)

hoist_parts-IsFlatNode : (k : Kind) (n : ℕ) (es : Exprs) → IsFlatNode k (hoist_parts k n es).0
unfolding hoist_parts
hoist_parts-IsFlatNode (call t) n (cons f args) =
    (hoist_fun-quiet n f, hoist_all-AreQuiet (n + length (hoist_fun n f).1) args)
hoist_parts-IsFlatNode (call t) n nil = tt
hoist_parts-IsFlatNode (composite_lit t) n es = hoist_elements-AreQuietElements n es
hoist_parts-IsFlatNode (binary o) n es = hoist_all-AreQuiet n es
hoist_parts-IsFlatNode (unary o) n es = hoist_all-AreQuiet n es
hoist_parts-IsFlatNode (index_list o) n es = hoist_all-AreQuiet n es
hoist_parts-IsFlatNode (selector o) n es = hoist_all-AreQuiet n es
hoist_parts-IsFlatNode (type_assert o) n es = hoist_all-AreQuiet n es
hoist_parts-IsFlatNode ellipsis n es = hoist_all-AreQuiet n es
hoist_parts-IsFlatNode index n es = hoist_all-AreQuiet n es
hoist_parts-IsFlatNode key_value n es = hoist_all-AreQuiet n es
hoist_parts-IsFlatNode paren n es = hoist_all-AreQuiet n es
hoist_parts-IsFlatNode slice n es = hoist_all-AreQuiet n es
hoist_parts-IsFlatNode star n es = hoist_all-AreQuiet n es

decompose_node-IsFlat : (n : ℕ) (e : Expr) → IsFlat (decompose_node n e).0
unfolding decompose_node
decompose_node-IsFlat n (node m k es) = hoist_parts-IsFlatNode k n es
decompose_node-IsFlat n (ident x) = tt
decompose_node-IsFlat n (basic_lit x) = tt
decompose_node-IsFlat n (func_lit x) = tt
decompose_node-IsFlat n (type_expr x) = tt
decompose_node-IsFlat n (thunk x) = tt
decompose_node-IsFlat n absent = tt

abbrev AllFlat : List Expr → Type 0
AllFlat [] = Unit {0}
AllFlat (e ∷ es) = IsFlat e × AllFlat es

drain-AllFlat : (f n : ℕ) (ps qs : List Expr) → drain f n ps ≡ some qs → AllFlat qs
unfolding drain
drain-AllFlat f n [] qs r = subst AllFlat (some-inj refl r) tt
drain-AllFlat zero n (p ∷ ps) qs r = cc
drain-AllFlat (suc f) n (p ∷ ps) qs r =
    let (rs, r', split) = behind_head-some _ _ qs r in
    subst AllFlat (sym split) (
      decompose_node-IsFlat n p,
      drain-AllFlat f (n + length (decompose_node n p).1) (ps ++ (decompose_node n p).1) rs r',
    )

-- The values of assignments.
abbrev pub AreFlat : List (ℕ × Expr) → Type 0
AreFlat [] = Unit {0}
AreFlat ((i, e) ∷ as_) = IsFlat e × AreFlat as_

AreFlat-append : (xs ys : List (ℕ × Expr)) → AreFlat xs → AreFlat ys → AreFlat (xs ++ ys)
AreFlat-append [] ys h k = k
AreFlat-append ((i, e) ∷ xs) ys (h, hs) k = (h, AreFlat-append xs ys hs k)

prereqs-AreFlat : (n : ℕ) (qs : List Expr) → AllFlat qs → AreFlat (prereqs n qs)
unfolding prereqs
prereqs-AreFlat n [] h = tt
prereqs-AreFlat n (q ∷ qs) (h, hs) =
    subst AreFlat (sym (reverse-cons (n, q) (numbered (suc n) qs))) (
      AreFlat-append (reverse (numbered (suc n) qs)) ((n, q) ∷ []) (prereqs-AreFlat (suc n) qs hs)
        (h, tt))

-- In what decomposeExpression leaves of an expression that may yield, and in what it assigns, no
-- part may yield.
pub decompose_expression-IsFlat :
    (n : ℕ) (multi : Bool) (e : Expr) (d : Decomposed)
    → may_yield e ≡ true
    → decompose_expression n multi e ≡ some d
    → IsFlat d.expr × AreFlat d.assigns
decompose_expression-IsFlat n multi e d y r = elim (decompose_expression-Decomposes n multi e d r) [
  | quiet still same ↦ cc
  | own qs busy s same ↦
      rw same (tt, prereqs-AreFlat n qs (drain-AllFlat (size e) (n + 1) (e ∷ []) qs s))
  | plain q qs busy rest s same ↦
      let (h, hs) = drain-AllFlat (size e) n (e ∷ []) (q ∷ qs) s in
      rw same (h, prereqs-AreFlat n qs hs)
]
