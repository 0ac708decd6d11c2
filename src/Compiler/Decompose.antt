-- ===== src/Compiler/Decompose.antt =====
-- decomposeExpression of compiler/desugar.go: what may yield inside an expression moves out into
-- temporary variables, by a queue. The types of the variables are left out.
pub mod Total
pub mod Inline
pub mod Flat
pub mod Order
use coroutine_durable_fork.Prelude.{
  ℕ, zero, suc, ◌+◌, Bool, true, false, not, ◌&&◌, List, [], ◌∷◌, ◌++◌, Option, none, some, length,
  if◌then◌else◌,
}
use mathlib.Core.List.{reverse}
use coroutine_durable_fork.Compiler.Ast.{
  tmp, Kind, call, composite_lit, key_value, selector, Expr, ident, node, Exprs, nil, cons,
  may_yield, size,
}

-- decompose: a part that may yield is replaced by the next temporary variable, and queued.
unfoldable pub hoist : ℕ → Expr → Expr × List Expr
hoist n e = if may_yield e then (ident (tmp n), e ∷ []) else (e, [])

unfoldable pub hoist_all : ℕ → Exprs → Exprs × List Expr
unfolding hoist
hoist_all n nil = (nil, [])
hoist_all n (cons e es) =
    let (e₁, c) = hoist n e in let (es₁, cs) = hoist_all (n + length c) es in (cons e₁ es₁, c ++ cs)

-- The function of a call: of a method call, the receiver.
unfoldable pub hoist_fun : ℕ → Expr → Expr × List Expr
unfolding hoist
hoist_fun n (node m (selector s) (cons x nil)) =
    if may_yield x
    then (node m (selector s) (cons (ident (tmp n)) nil), x ∷ [])
    else hoist n (node m (selector s) (cons x nil))
hoist_fun n f = hoist n f

-- An element of a composite literal: of a pair, the key and the value.
unfoldable pub hoist_element : ℕ → Expr → Expr × List Expr
unfolding hoist hoist_all
hoist_element n (node m key_value es) = let (es₁, cs) = hoist_all n es in (node m key_value es₁, cs)
hoist_element n e = hoist n e

unfoldable pub hoist_elements : ℕ → Exprs → Exprs × List Expr
unfolding hoist_element
hoist_elements n nil = (nil, [])
hoist_elements n (cons e es) =
    let (e₁, c) = hoist_element n e in
    let (es₁, cs) = hoist_elements (n + length c) es in (cons e₁ es₁, c ++ cs)

unfoldable pub hoist_parts : Kind → ℕ → Exprs → Exprs × List Expr
unfolding hoist_fun hoist_all hoist_elements
hoist_parts (call t) n (cons f args) =
    let (f₁, c) = hoist_fun n f in
    let (args₁, cs) = hoist_all (n + length c) args in (cons f₁ args₁, c ++ cs)
hoist_parts (composite_lit t) n es = hoist_elements n es
hoist_parts _ n es = hoist_all n es

-- One round of the loop over the queue: the expression with its parts replaced, and these.
unfoldable pub decompose_node : ℕ → Expr → Expr × List Expr
unfolding hoist_parts
decompose_node n (node m k es) = let (es₁, cs) = hoist_parts k n es in (node m k es₁, cs)
decompose_node n e = (e, [])

abbrev pub behind_head : Expr → Option (List Expr) → Option (List Expr)
behind_head q none = none
behind_head q (some qs) = some (q ∷ qs)

-- The loop over what is left of the queue; `none` where the fuel runs out.
unfoldable pub drain : ℕ → ℕ → List Expr → Option (List Expr)
unfolding decompose_node
drain f n [] = some []
drain zero n (p ∷ ps) = none
drain (suc f) n (p ∷ ps) =
    let (q, cs) = decompose_node n p in behind_head q (drain f (n + length cs) (ps ++ cs))

-- A call with one result.
abbrev pub is_call : Expr → Bool
is_call (node m (call false) es) = true
is_call _ = false

-- The assignments of the queue behind its head to the variables from `n` on.
abbrev pub numbered : ℕ → List Expr → List (ℕ × Expr)
numbered n [] = []
numbered n (q ∷ qs) = (n, q) ∷ numbered (suc n) qs

unfoldable pub prereqs : ℕ → List Expr → List (ℕ × Expr)
prereqs n qs = reverse (numbered n qs)

pub record Decomposed : Type 0 where
  pub expr : Expr
  pub assigns : List (ℕ × Expr)
  pub vars : ℕ

abbrev pub with_head : ℕ → Option (List Expr) → Option Decomposed
with_head n (some (q ∷ qs)) =
    some (record { expr = q; assigns = prereqs n qs; vars = n + length qs })
with_head n _ = none

abbrev pub with_call : ℕ → Option (List Expr) → Option Decomposed
with_call n (some qs) =
    some (record { expr = ident (tmp n); assigns = prereqs n qs; vars = n + length qs })
with_call n none = none

-- With `multi`, the flag multiExprStmt, a call with one result gets a variable of its own.
unfoldable pub decompose_expression : ℕ → Bool → Expr → Option Decomposed
unfolding drain prereqs
decompose_expression n multi e =
    if not (may_yield e)
    then some (record { expr = e; assigns = []; vars = n })
    else if multi && is_call e
    then with_call n (drain (size e) (n + 1) (e ∷ []))
    else with_head n (drain (size e) n (e ∷ []))
