-- ===== src/Compiler/Decompose/Order.antt =====
-- The order in which the assignments of decomposeExpression run.
use coroutine_durable_fork.Prelude.{
  ℕ, zero, suc, ◌+◌, ◌≤◌, ◌≡◌, refl, ap, subst, Bool, true, false, List, [], ◌∷◌, append-nil, some,
  length, arith,
}
use coroutine_durable_fork.Compiler.Ast.{
  tmp, Op, binary, Expr, ident, node, Exprs, nil, cons, may_yield, size, size_all,
}
use coroutine_durable_fork.Compiler.Decompose.{
  hoist_all, hoist_parts, decompose_node, drain, behind_head, prereqs, decompose_expression,
  with_head,
}
use coroutine_durable_fork.Compiler.Decompose.Total.{size_pos}

abbrev pub to_list : Exprs → List Expr
to_list nil = []
to_list (cons e es) = e ∷ to_list es

-- Expressions that may yield, with no part that does.
abbrev pub AreSimple : List Expr → Type 0
AreSimple [] = Unit {0}
AreSimple (e ∷ es) =
    ((may_yield e ≡ true) × ((k : ℕ) → decompose_node k e ≡ (e, []))) × AreSimple es

-- The variables from `n` on, one for each expression.
abbrev pub variables : ℕ → Exprs → Exprs
variables n nil = nil
variables n (cons e es) = cons (ident (tmp n)) (variables (suc n) es)

hoist_all_simple :
    (n : ℕ) (es : Exprs) → AreSimple (to_list es) → hoist_all n es ≡ (variables n es, to_list es)
unfolding hoist_all
hoist_all_simple n nil h = refl
hoist_all_simple n (cons e es) ((busy, p), h) =
    let ih : hoist_all (n + 1) es ≡ (variables (suc n) es, to_list es) =
      subst (λ k. hoist_all k es ≡ (variables (suc n) es, to_list es)) (omega arith)
        (hoist_all_simple (suc n) es h) in
    rw (busy, ih) refl

drain_simple : (f n : ℕ) (ps : List Expr) → AreSimple ps → length ps ≤ f → drain f n ps ≡ some ps
unfolding drain
drain_simple f n [] h le = refl
drain_simple zero n (p ∷ ps) h le = grind arith
drain_simple (suc f) n (p ∷ ps) ((busy, still), h) le =
    rw (still n, append-nil ps) (ap (behind_head p) (drain_simple f (n + 0) ps h (omega arith)))

length-size : (es : Exprs) → length (to_list es) ≤ size_all es
unfolding size
length-size nil = omega arith
length-size (cons e es) = omega (arith, size_pos e, length-size es)

drain_head :
    (f n : ℕ) (o : Op) (es : Exprs)
    → AreSimple (to_list es)
    → length (to_list es) ≤ f
    → drain (suc f) n (node true (binary o) es ∷ [])
      ≡ some (node true (binary o) (variables n es) ∷ to_list es)
unfolding drain decompose_node hoist_parts
drain_head f n o es h le = rw (hoist_all_simple n es h) (
    ap (behind_head (node true (binary o) (variables n es)))
      (drain_simple f (n + length (to_list es)) (to_list es) h le))

-- The operands of a binary operation, where both may yield and are made of no other part that
-- does, are assigned from the right to the left, before the operation, also those of && and ||.
pub operands_reversed :
    (n : ℕ) (multi : Bool) (o : Op) (x y : Expr)
    → AreSimple (x ∷ y ∷ [])
    → decompose_expression n multi (node true (binary o) (cons x (cons y nil)))
      ≡ some (record {
        expr = node true (binary o) (cons (ident (tmp n)) (cons (ident (tmp (suc n))) nil));
        assigns = (suc n, y) ∷ (n, x) ∷ [];
        vars = n + 2;
      })
unfolding decompose_expression prereqs may_yield size
operands_reversed n false o x y h = ap (with_head n) (
    drain_head (size x + (size y + 0)) n o (cons x (cons y nil)) h
      (omega (arith, size_pos x, size_pos y)))
operands_reversed n true o x y h = ap (with_head n) (
    drain_head (size x + (size y + 0)) n o (cons x (cons y nil)) h
      (omega (arith, size_pos x, size_pos y)))
