-- ===== src/Compiler/Decompose/Total.antt =====
-- The loop of decomposeExpression of compiler/desugar.go, its end and its rounds.
use coroutine_durable_fork.Prelude.{
  ℕ, zero, suc, ◌+◌, ◌≤◌, ◌<◌, ◌≡◌, refl, sym, ◌∙◌, Bool, Bool-cases, inl, inr, true, false, ◌&&◌,
  List, [], ◌∷◌, ◌++◌, Option, none, some, some-inj, length, arith,
}
use coroutine_durable_fork.Compiler.Ast.{
  tmp, Kind, call, composite_lit, selector, key_value, Expr, ident, node, Exprs, nil, cons,
  may_yield, size, size_all,
}
use coroutine_durable_fork.Compiler.Decompose.{
  hoist, hoist_all, hoist_fun, hoist_element, hoist_elements, hoist_parts, decompose_node, drain,
  behind_head, Decomposed, decompose_expression, is_call, with_call, with_head, prereqs,
}

abbrev total : List Expr → ℕ
total [] = 0
total (e ∷ es) = size e + total es

total-append : (xs ys : List Expr) → total (xs ++ ys) ≡ total xs + total ys
total-append [] ys = omega arith
total-append (x ∷ xs) ys = omega (arith, total-append xs ys)

total-hoist : (n : ℕ) (e : Expr) → total (hoist n e).1 ≤ size e
unfolding hoist
total-hoist n e = ground arith

total-hoist_all : (n : ℕ) (es : Exprs) → total (hoist_all n es).1 ≤ size_all es
unfolding hoist_all size
total-hoist_all n nil = omega arith
total-hoist_all n (cons e es) =
    let c = (hoist n e).1 in
    let cs = (hoist_all (n + length c) es).1 in
    omega (arith, total-append c cs, total-hoist n e, total-hoist_all (n + length c) es)

total-hoist_fun : (n : ℕ) (e : Expr) → total (hoist_fun n e).1 ≤ size e
unfolding hoist_fun size
total-hoist_fun n (node m (selector s) (cons x nil)) = ground arith
total-hoist_fun n e = total-hoist n e

total-hoist_element : (n : ℕ) (e : Expr) → total (hoist_element n e).1 ≤ size e
unfolding hoist_element size
total-hoist_element n (node m key_value es) = omega (arith, total-hoist_all n es)
total-hoist_element n e = total-hoist n e

total-hoist_elements : (n : ℕ) (es : Exprs) → total (hoist_elements n es).1 ≤ size_all es
unfolding hoist_elements size
total-hoist_elements n nil = omega arith
total-hoist_elements n (cons e es) =
    let c = (hoist_element n e).1 in
    let cs = (hoist_elements (n + length c) es).1 in
    omega
      (arith, total-append c cs, total-hoist_element n e, total-hoist_elements (n + length c) es)

total-hoist_parts : (k : Kind) (n : ℕ) (es : Exprs) → total (hoist_parts k n es).1 ≤ size_all es
unfolding hoist_parts size
total-hoist_parts (call t) n (cons f args) =
    let c = (hoist_fun n f).1 in
    let cs = (hoist_all (n + length c) args).1 in
    omega (arith, total-append c cs, total-hoist_fun n f, total-hoist_all (n + length c) args)
total-hoist_parts (composite_lit t) n es = total-hoist_elements n es
total-hoist_parts _ n es = total-hoist_all n es

pub size_pos : (e : Expr) → 0 < size e
unfolding size
size_pos (node m k es) = omega arith
size_pos _ = omega arith

total-decompose_node : (n : ℕ) (e : Expr) → total (decompose_node n e).1 < size e
unfolding decompose_node size
total-decompose_node n (node m k es) = omega (arith, total-hoist_parts k n es)
total-decompose_node n _ = omega arith

pub drain-total :
    (f n : ℕ) (ps : List Expr) → total ps ≤ f → (qs : List Expr) × (drain f n ps ≡ some qs)
unfolding drain
drain-total f n [] h = ([], refl)
drain-total zero n (p ∷ ps) h = absurd (omega (arith, size_pos p))
drain-total (suc f) n (p ∷ ps) h =
    let cs = (decompose_node n p).1 in
    let (qs, e) =
      drain-total f (n + length cs) (ps ++ cs)
        (omega (arith, h, total-append ps cs, total-decompose_node n p)) in
    ((decompose_node n p).0 ∷ qs, rw e refl)

pub behind_head-some :
    (q : Expr) (o : Option (List Expr)) (qs : List Expr)
    → behind_head q o ≡ some qs
    → (rs : List Expr) × (o ≡ some rs) × (qs ≡ q ∷ rs)
behind_head-some q none qs h = cc
behind_head-some q (some rs) qs h = (rs, refl, cc)

-- A round puts the head of the queue first in the result.
pub drain_step :
    (f n : ℕ) (p : Expr) (ps qs : List Expr)
    → drain f n (p ∷ ps) ≡ some qs
    → (g : ℕ) × (rs : List Expr) × (drain g
          (n + length (decompose_node n p).1)
          (ps ++ (decompose_node n p).1)
        ≡ some rs)
      × (qs ≡ (decompose_node n p).0 ∷ rs)
unfolding drain
drain_step zero n p ps qs h = cc
drain_step (suc f) n p ps qs h = let (rs, e, q) = behind_head-some _ _ qs h in (f, rs, e, q)

headed :
    (f n : ℕ) (e : Expr) (qs : List Expr)
    → drain f n (e ∷ []) ≡ some qs
    → (d : Decomposed) × (with_head n (some qs) ≡ some d)
headed f n e [] h = let (g, rs, r, empty) = drain_step f n e [] [] h in cc
headed f n e (q ∷ qs) h = (record { expr = q; assigns = prereqs n qs; vars = n + length qs }, refl)

-- What may yield is decomposed: the loop ends within its fuel, whatever the flag says.
pub decompose_expression_total :
    (n : ℕ) (multi : Bool) (e : Expr) → (d : Decomposed) × (decompose_expression n multi e ≡ some d)
unfolding decompose_expression
decompose_expression_total n multi e = elim (Bool-cases (may_yield e)) [
  | inr quiet ↦ (record { expr = e; assigns = []; vars = n }, rw quiet refl)
  | inl busy ↦ elim (Bool-cases (multi && is_call e)) [
    | inl own ↦
        let (qs, r) = drain-total (size e) (n + 1) (e ∷ []) (omega arith) in
        (
          record { expr = ident (tmp n); assigns = prereqs n qs; vars = n + length qs },
          rw (busy, own, r) refl,
        )
    | inr plain ↦
        let (qs, r) = drain-total (size e) n (e ∷ []) (omega arith) in
        let (d, q) = headed (size e) n e qs r in (d, rw (busy, plain, r) q)
  ]
]

-- The three ways in which an expression is decomposed.
pub data Decomposes (n : ℕ) (multi : Bool) (e : Expr) (d : Decomposed) : Type 0 where
  quiet :
      may_yield e ≡ false → d ≡ record { expr = e; assigns = []; vars = n } → Decomposes n multi e d
  own :
      (qs : List Expr)
      → may_yield e ≡ true
      → drain (size e) (n + 1) (e ∷ []) ≡ some qs
      → d ≡ record { expr = ident (tmp n); assigns = prereqs n qs; vars = n + length qs }
      → Decomposes n multi e d
  plain :
      (q : Expr) (qs : List Expr)
      → may_yield e ≡ true
      → (multi && is_call e) ≡ false
      → drain (size e) n (e ∷ []) ≡ some (q ∷ qs)
      → d ≡ record { expr = q; assigns = prereqs n qs; vars = n + length qs }
      → Decomposes n multi e d

with_call-some :
    (n : ℕ) (o : Option (List Expr)) (d : Decomposed)
    → with_call n o ≡ some d
    → (qs : List Expr) × (o ≡ some qs)
      × (d ≡ record { expr = ident (tmp n); assigns = prereqs n qs; vars = n + length qs })
with_call-some n none d h = cc
with_call-some n (some qs) d h = (qs, refl, some-inj h refl)

with_head-some :
    (n : ℕ) (o : Option (List Expr)) (d : Decomposed)
    → with_head n o ≡ some d
    → (q : Expr) × (qs : List Expr) × (o ≡ some (q ∷ qs))
      × (d ≡ record { expr = q; assigns = prereqs n qs; vars = n + length qs })
with_head-some n none d h = cc
with_head-some n (some []) d h = cc
with_head-some n (some (q ∷ qs)) d h = (q, qs, refl, some-inj h refl)

pub decompose_expression-Decomposes :
    (n : ℕ) (multi : Bool) (e : Expr) (d : Decomposed)
    → decompose_expression n multi e ≡ some d
    → Decomposes n multi e d
unfolding decompose_expression
decompose_expression-Decomposes n multi e d r = elim (Bool-cases (may_yield e)) [
  | inr still ↦ quiet still (some-inj r (rw (still, decompose_expression) refl))
  | inl busy ↦ elim (Bool-cases (multi && is_call e)) [
    | inl alone ↦
        let step : decompose_expression n multi e ≡ with_call n (drain (size e) (n + 1) (e ∷ [])) =
          rw (busy, alone, decompose_expression) refl in
        let (qs, q, same) = with_call-some n _ d (sym step ∙ r) in own qs busy q same
    | inr rest ↦
        let step : decompose_expression n multi e ≡ with_head n (drain (size e) n (e ∷ [])) =
          rw (busy, rest, decompose_expression) refl in
        let (q, qs, s, same) = with_head-some n _ d (sym step ∙ r) in plain q qs busy rest s same
  ]
]
