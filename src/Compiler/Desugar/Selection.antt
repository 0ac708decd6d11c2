-- ===== src/Compiler/Desugar/Selection.antt =====
-- The chain of conditionals that desugar of compiler/desugar.go makes of the clauses of a switch,
-- against the clause that a switch selects.
use coroutine_durable_fork.Prelude.{
  ℕ, suc, ◌≡◌, refl, sym, ap, ◌∙◌, Bool, true, false, ◌||◌, ◌&&◌, not, ◌==◌, Option, none, some,
  if◌then◌else◌,
}
use coroutine_durable_fork.Compiler.Ast.{
  or_, binary, call, tmp, Name, Expr, ident, node, Exprs, may_yield, size,
}
use coroutine_durable_fork.Compiler.Ast
use coroutine_durable_fork.Compiler.Desugar.Syntax.{
  define, generated, Stmt, no_stmt, empty, assign, block, case_clause, if_, labeled, switch, Stmts,
  nil, cons, only, marked, any_marked,
}
use coroutine_durable_fork.Compiler.Desugar.State.{
  Desugarer, Outcome, done, panic, out_of_fuel, M, new_var, new_label, add_user_label,
}
use coroutine_durable_fork.Compiler.Decompose.{decompose_expression}
use coroutine_durable_fork.Compiler.Desugar.FlatMap.{one}
use coroutine_durable_fork.Compiler.Desugar.Switch.{test, or_tests, case_if, chain}
use coroutine_durable_fork.Compiler.Desugar.Rewrite.{desugar}

-- An operation | of two operands; on booleans there is none.
abbrev pub joins : Expr → Bool
joins (node m (binary or_) (Ast.Exprs.cons x (Ast.Exprs.cons y Ast.Exprs.nil))) = true
joins e = false

abbrev pub chosen : Bool → Stmts → Option (Option Stmts) → Option (Option Stmts)
chosen b body none = none
chosen b body (some o) = some (if b then some body else o)

-- The body that a chain of conditionals runs, if any, where `holds` gives the value of each test that
-- is assigned to a variable; none for a chain that does not compile, or that tests another variable.
unfoldable pub run_chain : (Expr → Bool) → Stmt → Option (Option Stmts)
run_chain holds
      (if_ m
        (assign n
          (Ast.Exprs.cons (ident (tmp i)) Ast.Exprs.nil)
          define
          (Ast.Exprs.cons e Ast.Exprs.nil))
        (ident (tmp j))
        (block o body)
        rest) =
    let later = run_chain holds rest in
    if joins e || not (i == j) then none else chosen (holds e) body later
run_chain holds (block m body) = some (some body)
run_chain holds no_stmt = some none
run_chain holds s = none

-- No clause has two values, and no value is an operation |.
unfoldable pub compiles : Option Expr → Stmts → Bool
compiles t (cons (case_clause m (Ast.Exprs.cons e Ast.Exprs.nil) body) cs) =
    not (joins (test t e)) && compiles t cs
compiles t (cons (case_clause m (Ast.Exprs.cons e (Ast.Exprs.cons f es)) body) cs) = false
compiles t (cons s cs) = compiles t cs
compiles t nil = true

-- The body of the first clause, other than the default, with a value that matches.
unfoldable pub matches : (Expr → Bool) → Option Expr → Exprs → Bool
matches holds t Ast.Exprs.nil = false
matches holds t (Ast.Exprs.cons e es) = holds (test t e) || matches holds t es

unfoldable pub first_match : (Expr → Bool) → Option Expr → Stmts → Option Stmts
unfolding matches
first_match holds t (cons (case_clause m (Ast.Exprs.cons e es) body) cs) =
    let later = first_match holds t cs in
    if matches holds t (Ast.Exprs.cons e es) then some body else later
first_match holds t (cons s cs) = first_match holds t cs
first_match holds t nil = none

abbrev pub or_else : Option Stmts → Option Stmts → Option Stmts
or_else none o = o
or_else (some b) o = some b

-- The body of the default clause, wherever it stands.
unfoldable pub default_of : Stmts → Option Stmts
default_of (cons (case_clause m Ast.Exprs.nil body) cs) = or_else (default_of cs) (some body)
default_of (cons s cs) = default_of cs
default_of nil = none

pub bound-done :
    {A B : Type 0} (o : Outcome A) (f : A → M B) (b : B) (e : Desugarer)
    → elim o [ done a d ↦ f a d | panic p ↦ panic p | out_of_fuel ↦ out_of_fuel ] ≡ done b e
    → (a : A) × (d : Desugarer) × (o ≡ done a d) × (f a d ≡ done b e)
bound-done (done a d) f b e h = (a, d, refl, h)
bound-done (panic p) f b e h = cc
bound-done out_of_fuel f b e h = cc

done-inj : {A : Type 0} {a b : A} {d e : Desugarer} → Outcome.done a d ≡ done b e → a ≡ b
done-inj h = cc

abbrev only_if : Bool → Option Stmts → Option (Option Stmts)
only_if c o = if c then some o else none

left :
    (n : ℕ) (s : Stmt) (b c u : Option ℕ) (d : Desugarer)
    → marked s ≡ false
    → desugar (suc n) s b c u d ≡ done s d
unfolding desugar
left n s b c u d h = rw h refl

unmarked_if :
    (v e : Expr) (body : Stmts) (rest : Stmt)
    → may_yield e ≡ false
    → any_marked body ≡ false
    → marked (case_if v e body rest) ≡ false
unfolding case_if
unmarked_if v e body rest h k = rw (h, k) refl

-- A chain whose first clause does not yield is left as it is by desugar, whatever the clauses
-- behind it do.
pub chain-desugar :
    (n : ℕ) (t : Option Expr) (m : Bool) (v : Expr) (vs : Exprs) (body cs : Stmts) (last s : Stmt)
    (b c u : Option ℕ) (d e : Desugarer)
    → may_yield (or_tests t (test t v) vs) ≡ false
    → any_marked body ≡ false
    → chain t (cons (case_clause m (Ast.Exprs.cons v vs) body) cs) last d ≡ done s e
    → desugar (suc n) s b c u e ≡ done s e
unfolding chain new_var
chain-desugar n t m v vs body cs last s b c u d e quiet still h =
    let (rest, d₁, q, r) = bound-done (chain t cs last _) _ s e h in
    left n s b c u e
      (ap marked (sym (done-inj r)) ∙ unmarked_if (ident (tmp d.vars)) _ body rest quiet still)

-- For a switch over a call without cases, `switch f() {}`, desugar evaluates the call for a
-- variable, and leaves it as the tag of the switch.
pub empty_switch-desugar :
    (n : ℕ) (f : Name) (b c : Option ℕ) (d : Desugarer)
    → (e : Desugarer) × (desugar
          (suc (suc n))
          (switch true no_stmt (node true (call false) (one (ident f))) nil)
          b
          c
          none
          d
        ≡ done
            (block false (
              cons
                (assign true
                  (one (ident (tmp d.vars)))
                  define
                  (one (node true (call false) (one (ident f)))))
                (only (
                  labeled false (generated d.labels) (
                    switch false no_stmt
                      (node true (call false) (one (ident f)))
                      (only (case_clause false Ast.Exprs.nil (only empty))))))))
            e)
unfolding desugar new_var new_label add_user_label decompose_expression may_yield size
empty_switch-desugar n f b c d = (_, refl)
