-- ===== src/Compiler/Dispatch/Fall.antt =====
-- How the clauses of compileDispatch0 lead from one statement to the next: by fallthrough.
use coroutine_durable_fork.Prelude.{ℕ, ◌+◌, ◌≤◌, ◌<◌, ◌≡◌, refl, ap, ◌∙◌, Bool, true, false}
use coroutine_durable_fork.Compiler.Syntax.{
  ip, literal, set, fall_through, Stmt, leaf, case_clause, Stmts, nil, cons, note, ◌+++◌,
}
use coroutine_durable_fork.Compiler.Dispatch.{
  Note, unnest, track, track_list, compile, compile_each, cases, passing_on,
}
use coroutine_durable_fork.Compiler.Dispatch.Spans.{count, count_list, track_end}
use coroutine_durable_fork.Compiler.Dispatch.Resume.{chosen, clauses, clauses_resume, end_of}

module _ {A E L : Type 0} where
  abbrev pub is_fall : Stmt A E L → Bool
  is_fall (leaf a fall_through) = true
  is_fall _ = false

  -- A body, with what runs instead of its fallthrough.
  unfoldable pub through : Stmts A E L → Stmts A E L → Stmts A E L
  through nil k = nil
  through (cons s ss) k =
      let rest = through ss k in elim (is_fall s) [ true ↦ k | false ↦ cons s rest ]

  -- The statements that run when the first clause is entered.
  unfoldable pub executed : Stmts A E L → Stmts A E L
  unfolding through
  executed nil = nil
  executed (cons (case_clause a g body) rest) = through body (executed rest)
  executed (cons s rest) = nil

  through_fall :
      (s : Stmt A E L) (ss k : Stmts A E L)
      → is_fall s ≡ false
      → through (cons s ss) k ≡ cons s (through ss k)
  unfolding through
  through_fall s ss k e = rw (e, through) refl

module _ {E L : Type 0} where
  -- The statements of a list in their order, compiled, with IP moved on between two of them.
  unfoldable pub in_turn : Stmts Bool E L → ℕ → Stmts (Unit {0}) E L
  in_turn nil n = nil
  in_turn (cons s nil) n = cons (unnest (compile (track s n).0)) nil
  in_turn (cons s (cons t ss)) n =
      cons (unnest (compile (track s n).0))
        (cons (leaf tt (set ip (literal (n + count s)))) (in_turn (cons t ss) (n + count s)))

  -- No compiled statement is itself a fallthrough.
  abbrev pub IsSolid : Stmts Bool E L → ℕ → Type 0
  IsSolid nil n = Unit {0}
  IsSolid (cons s ss) n =
      (is_fall (unnest (compile (track s n).0)) ≡ false) × IsSolid ss (n + count s)

  executed-cases :
      (s t : Stmt Note E L) (ss : Stmts Note E L) (c : Stmt (Unit {0}) E L)
      (cs : Stmts (Unit {0}) E L)
      → is_fall (unnest c) ≡ false
      → executed (cases (cons s (cons t ss)) (cons c cs))
        ≡ cons
            (unnest c)
            (cons (leaf tt (set ip (literal (note s).span.end))) (executed (cases (cons t ss) cs)))
  unfolding executed cases through
  executed-cases s t ss c cs e =
      through_fall (unnest c) (passing_on (note s).span.end) (executed (cases (cons t ss) cs)) e

  executed_last :
      (s : Stmt Note E L) (c : Stmt (Unit {0}) E L)
      → is_fall (unnest c) ≡ false
      → executed (cases (cons s nil) (cons c nil)) ≡ cons (unnest c) nil
  unfolding executed cases through
  executed_last s c e = through_fall (unnest c) nil nil e

  in_turn_step : Stmt Bool E L → ℕ → ℕ → Stmts (Unit {0}) E L → Stmts (Unit {0}) E L
  in_turn_step s n end rest =
      cons (unnest (compile (track s n).0)) (cons (leaf tt (set ip (literal end))) rest)

  executed-clauses :
      (s : Stmt Bool E L) (ss : Stmts Bool E L) (n : ℕ)
      → IsSolid (cons s ss) n
      → executed (clauses (cons s ss) n) ≡ in_turn (cons s ss) n
  unfolding in_turn track compile in_turn_step
  executed-clauses s nil n (e, h) = executed_last (track s n).0 (compile (track s n).0) e
  executed-clauses s (cons t ss) n (e, h) =
      let m : ℕ = (track s n).1 in
      executed-cases (track s n).0 (track t m).0 (track_list ss (track t m).1).0
        (compile (track s n).0)
        (cons (compile (track t m).0) (compile_each (track_list ss (track t m).1).0)) e
      ∙ ap (λ end. in_turn_step s n end (executed (clauses (cons t ss) m))) (end_of s n)
      ∙ ap (λ k. in_turn_step s n (n + count s) (executed (clauses (cons t ss) k))) (track_end s n)
      ∙ ap (in_turn_step s n (n + count s)) (executed-clauses t ss (n + count s) h)

  -- Entered at a value of IP within the span of one of its statements, the switch runs this
  -- statement and those behind it in their order, each compiled, and moves IP on between them;
  -- none of them, compiled, may be a fallthrough itself.
  pub resume_in_turn :
      (before : Stmts Bool E L) (s : Stmt Bool E L) (after : Stmts Bool E L) (n i : ℕ)
      → n + count_list before ≤ i
      → i < n + count_list before + count s
      → IsSolid (cons s after) (n + count_list before)
      → executed (chosen i (clauses (before +++ cons s after) n))
        ≡ in_turn (cons s after) (n + count_list before)
  resume_in_turn before s after n i lo hi h =
      ap executed (clauses_resume before s after n i lo hi)
      ∙ executed-clauses s after (n + count_list before) h
