-- ===== src/Compiler/Dispatch/Resume.antt =====
-- How the switch of compileDispatch0 leads a resumed function to its statement.
use coroutine_durable_fork.Prelude.{
  refl, ap, ℕ, ◌+◌, ◌≤◌, ◌<◌, ◌≡◌, arith, Bool, false, [], ◌∷◌, ltb, if◌then◌else◌, lt→ltb, ◌∙◌,
}
use native.Mathlib.Nat.{add-zero}
use coroutine_durable_fork.Compiler.Syntax.{
  renote, Expr, ip, literal, binary, lss, Stmt, leaf, block, if_else, for_loop, switch, type_switch,
  select, case_clause, comm_clause, labeled, braces, Stmts, nil, cons, note, ◌+++◌,
}
use coroutine_durable_fork.Compiler.Dispatch.{
  strip, renote, Note, track, track_list, compile, compile_each, cases,
}
use coroutine_durable_fork.Compiler.Dispatch.Spans.{count, count_list, track_end, note_span}

-- A guard _f.IP < k at the value `i` of the frame's IP.
abbrev pub admits : {E : Type 0} → ℕ → Expr E → Bool
admits i (binary lss ip (literal k)) = ltb i k
admits i _ = false

module _ {E L : Type 0} where
  -- Go's choice among the clauses of a switch with no tag, with the clauses that follow, into
  -- which the chosen one may fall through.
  pub chosen : ℕ → Stmts (Unit {0}) E L → Stmts (Unit {0}) E L
  chosen i (cons (case_clause a (g ∷ []) body) rest) =
      if admits i g then cons (case_clause a (g ∷ []) body) rest else chosen i rest
  chosen i (cons s rest) = chosen i rest
  chosen i nil = nil

  chosen_skip :
      (i : ℕ) (s t : Stmt Note E L) (ss : Stmts Note E L) (c : Stmt (Unit {0}) E L)
      (cs : Stmts (Unit {0}) E L)
      → (note s).span.end ≤ i
      → chosen i (cases (cons s (cons t ss)) (cons c cs)) ≡ chosen i (cases (cons t ss) cs)
  unfolding chosen cases
  chosen_skip i s t ss c cs le = ground arith

  chosen_here :
      (i : ℕ) (s : Stmt Note E L) (ss : Stmts Note E L) (c : Stmt (Unit {0}) E L)
      (cs : Stmts (Unit {0}) E L)
      → i < (note s).span.end
      → chosen i (cases (cons s ss) (cons c cs)) ≡ cases (cons s ss) (cons c cs)
  unfolding chosen cases
  chosen_here i s nil c cs lt = rw (lt→ltb _ _ lt)
  chosen_here i s (cons t ss) c cs lt = rw (lt→ltb _ _ lt)

  -- The clauses for a list of statements that is numbered from `n` on.
  abbrev pub clauses : Stmts Bool E L → ℕ → Stmts (Unit {0}) E L
  clauses ss n = cases (track_list ss n).0 (compile_each (track_list ss n).0)

  pub end_of : (s : Stmt Bool E L) (n : ℕ) → (note (track s n).0).span.end ≡ n + count s
  end_of s n = rw (note_span s n) (track_end s n)

  skip_first :
      (i n : ℕ) (s t : Stmt Bool E L) (ss : Stmts Bool E L)
      → n + count s ≤ i
      → chosen i (clauses (cons s (cons t ss)) n) ≡ chosen i (clauses (cons t ss) (n + count s))
  unfolding track compile
  skip_first i n s t ss le =
      let m : ℕ = (track s n).1 in
      let passed : (note (track s n).0).span.end ≤ i = rw (end_of s n) le in
      chosen_skip i (track s n).0 (track t m).0 (track_list ss (track t m).1).0
        (compile (track s n).0)
        (cons (compile (track t m).0) (compile_each (track_list ss (track t m).1).0)) passed
      ∙ ap (λ k. chosen i (clauses (cons t ss) k)) (track_end s n)

  first_here :
      (i n : ℕ) (s : Stmt Bool E L) (ss : Stmts Bool E L)
      → i < n + count s
      → chosen i (clauses (cons s ss) n) ≡ clauses (cons s ss) n
  unfolding track compile
  first_here i n s ss lt =
      chosen_here i (track s n).0 (track_list ss (track s n).1).0 (compile (track s n).0)
        (compile_each (track_list ss (track s n).1).0) (rw (end_of s n) lt)

  -- A switch over a list of statements is entered at the statement whose span holds IP, with the
  -- clauses of all that follow it, and those before it are passed over.
  pub clauses_resume :
      (before : Stmts Bool E L) (s : Stmt Bool E L) (after : Stmts Bool E L) (n i : ℕ)
      → n + count_list before ≤ i
      → i < n + count_list before + count s
      → chosen i (clauses (before +++ cons s after) n)
        ≡ clauses (cons s after) (n + count_list before)
  unfolding count
  clauses_resume nil s after n i lo hi = rw add-zero (first_here i n s after (omega arith))
  clauses_resume (cons b nil) s after n i lo hi =
      skip_first i n b s after (omega arith)
      ∙ rw add-zero (first_here i (n + count b) s after (omega arith))
  clauses_resume (cons b (cons b' bs)) s after n i lo hi =
      let m : ℕ = n + count b in
      skip_first i n b b' (bs +++ cons s after) (omega arith)
      ∙ clauses_resume (cons b' bs) s after m i (omega arith) (omega arith)
      ∙ ap (clauses (cons s after)) (omega arith)

  -- A call that begins, with IP at 0, enters at the first statement.
  pub clauses_begin :
      (s : Stmt Bool E L) (after : Stmts Bool E L) (n : ℕ)
      → 0 < n
      → chosen 0 (clauses (cons s after) n) ≡ clauses (cons s after) n
  clauses_begin s after n pos = first_here 0 n s after (omega arith)

-- A statement that cannot yield is compiled to itself, whatever it is made of.
compile_unyielding :
    {E L : Type 0} (s : Stmt Note E L) → (note s).yields ≡ false → compile s ≡ strip s
unfolding compile renote
compile_unyielding (leaf a l) e = refl
compile_unyielding (block (braces a ss)) e = rw e
compile_unyielding (if_else a c b _) e = rw e
compile_unyielding (for_loop a c p b) e = rw e
compile_unyielding (switch a t (braces b ss)) e = rw e
compile_unyielding (type_switch a t (braces b ss)) e = rw e
compile_unyielding (select a (braces b ss)) e = rw e
compile_unyielding (case_clause a g ss) e = rw e
compile_unyielding (comm_clause a c ss) e = rw e
compile_unyielding (labeled a l s) e = rw e
