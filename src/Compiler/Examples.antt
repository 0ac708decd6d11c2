-- ===== src/Compiler/Examples.antt =====
-- The passes of the compiler on small inputs.
use coroutine_durable_fork.Prelude.{ℕ, ◌≡◌, refl, arith, Bool, true, false, [], ◌∷◌, none, some}
use text.Mathlib.Text.{◌==◌ as str_eq}
use coroutine_durable_fork.Compiler.Syntax.{
  renote, Stmt, Block, leaf, plain, for_loop, inc_dec, inc, source, braces, nil, cons,
}
use coroutine_durable_fork.Compiler.Dispatch.{unnest, track, track_dispatch_spans, compile}
use coroutine_durable_fork.Compiler.Dispatch.Spans.{
  ids_block, count, interval, track_dispatch_spans_lem,
}
use coroutine_durable_fork.Compiler.Dispatch.Resume.{chosen, clauses, clauses_resume, clauses_begin}
use coroutine_durable_fork.Compiler.Dispatch.Fall.{IsSolid, executed, in_turn, resume_in_turn}
use coroutine_durable_fork.Compiler.Constraint.{
  File, tag, with_build_tag, parse_build_tags, strip_build_tags_of,
}
use coroutine_durable_fork.Compiler.Constraint.Laws.{built, holds, build_tags_split, parse-strip}

-- a leaf that may yield, and one that may not
abbrev yielding : ℕ → Stmt Bool ℕ ℕ
yielding n = leaf true (plain n)

abbrev quiet : ℕ → Stmt Bool ℕ ℕ
quiet n = leaf false (plain n)

-- for ; ; x++ { quiet; yield }
abbrev looping : Stmt Bool ℕ ℕ
looping =
    for_loop true [] (inc_dec (source 0) inc) (braces true (cons (quiet 2) (cons (yielding 3) nil)))

abbrev body : Block Bool ℕ ℕ
body = braces true (cons (yielding 1) (cons looping (cons (quiet 4) nil)))

track_dispatch_spans_example : ids_block (track_dispatch_spans body) ≡ 1 ∷ 2 ∷ 3 ∷ 4 ∷ []
unfolding count interval
track_dispatch_spans_example = (track_dispatch_spans_lem body).0

-- IP 3 lies in the loop.
clauses_resume_example :
    chosen 3 (clauses (cons (yielding 1) (cons looping (cons (quiet 4) nil))) 1)
    ≡ clauses (cons looping (cons (quiet 4) nil)) 2
unfolding count
clauses_resume_example =
    clauses_resume (cons (yielding 1) nil) looping (cons (quiet 4) nil) 1 3 (omega arith)
      (omega arith)

clauses_begin_example :
    chosen 0 (clauses (cons (yielding 1) (cons looping nil)) 1)
    ≡ clauses (cons (yielding 1) (cons looping nil)) 1
clauses_begin_example = clauses_begin (yielding 1) (cons looping nil) 1 (omega arith)

build_tags_split_example :
    built (λ t. true) (with_build_tag (some (tag "linux")) (some "durable")) ≡ true
unfolding holds
build_tags_split_example = (build_tags_split (λ t. true) (some (tag "linux")) "durable").0

-- a file with a constraint and a comment
abbrev tagged : File
tagged = record { comments = ("//go:build linux" ∷ "// a note" ∷ []) ∷ []; doc = none }

parse_stripped :
    parse_build_tags
      (str_eq "//go:build linux")
      (λ c. false)
      (λ c. some (tag "linux"))
      (strip_build_tags_of (str_eq "//go:build linux") (λ c. false) tagged)
    ≡ some none
parse_stripped =
    parse-strip (str_eq "//go:build linux") (λ c. false) (λ c. some (tag "linux")) tagged

loop_and_leaf-IsSolid : IsSolid (cons looping (cons (quiet 4) nil)) 2
unfolding track compile unnest count renote
loop_and_leaf-IsSolid = (refl, (refl, tt))

resume_in_turn_example :
    executed (chosen 3 (clauses (cons (yielding 1) (cons looping (cons (quiet 4) nil))) 1))
    ≡ in_turn (cons looping (cons (quiet 4) nil)) 2
unfolding count
resume_in_turn_example =
    resume_in_turn (cons (yielding 1) nil) looping (cons (quiet 4) nil) 1 3 (omega arith)
      (omega arith) loop_and_leaf-IsSolid
