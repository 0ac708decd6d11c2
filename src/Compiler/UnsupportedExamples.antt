-- ===== src/Compiler/UnsupportedExamples.antt =====
-- The walk over a labeled range statement with a goto in it, and what follows it.
use coroutine_durable_fork.Prelude.{◌≡◌, refl, some}
use coroutine_durable_fork.Compiler.Unsupported.{
  goto_stmt, post_call, goto, plain, no_call, function, Node, absent, statement, labeled, for_loop,
  expr, nil, cons, inc_dec, unsupported,
}
use coroutine_durable_fork.Compiler.Unsupported.Faults.{Verdict}

abbrev jump : Node
jump = statement goto nil

-- l: for range x { goto l }
abbrev labeled_range : Node
labeled_range = labeled (expr no_call nil) (statement plain (cons jump nil))

-- The goto below the error is not seen, one behind it replaces the error.
replaced_by_goto :
    unsupported (statement plain (cons labeled_range (cons jump nil))) ≡ some goto_stmt
unfolding unsupported
replaced_by_goto = refl

-- for ; ; f()++ {}
call_in_post :
    unsupported (for_loop absent absent (inc_dec (expr function nil)) (statement plain nil))
    ≡ some post_call
unfolding unsupported
call_in_post = refl
