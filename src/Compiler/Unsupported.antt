-- ===== src/Compiler/Unsupported.antt =====
-- compiler/unsupported.go: the walk of ast.Inspect over a function, which looks for features of the
-- language that the compiler does not support. A node has what the walk looks at, and its children in
-- the order of ast.Inspect; a nil node is `absent`.
pub mod Faults
pub mod Verdict
use coroutine_durable_fork.Prelude.{
  ℕ, suc, ◌+◌, Bool, true, false, Option, none, some, ◌==◌, ltb, if◌then◌else◌, not, ◌||◌,
}

pub data Fault : Type 0 where
  go_stmt goto_stmt fallthrough_stmt label unbalanced_post post_stmt post_call unknown_stmt : Fault

-- Statements, without labeled ones and loops; `plain` ones are supported, an `unknown` one is new.
pub data StmtKind : Type 0 where
  go goto fall_through switch type_switch select plain unknown : StmtKind

-- What a call calls; an expression that is no call has `no_call`.
pub data Callee : Type 0 where
  no_call builtin type_name of_unsafe function : Callee

mutual
  pub data Node : Type 0 where
    absent : Node
    statement : StmtKind → Nodes → Node
    labeled : Node → Node → Node
    for_loop : Node → Node → PostStmt → Node → Node
    expr : Callee → Nodes → Node

  pub data Nodes : Type 0 where
    nil : Nodes
    cons : Node → Nodes → Nodes

  pub data PostStmt : Type 0 where
    no_post : PostStmt
    inc_dec : Node → PostStmt
    assign : Nodes → Nodes → PostStmt
    other_post : Node → PostStmt

abbrev pub counted : Callee → ℕ
counted function = 1
counted _ = 0

unfoldable mutual
  pub count_function_calls : Node → ℕ
  count_function_calls absent = 0
  count_function_calls (statement k ns) = count_all ns
  count_function_calls (labeled l s) = count_function_calls l + count_function_calls s
  count_function_calls (for_loop i c p b) =
      count_function_calls i + count_function_calls c + count_post p + count_function_calls b
  count_function_calls (expr f ns) = counted f + count_all ns

  pub count_all : Nodes → ℕ
  count_all nil = 0
  count_all (cons n ns) = count_function_calls n + count_all ns

  pub count_post : PostStmt → ℕ
  count_post no_post = 0
  count_post (inc_dec x) = count_function_calls x
  count_post (assign ls rs) = count_all ls + count_all rs
  count_post (other_post s) = count_function_calls s

abbrev pub stmt_fault : StmtKind → Option Fault
stmt_fault go = some go_stmt
stmt_fault goto = some goto_stmt
stmt_fault fall_through = some fallthrough_stmt
stmt_fault unknown = some unknown_stmt
stmt_fault _ = none

abbrev pub label_fault : Node → Option Fault
label_fault (for_loop i c p b) = none
label_fault (statement switch ns) = none
label_fault (statement type_switch ns) = none
label_fault (statement select ns) = none
label_fault _ = some label

abbrev pub number_of : Nodes → ℕ
number_of nil = 0
number_of (cons n ns) = suc (number_of ns)

abbrev pub any_call : Nodes → Bool
any_call nil = false
any_call (cons n ns) = ltb 0 (count_function_calls n) || any_call ns

-- The last error that is set for the statement behind each round of a loop.
unfoldable pub post_fault : PostStmt → Option Fault
unfolding count_function_calls
post_fault no_post = none
post_fault (inc_dec x) = if ltb 0 (count_function_calls x) then some post_call else none
post_fault (assign ls rs) =
    if any_call ls || any_call rs
    then some post_call
    else if number_of ls == number_of rs
    then none
    else some unbalanced_post
post_fault (other_post s) = some post_stmt

-- An error that is set replaces the one before.
abbrev pub set_error : Option Fault → Option Fault → Option Fault
set_error (some e) err = some e
set_error none err = err

-- The children are visited only as long as there is no error.
abbrev pub descend : Option Fault → Option Fault → Option Fault
descend (some e) below = some e
descend none below = below

unfoldable mutual
  unfolding post_fault

  pub inspect : Node → Option Fault → Option Fault
  inspect absent err = err
  inspect (statement k ns) err = descend (set_error (stmt_fault k) err) (inspect_all ns none)
  inspect (labeled l s) err = descend (set_error (label_fault s) err) (inspect s (inspect l none))
  inspect (for_loop i c p b) err =
      descend (set_error (post_fault p) err)
        (inspect b (inspect_post p (inspect c (inspect i none))))
  inspect (expr f ns) err = descend err (inspect_all ns none)

  pub inspect_all : Nodes → Option Fault → Option Fault
  inspect_all nil err = err
  inspect_all (cons n ns) err = inspect_all ns (inspect n err)

  pub inspect_post : PostStmt → Option Fault → Option Fault
  inspect_post no_post err = err
  inspect_post (inc_dec x) err = descend err (inspect x none)
  inspect_post (assign ls rs) err = descend err (inspect_all rs (inspect_all ls none))
  inspect_post (other_post s) err = inspect s err

unfoldable pub unsupported : Node → Option Fault
unfolding inspect
unsupported n = inspect n none
