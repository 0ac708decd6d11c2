-- ===== src/Compiler/Unsupported/Faults.antt =====
-- What unsupported of compiler/unsupported.go is to find at a node, and its checks of one node.
use coroutine_durable_fork.Prelude.{
  ℕ, suc, ◌+◌, ◌<◌, Bool, true, false, ◌||◌, ◌==◌, ltb, arith, Option, none, some, ◌≡◌, ◌⊎◌, refl,
  inl, inr,
}
use coroutine_durable_fork.Compiler.Unsupported.{
  Fault, Node, absent, statement, labeled, for_loop, expr, Nodes, nil, cons, PostStmt, no_post,
  inc_dec, assign, other_post, StmtKind, go, goto, fall_through, switch, type_switch, select, plain,
  unknown, go_stmt, goto_stmt, fallthrough_stmt, label, unbalanced_post, post_stmt, post_call,
  unknown_stmt, no_call, builtin, type_name, of_unsafe, function, count_function_calls, count_all,
  count_post, number_of, any_call, stmt_fault, label_fault, post_fault,
}

-- The statements that are not supported, wherever they stand.
abbrev pub IsRejected : StmtKind → Fault → Type 0
IsRejected go e = e ≡ go_stmt
IsRejected goto e = e ≡ goto_stmt
IsRejected fall_through e = e ≡ fallthrough_stmt
IsRejected unknown e = e ≡ unknown_stmt
IsRejected _ e = ⊥

-- The statements that may have a label.
abbrev pub TakesLabel : Node → Type 0
TakesLabel (for_loop i c p b) = Unit
TakesLabel (statement switch ns) = Unit
TakesLabel (statement type_switch ns) = Unit
TakesLabel (statement select ns) = Unit
TakesLabel _ = ⊥

abbrev pub IsMislabeled : Node → Fault → Type 0
IsMislabeled s e = (e ≡ label) × (TakesLabel s → ⊥)

-- In the node a function is called, and no builtin, type or function of unsafe.
unfoldable mutual
  pub Calls : Node → Type 0
  Calls absent = ⊥
  Calls (statement k ns) = AnyCalls ns
  Calls (labeled l s) = Calls l ⊎ Calls s
  Calls (for_loop i c p b) = ((Calls i ⊎ Calls c) ⊎ PostCalls p) ⊎ Calls b
  Calls (expr function ns) = Unit
  Calls (expr f ns) = AnyCalls ns

  pub AnyCalls : Nodes → Type 0
  AnyCalls nil = ⊥
  AnyCalls (cons n ns) = Calls n ⊎ AnyCalls ns

  pub PostCalls : PostStmt → Type 0
  PostCalls no_post = ⊥
  PostCalls (inc_dec x) = Calls x
  PostCalls (assign ls rs) = AnyCalls ls ⊎ AnyCalls rs
  PostCalls (other_post s) = Calls s

-- One expression for each.
abbrev pub AreBalanced : Nodes → Nodes → Type 0
AreBalanced nil nil = Unit
AreBalanced (cons l ls) (cons r rs) = AreBalanced ls rs
AreBalanced _ _ = ⊥

-- What is wrong with the statement behind each round.
abbrev pub IsBadPost : PostStmt → Fault → Type 0
IsBadPost no_post e = ⊥
IsBadPost (inc_dec x) e = (e ≡ post_call) × Calls x
IsBadPost (assign ls rs) e =
    ((e ≡ post_call) × (AnyCalls ls ⊎ AnyCalls rs))
    ⊎ ((e ≡ unbalanced_post) × (AreBalanced ls rs → ⊥))
IsBadPost (other_post s) e = e ≡ post_stmt

-- No error, and there is none; or one of those that there are.
pub data Verdict (F : Fault → Type 0) : Option Fault → Type 0 where
  clean : ((e : Fault) → F e → ⊥) → Verdict F none
  faulty : (e : Fault) → F e → Verdict F (some e)

pub stmt_fault-Verdict : (k : StmtKind) → Verdict (IsRejected k) (stmt_fault k)
stmt_fault-Verdict go = faulty go_stmt refl
stmt_fault-Verdict goto = faulty goto_stmt refl
stmt_fault-Verdict fall_through = faulty fallthrough_stmt refl
stmt_fault-Verdict unknown = faulty unknown_stmt refl
stmt_fault-Verdict switch = clean (λ e h. h)
stmt_fault-Verdict type_switch = clean (λ e h. h)
stmt_fault-Verdict select = clean (λ e h. h)
stmt_fault-Verdict plain = clean (λ e h. h)

pub label_fault-Verdict : (s : Node) → Verdict (IsMislabeled s) (label_fault s)
label_fault-Verdict (for_loop i c p b) = clean (λ e h. h.1 tt)
label_fault-Verdict (statement switch ns) = clean (λ e h. h.1 tt)
label_fault-Verdict (statement type_switch ns) = clean (λ e h. h.1 tt)
label_fault-Verdict (statement select ns) = clean (λ e h. h.1 tt)
label_fault-Verdict (statement go ns) = faulty label (refl, λ h. h)
label_fault-Verdict (statement goto ns) = faulty label (refl, λ h. h)
label_fault-Verdict (statement fall_through ns) = faulty label (refl, λ h. h)
label_fault-Verdict (statement plain ns) = faulty label (refl, λ h. h)
label_fault-Verdict (statement unknown ns) = faulty label (refl, λ h. h)
label_fault-Verdict absent = faulty label (refl, λ h. h)
label_fault-Verdict (labeled l s) = faulty label (refl, λ h. h)
label_fault-Verdict (expr f ns) = faulty label (refl, λ h. h)

-- A number that is positive just where the property holds.
data Tally (P : Type 0) (k : ℕ) : Type 0 where
  some_calls : P → 0 < k → Tally P k
  no_calls : (P → ⊥) → k ≡ 0 → Tally P k

nobody : Tally ⊥ 0
nobody = no_calls (λ h. h) refl

nought_tallied : {P : Type 0} {k : ℕ} → Tally P k → Tally P (0 + k)
nought_tallied (some_calls p h) = some_calls p (omega (arith, h))
nought_tallied (no_calls f z) = no_calls f (omega (arith, z))

both_tallied : {P Q : Type 0} {a b : ℕ} → Tally P a → Tally Q b → Tally (P ⊎ Q) (a + b)
both_tallied (some_calls p h) t = some_calls (inl p) (omega (arith, h))
both_tallied (no_calls f z) (some_calls q h) = some_calls (inr q) (omega (arith, h))
both_tallied (no_calls f z) (no_calls g y) =
    no_calls (λ h. elim h [ inl p ↦ f p | inr q ↦ g q ]) (omega (arith, z, y))

mutual
  unfolding Calls count_function_calls

  Calls-Tally : (n : Node) → Tally (Calls n) (count_function_calls n)
  Calls-Tally absent = nobody
  Calls-Tally (statement k ns) = all-Tally ns
  Calls-Tally (labeled l s) = both_tallied (Calls-Tally l) (Calls-Tally s)
  Calls-Tally (for_loop i c p b) =
      both_tallied (both_tallied (both_tallied (Calls-Tally i) (Calls-Tally c)) (post-Tally p))
        (Calls-Tally b)
  Calls-Tally (expr function ns) = some_calls tt (omega arith)
  Calls-Tally (expr no_call ns) = nought_tallied (all-Tally ns)
  Calls-Tally (expr builtin ns) = nought_tallied (all-Tally ns)
  Calls-Tally (expr type_name ns) = nought_tallied (all-Tally ns)
  Calls-Tally (expr of_unsafe ns) = nought_tallied (all-Tally ns)

  all-Tally : (ns : Nodes) → Tally (AnyCalls ns) (count_all ns)
  all-Tally nil = nobody
  all-Tally (cons n ns) = both_tallied (Calls-Tally n) (all-Tally ns)

  post-Tally : (p : PostStmt) → Tally (PostCalls p) (count_post p)
  post-Tally no_post = nobody
  post-Tally (inc_dec x) = Calls-Tally x
  post-Tally (assign ls rs) = both_tallied (all-Tally ls) (all-Tally rs)
  post-Tally (other_post s) = Calls-Tally s

-- A test that is true just where the property holds.
data Tells (P : Type 0) (b : Bool) : Type 0 where
  holds : P → b ≡ true → Tells P b
  fails : (P → ⊥) → b ≡ false → Tells P b

Tells-or : {P Q : Type 0} {b c : Bool} → Tells P b → Tells Q c → Tells (P ⊎ Q) (b || c)
Tells-or (holds p h) t = holds (inl p) (rw h refl)
Tells-or (fails f z) (holds q h) = holds (inr q) (rw (z, h) refl)
Tells-or (fails f z) (fails g y) =
    fails (λ h. elim h [ inl p ↦ f p | inr q ↦ g q ]) (rw (z, y) refl)

Tells-count : {P : Type 0} {k : ℕ} → Tally P k → Tells P (ltb 0 k)
Tells-count (some_calls p h) = holds p (ground arith)
Tells-count (no_calls f z) = fails f (ground arith)

Tells-any_call : (ns : Nodes) → Tells (AnyCalls ns) (any_call ns)
unfolding Calls
Tells-any_call nil = fails (λ h. h) refl
Tells-any_call (cons n ns) = Tells-or (Tells-count (Calls-Tally n)) (Tells-any_call ns)

next_number : {P : Type 0} (j k : ℕ) → Tells P (j == k) → Tells P (suc j == suc k)
next_number j k (holds p h) = holds p (ground arith)
next_number j k (fails f h) = fails f (ground arith)

Tells-balanced : (ls rs : Nodes) → Tells (AreBalanced ls rs) (number_of ls == number_of rs)
Tells-balanced nil nil = holds tt refl
Tells-balanced nil (cons r rs) = fails (λ h. h) (ground arith)
Tells-balanced (cons l ls) nil = fails (λ h. h) (ground arith)
Tells-balanced (cons l ls) (cons r rs) =
    next_number (number_of ls) (number_of rs) (Tells-balanced ls rs)

pub post_fault-Verdict : (p : PostStmt) → Verdict (IsBadPost p) (post_fault p)
unfolding post_fault
post_fault-Verdict no_post = clean (λ e h. h)
post_fault-Verdict (inc_dec x) = elim (Tells-count (Calls-Tally x)) [
  | holds c h ↦ rw h (faulty post_call (refl, c))
  | fails f h ↦ rw h (clean (λ e k. f (k.1)))
]
post_fault-Verdict (assign ls rs) = elim (Tells-or (Tells-any_call ls) (Tells-any_call rs)) [
  | holds c h ↦ rw h (faulty post_call (inl (refl, c)))
  | fails f h ↦ elim (Tells-balanced ls rs) [
    | holds p k ↦ rw (h, k) (clean (λ e g. elim g [ inl c ↦ f (c.1) | inr u ↦ u.1 p ]))
    | fails g k ↦ rw (h, k) (faulty unbalanced_post (inr (refl, g)))
  ]
]
post_fault-Verdict (other_post s) = faulty post_stmt refl
