-- ===== src/Compiler/Unsupported/Verdict.antt =====
-- The walk finds an error just where there is one.
use coroutine_durable_fork.Prelude.{Option, none, some, ◌≡◌, ◌⊎◌, inl, inr}
use coroutine_durable_fork.Compiler.Unsupported.{
  Fault, Node, absent, statement, labeled, for_loop, expr, Nodes, nil, cons, PostStmt, no_post,
  inc_dec, assign, other_post, set_error, descend, inspect, inspect_all, inspect_post,
}
use coroutine_durable_fork.Compiler.Unsupported.Faults.{
  IsRejected, IsMislabeled, IsBadPost, Verdict, clean, faulty, stmt_fault-Verdict,
  label_fault-Verdict, post_fault-Verdict,
}

-- A node of the tree has the error.
unfoldable mutual
  pub Finds : Node → Fault → Type 0
  Finds absent e = ⊥
  Finds (statement k ns) e = IsRejected k e ⊎ AnyFinds ns e
  Finds (labeled l s) e = IsMislabeled s e ⊎ (Finds l e ⊎ Finds s e)
  Finds (for_loop i c p b) e =
      IsBadPost p e ⊎ (((Finds i e ⊎ Finds c e) ⊎ PostFinds p e) ⊎ Finds b e)
  Finds (expr f ns) e = AnyFinds ns e

  pub AnyFinds : Nodes → Fault → Type 0
  AnyFinds nil e = ⊥
  AnyFinds (cons n ns) e = Finds n e ⊎ AnyFinds ns e

  pub PostFinds : PostStmt → Fault → Type 0
  PostFinds no_post e = ⊥
  PostFinds (inc_dec x) e = Finds x e
  PostFinds (assign ls rs) e = AnyFinds ls e ⊎ AnyFinds rs e
  PostFinds (other_post s) e = Finds s e

-- An error stays, or is replaced by another one.
data Held (F : Fault → Type 0) (e : Fault) : Option Fault → Type 0 where
  kept : Held F e (some e)
  replaced : (f : Fault) → F f → Held F e (some f)

Held-faulty :
    {F G : Fault → Type 0} {e : Fault} {o : Option Fault}
    → F e
    → Held G e o
    → Verdict (λ f. F f ⊎ G f) o
Held-faulty {e = e} h kept = faulty e (inl h)
Held-faulty h (replaced f k) = faulty f (inr k)

widened :
    {F G : Fault → Type 0} {o : Option Fault}
    → ((e : Fault) → F e → ⊥)
    → Verdict G o
    → Verdict (λ f. F f ⊎ G f) o
widened h (clean k) = clean (λ e f. elim f [ inl x ↦ h e x | inr y ↦ k e y ])
widened h (faulty e y) = faulty e (inr y)

-- One walk and then another.
next :
    {F G : Fault → Type 0} {o : Option Fault} (g : Option Fault → Option Fault)
    → Verdict F o
    → Verdict G (g none)
    → ((e : Fault) → Held G e (g (some e)))
    → Verdict (λ f. F f ⊎ G f) (g o)
next g (faulty e h) v k = Held-faulty h (k e)
next g (clean h) v k = widened h v

later :
    {F G : Fault → Type 0} {e : Fault} {o : Option Fault} → Held G e o → Held (λ f. F f ⊎ G f) e o
later kept = kept
later (replaced f h) = replaced f (inr h)

after :
    {F G : Fault → Type 0} {e f : Fault} {o : Option Fault}
    → F f
    → Held G f o
    → Held (λ f. F f ⊎ G f) e o
after {f = f} h kept = replaced f (inl h)
after h (replaced f k) = replaced f (inr k)

no_fault : {e : Fault} → none ≡ some e → ⊥
no_fault h = cc

Held-next :
    {F G : Fault → Type 0} {e : Fault} {o : Option Fault} (g : Option Fault → Option Fault)
    → Held F e o
    → ((f : Fault) → Held G f (g (some f)))
    → Held (λ f. F f ⊎ G f) e (g o)
Held-next g kept k = later (k _)
Held-next g (replaced f h) k = after h (k f)

-- A check, and the children.
checked :
    {F G : Fault → Type 0} {o r : Option Fault}
    → Verdict F o
    → Verdict G r
    → Verdict (λ e. F e ⊎ G e) (descend (set_error o none) r)
checked (clean h) v = widened h v
checked (faulty e h) v = faulty e (inl h)

Held-checked :
    (F G : Fault → Type 0) {o : Option Fault} (e : Fault) (r : Option Fault)
    → Verdict F o
    → Held (λ f. F f ⊎ G f) e (descend (set_error o (some e)) r)
Held-checked F G e r (clean h) = kept
Held-checked F G e r (faulty f h) = replaced f (inl h)

mutual
  unfolding inspect Finds

  inspect-Held : (n : Node) (e : Fault) → Held (Finds n) e (inspect n (some e))
  inspect-Held absent e = kept
  inspect-Held (statement k ns) e = Held-checked _ (AnyFinds ns) e _ (stmt_fault-Verdict k)
  inspect-Held (labeled l s) e = Held-checked _ _ e _ (label_fault-Verdict s)
  inspect-Held (for_loop i c p b) e = Held-checked _ _ e _ (post_fault-Verdict p)
  inspect-Held (expr f ns) e = kept

  inspect_all-Held : (ns : Nodes) (e : Fault) → Held (AnyFinds ns) e (inspect_all ns (some e))
  inspect_all-Held nil e = kept
  inspect_all-Held (cons n ns) e =
      Held-next (inspect_all ns) (inspect-Held n e) (inspect_all-Held ns)

  inspect_post-Held : (p : PostStmt) (e : Fault) → Held (PostFinds p) e (inspect_post p (some e))
  inspect_post-Held no_post e = kept
  inspect_post-Held (inc_dec x) e = kept
  inspect_post-Held (assign ls rs) e = kept
  inspect_post-Held (other_post s) e = inspect-Held s e

mutual
  unfolding inspect Finds

  inspect-Verdict : (n : Node) → Verdict (Finds n) (inspect n none)
  inspect-Verdict absent = clean (λ e h. h)
  inspect-Verdict (statement k ns) = checked (stmt_fault-Verdict k) (inspect_all-Verdict ns)
  inspect-Verdict (labeled l s) =
      checked (label_fault-Verdict s)
        (next (inspect s) (inspect-Verdict l) (inspect-Verdict s) (inspect-Held s))
  inspect-Verdict (for_loop i c p b) = checked (post_fault-Verdict p) (
      next (inspect b)
        (next (inspect_post p)
          (next (inspect c) (inspect-Verdict i) (inspect-Verdict c) (inspect-Held c))
          (inspect_post-Verdict p) (inspect_post-Held p))
        (inspect-Verdict b) (inspect-Held b))
  inspect-Verdict (expr f ns) = inspect_all-Verdict ns

  inspect_all-Verdict : (ns : Nodes) → Verdict (AnyFinds ns) (inspect_all ns none)
  inspect_all-Verdict nil = clean (λ e h. h)
  inspect_all-Verdict (cons n ns) =
      next (inspect_all ns) (inspect-Verdict n) (inspect_all-Verdict ns) (inspect_all-Held ns)

  inspect_post-Verdict : (p : PostStmt) → Verdict (PostFinds p) (inspect_post p none)
  inspect_post-Verdict no_post = clean (λ e h. h)
  inspect_post-Verdict (inc_dec x) = inspect-Verdict x
  inspect_post-Verdict (assign ls rs) =
      next (inspect_all rs) (inspect_all-Verdict ls) (inspect_all-Verdict rs) (inspect_all-Held rs)
  inspect_post-Verdict (other_post s) = inspect-Verdict s
