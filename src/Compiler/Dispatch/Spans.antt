-- ===== src/Compiler/Dispatch/Spans.antt =====
-- The numbering of statements by trackDispatchSpans.
use coroutine_durable_fork.Prelude.{
  ℕ, Bool, zero, suc, ◌+◌, ◌≡◌, refl, ap, ◌∙◌, arith, List, [], ◌∷◌, ◌++◌,
}
use native.Mathlib.Nat.{add-zero, zero-add}
use coroutine_durable_fork.Compiler.Syntax.{
  Stmt, leaf, block, if_else, for_loop, switch, type_switch, select, case_clause, comm_clause,
  labeled, Else, no_else, else_do, Block, braces, Stmts, nil, cons, note, block_note, renote,
  renote_else, renote_block, renote_list,
}
use coroutine_durable_fork.Compiler.Dispatch.{
  Note, track, track_else, track_block, track_list, track_dispatch_spans,
}

-- The leaves of a tree: the statements that no pass looks into, and the empty blocks.
unfoldable mutual
  pub count : {A E L : Type 0} → Stmt A E L → ℕ
  count (leaf a l) = 1
  count (block b) = count_block b
  count (if_else a c b e) = count_block b + count_else e
  count (for_loop a c p b) = count_block b
  count (switch a t b) = count_block b
  count (type_switch a t b) = count_block b
  count (select a b) = count_block b
  count (case_clause a g ss) = count_list ss
  count (comm_clause a c ss) = count_list ss
  count (labeled a l s) = count s

  pub count_else : {A E L : Type 0} → Else A E L → ℕ
  count_else no_else = 0
  count_else (else_do s) = count s

  pub count_block : {A E L : Type 0} → Block A E L → ℕ
  count_block (braces a nil) = 1
  count_block (braces a (cons s ss)) = count s + count_list ss

  pub count_list : {A E L : Type 0} → Stmts A E L → ℕ
  count_list nil = 0
  count_list (cons s ss) = count s + count_list ss

-- The numbers that the leaves were given, from left to right.
unfoldable mutual
  pub ids : {E L : Type 0} → Stmt Note E L → List ℕ
  ids (leaf a l) = a.span.start ∷ []
  ids (block b) = ids_block b
  ids (if_else a c b e) = ids_block b ++ ids_else e
  ids (for_loop a c p b) = ids_block b
  ids (switch a t b) = ids_block b
  ids (type_switch a t b) = ids_block b
  ids (select a b) = ids_block b
  ids (case_clause a g ss) = ids_list ss
  ids (comm_clause a c ss) = ids_list ss
  ids (labeled a l s) = ids s

  pub ids_else : {E L : Type 0} → Else Note E L → List ℕ
  ids_else no_else = []
  ids_else (else_do s) = ids s

  pub ids_block : {E L : Type 0} → Block Note E L → List ℕ
  ids_block (braces a nil) = a.span.start ∷ []
  ids_block (braces a (cons s ss)) = ids s ++ ids_list ss

  pub ids_list : {E L : Type 0} → Stmts Note E L → List ℕ
  ids_list nil = []
  ids_list (cons s ss) = ids s ++ ids_list ss

-- n, n + 1, and so on, k numbers in all.
unfoldable pub interval : ℕ → ℕ → List ℕ
interval n zero = []
interval n (suc k) = n ∷ interval (suc n) k

interval-append : (n j k : ℕ) → interval n j ++ interval (n + j) k ≡ interval n (j + k)
unfolding interval
interval-append n zero k = rw (add-zero, zero-add)
interval-append n (suc j) k =
    let inner : n + suc j ≡ suc n + j = omega arith in
    let total : suc j + k ≡ suc (j + k) = omega arith in
    rw (inner, total) (ap (λ xs. n ∷ xs) (interval-append (suc n) j k))

-- Two parts, numbered one after the other.
joined :
    (n j k m : ℕ) {xs ys : List ℕ}
    → m ≡ n + j
    → xs ≡ interval n j
    → ys ≡ interval m k
    → xs ++ ys ≡ interval n (j + k)
joined n j k m e p q = rw (p, q, e) (interval-append n j k)

mutual
  unfolding track count

  pub track_end : {E L : Type 0} (s : Stmt Bool E L) (n : ℕ) → (track s n).1 ≡ n + count s
  track_end (leaf a l) n = refl
  track_end (block b) n = track_block_end b n
  track_end (if_else a c b e) n =
      omega (arith, track_block_end b n, track_else_end e (track_block b n).1)
  track_end (for_loop a c p b) n = track_block_end b n
  track_end (switch a t b) n = track_block_end b n
  track_end (type_switch a t b) n = track_block_end b n
  track_end (select a b) n = track_block_end b n
  track_end (case_clause a g ss) n = track_list_end ss n
  track_end (comm_clause a c ss) n = track_list_end ss n
  track_end (labeled a l s) n = track_end s n

  track_else_end :
      {E L : Type 0} (e : Else Bool E L) (n : ℕ) → (track_else e n).1 ≡ n + count_else e
  track_else_end no_else n = omega arith
  track_else_end (else_do s) n = track_end s n

  track_block_end :
      {E L : Type 0} (b : Block Bool E L) (n : ℕ) → (track_block b n).1 ≡ n + count_block b
  track_block_end (braces a nil) n = refl
  track_block_end (braces a (cons s ss)) n =
      omega (arith, track_end s n, track_list_end ss (track s n).1)

  pub track_list_end :
      {E L : Type 0} (ss : Stmts Bool E L) (n : ℕ) → (track_list ss n).1 ≡ n + count_list ss
  track_list_end nil n = omega arith
  track_list_end (cons s ss) n = omega (arith, track_end s n, track_list_end ss (track s n).1)

mutual
  unfolding track count ids interval

  ids-track : {E L : Type 0} (s : Stmt Bool E L) (n : ℕ) → ids (track s n).0 ≡ interval n (count s)
  ids-track (leaf a l) n = refl
  ids-track (block b) n = ids-track_block b n
  ids-track (if_else a c b e) n =
      joined n (count_block b) (count_else e) (track_block b n).1 (track_block_end b n)
        (ids-track_block b n) (ids-track_else e (track_block b n).1)
  ids-track (for_loop a c p b) n = ids-track_block b n
  ids-track (switch a t b) n = ids-track_block b n
  ids-track (type_switch a t b) n = ids-track_block b n
  ids-track (select a b) n = ids-track_block b n
  ids-track (case_clause a g ss) n = ids-track_list ss n
  ids-track (comm_clause a c ss) n = ids-track_list ss n
  ids-track (labeled a l s) n = ids-track s n

  ids-track_else :
      {E L : Type 0} (e : Else Bool E L) (n : ℕ)
      → ids_else (track_else e n).0 ≡ interval n (count_else e)
  ids-track_else no_else n = refl
  ids-track_else (else_do s) n = ids-track s n

  ids-track_block :
      {E L : Type 0} (b : Block Bool E L) (n : ℕ)
      → ids_block (track_block b n).0 ≡ interval n (count_block b)
  ids-track_block (braces a nil) n = refl
  ids-track_block (braces a (cons s ss)) n =
      joined n (count s) (count_list ss) (track s n).1 (track_end s n) (ids-track s n)
        (ids-track_list ss (track s n).1)

  ids-track_list :
      {E L : Type 0} (ss : Stmts Bool E L) (n : ℕ)
      → ids_list (track_list ss n).0 ≡ interval n (count_list ss)
  ids-track_list nil n = refl
  ids-track_list (cons s ss) n =
      joined n (count s) (count_list ss) (track s n).1 (track_end s n) (ids-track s n)
        (ids-track_list ss (track s n).1)

mutual
  unfolding track renote

  kept : {E L : Type 0} (s : Stmt Bool E L) (n : ℕ) → renote (λ a. a.yields) (track s n).0 ≡ s
  kept (leaf a l) n = refl
  kept (block b) n = ap block (kept_block b n)
  kept (if_else a c b e) n = rw (kept_block b n, kept_else e (track_block b n).1)
  kept (for_loop a c p b) n = rw (kept_block b n)
  kept (switch a t b) n = rw (kept_block b n)
  kept (type_switch a t b) n = rw (kept_block b n)
  kept (select a b) n = rw (kept_block b n)
  kept (case_clause a g ss) n = rw (kept_list ss n)
  kept (comm_clause a c ss) n = rw (kept_list ss n)
  kept (labeled a l s) n = rw (kept s n)

  kept_else :
      {E L : Type 0} (e : Else Bool E L) (n : ℕ)
      → renote_else (λ a. a.yields) (track_else e n).0 ≡ e
  kept_else no_else n = refl
  kept_else (else_do s) n = rw (kept s n)

  kept_block :
      {E L : Type 0} (b : Block Bool E L) (n : ℕ)
      → renote_block (λ a. a.yields) (track_block b n).0 ≡ b
  kept_block (braces a nil) n = refl
  kept_block (braces a (cons s ss)) n = rw (kept s n, kept_list ss (track s n).1)

  kept_list :
      {E L : Type 0} (ss : Stmts Bool E L) (n : ℕ)
      → renote_list (λ a. a.yields) (track_list ss n).0 ≡ ss
  kept_list nil n = refl
  kept_list (cons s ss) n = rw (kept s n, kept_list ss (track s n).1)

block_span :
    {E L : Type 0} (b : Block Bool E L) (n : ℕ)
    → (block_note (track_block b n).0).span ≡ record { start = n; end = (track_block b n).1 }
unfolding track
block_span (braces a nil) n = refl
block_span (braces a (cons s ss)) n = refl

pub note_span :
    {E L : Type 0} (s : Stmt Bool E L) (n : ℕ)
    → (note (track s n).0).span ≡ record { start = n; end = (track s n).1 }
unfolding track
note_span (block b) n = block_span b n
note_span (leaf a l) n = refl
note_span (if_else a c b e) n = refl
note_span (for_loop a c p b) n = refl
note_span (switch a t b) n = refl
note_span (type_switch a t b) n = refl
note_span (select a b) n = refl
note_span (case_clause a g ss) n = refl
note_span (comm_clause a c ss) n = refl
note_span (labeled a l s) n = refl

-- trackDispatchSpans numbers the leaves of a body from 1 on, each with the next number, from left
-- to right and without a gap. The span of the body holds just these numbers, and the tree is
-- otherwise the one that was given.
pub track_dispatch_spans_lem :
    {E L : Type 0} (b : Block Bool E L)
    → (ids_block (track_dispatch_spans b) ≡ interval 1 (count_block b))
      × ((block_note (track_dispatch_spans b)).span ≡ record { start = 1; end = 1 + count_block b })
      × (renote_block (λ a. a.yields) (track_dispatch_spans b) ≡ b)
unfolding track_dispatch_spans
track_dispatch_spans_lem b = (
  ids-track_block b 1,
  block_span b 1 ∙ ap (λ m. record { start = 1; end = m }) (track_block_end b 1),
  kept_block b 1,
)

-- The same of each statement: it gets the numbers from the first free one on, as many as it has
-- leaves, and its span says so.
track_lem :
    {E L : Type 0} (s : Stmt Bool E L) (n : ℕ)
    → (ids (track s n).0 ≡ interval n (count s))
      × ((note (track s n).0).span ≡ record { start = n; end = n + count s })
      × ((track s n).1 ≡ n + count s)
track_lem s n = (
  ids-track s n,
  note_span s n ∙ ap (λ m. record { start = n; end = m }) (track_end s n),
  track_end s n,
)
