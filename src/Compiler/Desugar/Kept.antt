-- ===== src/Compiler/Desugar/Kept.antt =====
-- The second pass of desugar, compiler/desugar.go, keeps the branches and the labels in use.
use coroutine_durable_fork.Prelude.{
  ℕ, ◌+◌, ◌≡◌, refl, ap, ◌∙◌, Bool, true, false, ◌&&◌, ◌==◌, ==_iff, List, if◌then◌else◌, inl, inr,
  Bool-cases, arith, both_true, subst,
}
use coroutine_durable_fork.Compiler.Desugar.Syntax.{
  of_user, generated, Stmt, block, case_clause, comm_clause, for_, if_, labeled, range, select,
  switch, type_switch, Stmts, nil, cons,
}
use coroutine_durable_fork.Compiler.Desugar.State.{is_member}
use coroutine_durable_fork.Compiler.Desugar.Labels.{remove_unused, remove_unused_all}
use coroutine_durable_fork.Compiler.Desugar.Branches.{Branches, AllBranches}

Branches-kept :
    (P : ℕ → Type 0) (t m : Bool) (l : ℕ) (s u : Stmt)
    → Branches P s
    → Branches P u
    → Branches P (if t then u else labeled m (generated l) s)
unfolding Branches
Branches-kept P true m l s u h k = k
Branches-kept P false m l s u h k = h

mutual
  unfolding remove_unused Branches

  pub remove_unused-Branches :
      (P : ℕ → Type 0) (live : Bool) (ls : List ℕ) (s : Stmt)
      → Branches P s
      → Branches P (remove_unused live ls s)
  remove_unused-Branches P live ls (block m ss) h = remove_unused_all-Branches P ls ss h
  remove_unused-Branches P live ls (case_clause m es ss) h = remove_unused_all-Branches P ls ss h
  remove_unused-Branches P live ls (comm_clause m c ss) h = remove_unused_all-Branches P ls ss h
  remove_unused-Branches P live ls (for_ m i c p b) (hi, hp, h) =
      (hi, hp, remove_unused-Branches P true ls b h)
  remove_unused-Branches P live ls (if_ m i c b e) (hi, h, k) =
      (hi, remove_unused-Branches P true ls b h, remove_unused-Branches P true ls e k)
  remove_unused-Branches P live ls (labeled m (of_user u) s) h =
      remove_unused-Branches P true ls s h
  remove_unused-Branches P live ls (labeled m (generated l) s) h =
      Branches-kept P (live && is_member l ls) m l (remove_unused true ls s)
        (remove_unused false ls s) (remove_unused-Branches P true ls s h)
        (remove_unused-Branches P false ls s h)
  remove_unused-Branches P live ls (range m t k v o x b) h = remove_unused-Branches P true ls b h
  remove_unused-Branches P live ls (select m ss) h = remove_unused_all-Branches P ls ss h
  remove_unused-Branches P live ls (switch m i t ss) (hi, h) =
      (hi, remove_unused_all-Branches P ls ss h)
  remove_unused-Branches P live ls (type_switch m i a b) (hi, h) =
      (hi, remove_unused-Branches P true ls b h)
  remove_unused-Branches P live ls s h = h

  remove_unused_all-Branches :
      (P : ℕ → Type 0) (ls : List ℕ) (ss : Stmts)
      → AllBranches P ss
      → AllBranches P (remove_unused_all ls ss)
  remove_unused_all-Branches P ls nil h = tt
  remove_unused_all-Branches P ls (cons s ss) (h, k) =
      (remove_unused-Branches P true ls s h, remove_unused_all-Branches P ls ss k)

abbrev one_if : Bool → ℕ
one_if b = if b then 1 else 0

-- How many statements the generated label stands on.
unfoldable mutual
  pub labels : ℕ → Stmt → ℕ
  labels l (block m ss) = labels_all l ss
  labels l (case_clause m es ss) = labels_all l ss
  labels l (comm_clause m c ss) = labels_all l ss
  labels l (for_ m i c p b) = labels l i + labels l p + labels l b
  labels l (if_ m i c b e) = labels l i + labels l b + labels l e
  labels l (labeled m (of_user u) s) = labels l s
  labels l (labeled m (generated k) s) = one_if (k == l) + labels l s
  labels l (range m t k v o x b) = labels l b
  labels l (select m ss) = labels_all l ss
  labels l (switch m i t ss) = labels l i + labels_all l ss
  labels l (type_switch m i a b) = labels l i + labels l b
  labels l s = 0

  pub labels_all : ℕ → Stmts → ℕ
  labels_all l nil = 0
  labels_all l (cons s ss) = labels l s + labels_all l ss

another :
    (k l : ℕ) (ls : List ℕ) → is_member l ls ≡ false → is_member k ls ≡ true → one_if (k == l) ≡ 0
another k l ls h g = elim (Bool-cases (k == l)) [
  | inl e ↦
      let same : k ≡ l = (==_iff k l).0 e in
      let j : is_member l ls ≡ true = subst (λ x. is_member x ls ≡ true) same g in cc
  | inr e ↦ rw e refl
]

label_kept :
    (live m : Bool) (k l : ℕ) (ls : List ℕ) (s t u : Stmt)
    → is_member l ls ≡ false
    → labels l t ≡ labels l s
    → labels l u ≡ labels l s
    → labels l (if live && is_member k ls then u else labeled m (generated k) t)
      ≡ one_if (k == l) + labels l s
unfolding labels
label_kept live m k l ls s t u h e f = elim (Bool-cases (live && is_member k ls)) [
  | inl g ↦
      let z = another k l ls h ((both_true live (is_member k ls) g).1) in
      rw g (f ∙ omega (arith, z))
  | inr g ↦ rw g (ap (λ n. one_if (k == l) + n) e)
]

mutual
  unfolding remove_unused labels

  pub labels-remove_unused :
      (l : ℕ) (live : Bool) (ls : List ℕ) (s : Stmt)
      → is_member l ls ≡ false
      → labels l (remove_unused live ls s) ≡ labels l s
  labels-remove_unused l live ls (block m ss) h = labels_all-remove_unused l ls ss h
  labels-remove_unused l live ls (case_clause m es ss) h = labels_all-remove_unused l ls ss h
  labels-remove_unused l live ls (comm_clause m c ss) h = labels_all-remove_unused l ls ss h
  labels-remove_unused l live ls (for_ m i c p b) h =
      ap (λ n. labels l i + labels l p + n) (labels-remove_unused l true ls b h)
  labels-remove_unused l live ls (if_ m i c b e) h =
      ap (λ n. labels l i + n + labels l (remove_unused true ls e))
        (labels-remove_unused l true ls b h)
      ∙ ap (λ n. labels l i + labels l b + n) (labels-remove_unused l true ls e h)
  labels-remove_unused l live ls (labeled m (of_user u) s) h = labels-remove_unused l true ls s h
  labels-remove_unused l live ls (labeled m (generated k) s) h =
      label_kept live m k l ls s (remove_unused true ls s) (remove_unused false ls s) h
        (labels-remove_unused l true ls s h) (labels-remove_unused l false ls s h)
  labels-remove_unused l live ls (range m t k v o x b) h = labels-remove_unused l true ls b h
  labels-remove_unused l live ls (select m ss) h = labels_all-remove_unused l ls ss h
  labels-remove_unused l live ls (switch m i t ss) h =
      ap (λ n. labels l i + n) (labels_all-remove_unused l ls ss h)
  labels-remove_unused l live ls (type_switch m i a b) h =
      ap (λ n. labels l i + n) (labels-remove_unused l true ls b h)
  labels-remove_unused l live ls s h = refl

  labels_all-remove_unused :
      (l : ℕ) (ls : List ℕ) (ss : Stmts)
      → is_member l ls ≡ false
      → labels_all l (remove_unused_all ls ss) ≡ labels_all l ss
  labels_all-remove_unused l ls nil h = refl
  labels_all-remove_unused l ls (cons s ss) h =
      ap (λ n. n + labels_all l (remove_unused_all ls ss)) (labels-remove_unused l true ls s h)
      ∙ ap (λ n. labels l s + n) (labels_all-remove_unused l ls ss h)
