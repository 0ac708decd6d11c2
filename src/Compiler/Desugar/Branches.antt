-- ===== src/Compiler/Desugar/Branches.antt =====
-- The labels that the branches of a statement name, generated by compiler/desugar.go, and the
-- statements that a call of desugar has the fuel for.
use coroutine_durable_fork.Prelude.{ℕ, ◌≤◌, some, arith}
use coroutine_durable_fork.Compiler.Desugar.Syntax.{
  generated, Stmt, block, branch, case_clause, comm_clause, for_, if_, labeled, range, select,
  switch, type_switch, Stmts, nil, cons, ◌+++◌,
}
use coroutine_durable_fork.Compiler.Desugar.State.{Desugarer}
use coroutine_durable_fork.Compiler.Desugar.Meets.{IsUsed, Extends}
use coroutine_durable_fork.Compiler.Desugar.Rewrite.{weight, weight_all}

-- Each generated label that a branch names has the property.
unfoldable mutual
  pub Branches : (ℕ → Type 0) → Stmt → Type 0
  Branches P (branch m tok (some (generated l))) = P l
  Branches P (block m ss) = AllBranches P ss
  Branches P (case_clause m es ss) = AllBranches P ss
  Branches P (comm_clause m comm ss) = AllBranches P ss
  Branches P (for_ m init e post body) = Branches P init × Branches P post × Branches P body
  Branches P (if_ m init e body els) = Branches P init × Branches P body × Branches P els
  Branches P (labeled m l s) = Branches P s
  Branches P (range m t k v tok x body) = Branches P body
  Branches P (select m ss) = AllBranches P ss
  Branches P (switch m init e ss) = Branches P init × AllBranches P ss
  Branches P (type_switch m init a body) = Branches P init × Branches P body
  Branches P s = Unit

  pub AllBranches : (ℕ → Type 0) → Stmts → Type 0
  AllBranches P nil = Unit
  AllBranches P (cons s ss) = Branches P s × AllBranches P ss

mutual
  unfolding Branches

  pub Branches-map :
      (P Q : ℕ → Type 0) → ((l : ℕ) → P l → Q l) → (s : Stmt) → Branches P s → Branches Q s
  Branches-map P Q f (branch m tok (some (generated l))) h = f l h
  Branches-map P Q f (block m ss) h = AllBranches-map P Q f ss h
  Branches-map P Q f (case_clause m es ss) h = AllBranches-map P Q f ss h
  Branches-map P Q f (comm_clause m comm ss) h = AllBranches-map P Q f ss h
  Branches-map P Q f (for_ m init e post body) (i, p, b) =
      (Branches-map P Q f init i, Branches-map P Q f post p, Branches-map P Q f body b)
  Branches-map P Q f (if_ m init e body els) (i, b, o) =
      (Branches-map P Q f init i, Branches-map P Q f body b, Branches-map P Q f els o)
  Branches-map P Q f (labeled m l s) h = Branches-map P Q f s h
  Branches-map P Q f (range m t k v tok x body) h = Branches-map P Q f body h
  Branches-map P Q f (select m ss) h = AllBranches-map P Q f ss h
  Branches-map P Q f (switch m init e ss) (i, h) =
      (Branches-map P Q f init i, AllBranches-map P Q f ss h)
  Branches-map P Q f (type_switch m init a body) (i, b) =
      (Branches-map P Q f init i, Branches-map P Q f body b)
  Branches-map P Q f _ h = tt

  pub AllBranches-map :
      (P Q : ℕ → Type 0)
      → ((l : ℕ) → P l → Q l)
      → (ss : Stmts) → AllBranches P ss
      → AllBranches Q ss
  AllBranches-map P Q f nil h = tt
  AllBranches-map P Q f (cons s ss) (h, k) = (Branches-map P Q f s h, AllBranches-map P Q f ss k)

pub AllBranches-append :
    (P : ℕ → Type 0) (ss ts : Stmts)
    → AllBranches P ss
    → AllBranches P ts
    → AllBranches P (ss +++ ts)
unfolding Branches
AllBranches-append P nil ts h k = k
AllBranches-append P (cons s ss) ts (h, hs) k = (h, AllBranches-append P ss ts hs k)

-- No branch names a generated label, as in the source.
unfoldable pub IsSource : Stmt → Type 0
IsSource = Branches (λ l. ⊥)

-- The labels that the branches name are in use.
unfoldable pub IsLinked : Stmt → Desugarer → Type 0
IsLinked s d = Branches (IsUsed d) s

unfoldable pub AreLinked : Stmts → Desugarer → Type 0
AreLinked ss d = AllBranches (IsUsed d) ss

pub IsLinked-source : (s : Stmt) (d : Desugarer) → IsSource s → IsLinked s d
unfolding IsSource IsLinked
IsLinked-source s d h = Branches-map _ _ (λ l p. absurd p) s h

pub AreLinked-source : (ss : Stmts) (d : Desugarer) → AllBranches (λ l. ⊥) ss → AreLinked ss d
unfolding AreLinked
AreLinked-source ss d h = AllBranches-map _ _ (λ l p. absurd p) ss h

pub IsLinked-Extends : {d e : Desugarer} (s : Stmt) → Extends d e → IsLinked s d → IsLinked s e
unfolding IsLinked
IsLinked-Extends s h p = Branches-map _ _ h.stays s p

pub AreLinked-Extends :
    {d e : Desugarer} (ss : Stmts) → Extends d e → AreLinked ss d → AreLinked ss e
unfolding AreLinked
AreLinked-Extends ss h p = AllBranches-map _ _ h.stays ss p

-- A statement of the source that fuel `n` is enough for.
unfoldable pub Fits : ℕ → Stmt → Type 0
unfolding IsSource weight
Fits n s = (weight s ≤ n) × IsSource s

unfoldable pub AllFit : ℕ → Stmts → Type 0
unfolding Fits
AllFit n nil = Unit
AllFit n (cons s ss) = Fits n s × AllFit n ss

pub AllFit-append : (n : ℕ) (ss ts : Stmts) → AllFit n ss → AllFit n ts → AllFit n (ss +++ ts)
unfolding AllFit
AllFit-append n nil ts h k = k
AllFit-append n (cons s ss) ts (h, hs) k = (h, AllFit-append n ss ts hs k)

pub AllFit-weight_all :
    (n : ℕ) (ss : Stmts) → weight_all ss ≤ n → AllBranches (λ l. ⊥) ss → AllFit n ss
unfolding AllFit Branches weight_all
AllFit-weight_all n nil h p = tt
AllFit-weight_all n (cons s ss) h (p, ps) =
    ((omega (arith, h), p), AllFit-weight_all n ss (omega (arith, h)) ps)
