-- ===== src/Compiler/Desugar/Total.antt =====
-- The method desugar and the function desugar of compiler/desugar.go: the end of the recursion, and
-- the second pass over labels.
use coroutine_durable_fork.Prelude.{
  ℕ, zero, suc, ◌+◌, ◌≤◌, ◌≡◌, ◌≢◌, refl, subst, Bool, true, false, Option, none, if◌then◌else◌,
  arith,
}
use coroutine_durable_fork.Compiler.Desugar.Syntax.{
  RangeType, map_of, Stmt, bad, block, branch, case_clause, comm_clause, defer, go, for_, if_,
  labeled, range, select, switch, type_switch, marked,
}
use coroutine_durable_fork.Compiler.Desugar.State.{
  Desugarer, Outcome, done, out_of_fuel, give, is_member,
}
use coroutine_durable_fork.Compiler.Desugar.Simple.{Rec}
use coroutine_durable_fork.Compiler.Desugar.Rewrite.{
  desugar_marked, desugar, weight, desugar_stmt, initial, without_unused, range_weight,
}
use coroutine_durable_fork.Compiler.Desugar.Meets.{
  IsUsed, IsGood, IsBelow, Holds, gives, panics, Holds-give,
}
use coroutine_durable_fork.Compiler.Desugar.Branches.{
  Branches, IsSource, IsLinked, IsLinked-source, Fits, AllFit-weight_all,
}
use coroutine_durable_fork.Compiler.Desugar.Lists.{Each}
use coroutine_durable_fork.Compiler.Desugar.Kept.{
  labels, remove_unused-Branches, labels-remove_unused,
}
use coroutine_durable_fork.Compiler.Desugar.SimpleCases.{
  desugar_block-Holds, desugar_branch-Holds, desugar_case_clause-Holds, desugar_comm_clause-Holds,
  desugar_defer-Holds, desugar_if-Holds, desugar_labeled-Holds,
}
use coroutine_durable_fork.Compiler.Desugar.LoopCases.{desugar_for-Holds, weight_pos}
use coroutine_durable_fork.Compiler.Desugar.RangeCases.{desugar_range-Holds}
use coroutine_durable_fork.Compiler.Desugar.SelectCases.{desugar_select-Holds}
use coroutine_durable_fork.Compiler.Desugar.SwitchCases.{
  desugar_switch-Holds, desugar_type_switch-Holds,
}

fuel_left : (n : ℕ) (t : RangeType) (k : ℕ) → k + range_weight t ≤ suc n → 1 ≤ n
unfolding range_weight
fuel_left n (map_of i) k h = omega (arith, h)
fuel_left n t k h = omega (arith, h)

desugar_marked-Holds :
    (n : ℕ) (rec : Rec)
    → Each n rec
    → (s : Stmt) (b c u : Option ℕ) (d : Desugarer) → Fits (suc n) s
    → IsGood d
    → IsBelow d b
    → IsBelow d c
    → Holds IsLinked d (desugar_marked rec s b c u d)
unfolding desugar_marked Fits weight IsSource Branches
desugar_marked-Holds n rec each bad b c u d f g hb hc = panics _
desugar_marked-Holds n rec each (block m ss) b c u d (w, p) g hb hc =
    desugar_block-Holds n rec each ss b c d (AllFit-weight_all n ss (omega (arith, w)) p) g hb hc
desugar_marked-Holds n rec each (branch m tok l) b c u d f g hb hc =
    desugar_branch-Holds tok l b c d g hb hc
desugar_marked-Holds n rec each (case_clause m es ss) b c u d (w, p) g hb hc =
    desugar_case_clause-Holds n rec each es ss b c d (AllFit-weight_all n ss (omega (arith, w)) p) g
      hb hc
desugar_marked-Holds n rec each (comm_clause m comm ss) b c u d (w, p) g hb hc =
    desugar_comm_clause-Holds n rec each comm ss b c d (AllFit-weight_all n ss (omega (arith, w)) p)
      g hb hc
desugar_marked-Holds n rec each (defer m e args) b c u d (w, p) g hb hc =
    desugar_defer-Holds n rec each e args d (omega (arith, w)) g
desugar_marked-Holds n rec each (for_ m init e post body) b c u d (w, (i, p, q)) g hb hc =
    let wi = weight_pos init in
    let wp = weight_pos post in
    desugar_for-Holds n rec each init e post body u d (omega (arith, w), i) (omega (arith, w), p)
      (omega (arith, w, wi, wp)) q g
desugar_marked-Holds n rec each (go m e args) b c u d f g hb hc = panics _
desugar_marked-Holds n rec each (if_ m init e body els) b c u d (w, (i, p, q)) g hb hc =
    desugar_if-Holds n rec each init e body els b c d (omega (arith, w)) (omega (arith, w), i)
      (omega (arith, w), p) (omega (arith, w), q) g hb hc
desugar_marked-Holds n rec each (labeled m l s) b c u d (w, p) g hb hc =
    desugar_labeled-Holds n rec each l s b c d (omega (arith, w), p) g hb hc
desugar_marked-Holds n rec each (range m t k v tok x body) b c u d (w, p) g hb hc =
    desugar_range-Holds n rec each t k v x body b c u d (fuel_left n t (weight body) w) w p g hb hc
desugar_marked-Holds n rec each (select m cs) b c u d (w, p) g hb hc =
    desugar_select-Holds n rec each cs b c u d (omega (arith, w)) p g hb hc
desugar_marked-Holds n rec each (switch m init e cs) b c u d (w, (i, p)) g hb hc =
    desugar_switch-Holds n rec each init e cs c u d (omega (arith, w), i) (omega (arith, w)) p g hc
desugar_marked-Holds n rec each (type_switch m init a body) b c u d (w, (i, p)) g hb hc =
    desugar_type_switch-Holds n rec each init a body c u d (omega (arith, w)) (omega (arith, w), i)
      (omega (arith, w), p) g hc
desugar_marked-Holds n rec each s b c u d (w, p) g hb hc =
    Holds-give _ _ _ g (IsLinked-source s d p)

quiet-or-marked :
    (n : ℕ) (rec : Rec) (t : Bool) (s : Stmt) (b c u : Option ℕ) (d : Desugarer)
    → Each n rec
    → Fits (suc n) s
    → IsGood d
    → IsBelow d b
    → IsBelow d c
    → Holds IsLinked d ((if t then desugar_marked rec s b c u else give s) d)
unfolding Fits
quiet-or-marked n rec true s b c u d each f g hb hc =
    desugar_marked-Holds n rec each s b c u d f g hb hc
quiet-or-marked n rec false s b c u d each f g hb hc = Holds-give _ _ _ g (IsLinked-source s d f.1)

-- Enough fuel, in a state that is good.
desugar-Holds : (n : ℕ) → Each n (desugar n)
unfolding desugar Fits
desugar-Holds zero s b c u d f g hb hc = absurd (omega (arith, f.0, weight_pos s))
desugar-Holds (suc n) s b c u d f g hb hc =
    quiet-or-marked n (desugar n) (marked s) s b c u d (desugar-Holds n) f g hb hc

started :
    (s : Stmt) → IsSource s → Holds IsLinked initial (desugar (weight s) s none none none initial)
unfolding Fits IsGood IsBelow
started s p = desugar-Holds (weight s) s none none none initial (omega arith, p) (λ u l h. cc) tt tt

-- The labels that a result has, against the tree before the second pass.
Kept : Outcome Stmt → Outcome Stmt → Type 0
Kept o (done t d) =
    Branches (IsUsed d) t
    × ((s₀ : Stmt) × (o ≡ done s₀ d)
        × ((l : ℕ) → is_member l d.unused_labels ≡ false → labels l t ≡ labels l s₀))
Kept o r = Unit

settles : {d : Desugarer} {o : Outcome Stmt} → Holds IsLinked d o → without_unused o ≢ out_of_fuel
unfolding without_unused
settles (gives t e g h p) q = cc
settles (panics x) q = cc

linked : {d : Desugarer} {o : Outcome Stmt} → Holds IsLinked d o → Kept o (without_unused o)
unfolding IsLinked Kept without_unused
linked (gives s f g h p) = (
  remove_unused-Branches (IsUsed f) false f.unused_labels s p,
  (s, refl, λ l m. labels-remove_unused l false f.unused_labels s m),
)
linked (panics x) = tt

-- For a statement of the source, desugar ends: the fuel that its weight gives is enough.
pub desugar_stmt_total : (s : Stmt) → IsSource s → desugar_stmt s ≢ out_of_fuel
unfolding desugar_stmt
desugar_stmt_total s p = settles (started s p)

-- In the result of desugar for a statement of the source, each generated label that a branch names
-- has been handed out, and is not among the unused labels. The second pass takes no label away that is
-- not unused: it stands on as many statements of the result as before the pass.
pub desugar_stmt-Branches :
    (s : Stmt)
    → IsSource s
    → (t : Stmt) (d : Desugarer) → desugar_stmt s ≡ done t d
    → Branches (IsUsed d) t
      × ((s₀ : Stmt) × (desugar (weight s) s none none none initial ≡ done s₀ d)
          × ((l : ℕ) → is_member l d.unused_labels ≡ false → labels l t ≡ labels l s₀))
unfolding desugar_stmt Kept
desugar_stmt-Branches s p t d q =
    subst (Kept (desugar (weight s) s none none none initial)) q (linked (started s p))
