-- ===== src/Compiler/Desugar/RangeCases.antt =====
-- The case of desugar, compiler/desugar.go, for range loops, by what is promised of the recursive
-- call.
use coroutine_durable_fork.Prelude.{
  ℕ, suc, ◌≡◌, refl, ◌+◌, ◌≤◌, Bool, true, false, ◌&&◌, Option, none, arith,
}
use coroutine_durable_fork.Compiler.Ast.{Expr, ident, underscore, absent, may_yield}
use coroutine_durable_fork.Compiler.Desugar.Syntax.{
  define, RangeType, sequence, map_of, other_type, Stmt, assign, block, Stmts, nil, ◌+++◌, only,
  marked,
}
use coroutine_durable_fork.Compiler.Desugar.State.{Desugarer, ◌>>=◌, give, new_var}
use coroutine_durable_fork.Compiler.Desugar.FlatMap.{one, desugar_list}
use coroutine_durable_fork.Compiler.Desugar.Simple.{Rec, inside}
use coroutine_durable_fork.Compiler.Desugar.Loop.{
  is_blank, count_loop, key_or_new, with_value, range_sequence, collect_keys, map_value, keys_loop,
  range_entries, range_count, range_map, range_over, desugar_range,
}
use coroutine_durable_fork.Compiler.Desugar.Meets.{
  IsGood, IsBelow, IsBelow-Extends, Extends-trans, Holds, panics, Holds-bind, Holds-give, Any,
  new_var-Holds,
}
use coroutine_durable_fork.Compiler.Desugar.Branches.{
  Branches, IsSource, IsLinked, AreLinked, AreLinked-Extends, AllBranches-append, Fits, AllFit,
}
use coroutine_durable_fork.Compiler.Desugar.Rewrite.{weight, range_weight}
use coroutine_durable_fork.Compiler.Desugar.Lists.{Each}
use coroutine_durable_fork.Compiler.Desugar.SimpleCases.{prologue-Holds}
use coroutine_durable_fork.Compiler.Desugar.LoopCases.{list_of-weight, list_of-source, Fits-if}

with_value-Fits :
    (n : ℕ) (v x i : Expr) (body : Stmt)
    → weight body + 1 ≤ n
    → IsSource body
    → Fits n (with_value v x i body)
unfolding Fits weight IsSource Branches
with_value-Fits n v x i body h p =
    let k = list_of-weight body in
    Fits-if n (is_blank v) body _ (omega (arith, h), p)
      (omega (arith, h, k), (tt, list_of-source body p))

count_loop-Fits :
    (n : ℕ) (i x : Expr) (m : Bool) (body : Stmt)
    → Fits n body
    → Fits (n + 8) (count_loop i x m body)
unfolding Fits weight IsSource Branches
count_loop-Fits n i x m body (h, p) = (omega (arith, h), (tt, tt, p))

keys_loop-Fits :
    (n : ℕ) (keys x k v ok : Expr) (body : Stmt)
    → Fits n body
    → Fits (n + 17) (keys_loop keys x k v ok body)
unfolding Fits weight range_weight IsSource Branches
keys_loop-Fits n keys x k v ok body (h, p) = (omega (arith, h), ((tt, p, tt), tt))

key_or_new-Holds : (k : Expr) (d : Desugarer) → IsGood d → Holds Any d (key_or_new k d)
unfolding key_or_new
key_or_new-Holds absent d g = new_var-Holds d g
key_or_new-Holds (ident underscore) d g = new_var-Holds d g
key_or_new-Holds (ident x) d g = Holds-give _ _ _ g tt
key_or_new-Holds e d g = panics _

map_value-Holds : (v : Expr) (d : Desugarer) → IsGood d → Holds Any d (map_value v d)
map_value-Holds absent d g = Holds-give _ _ _ g tt
map_value-Holds (ident x) d g = Holds-give _ _ _ g tt
map_value-Holds e d g = panics _

module _ (n : ℕ) (rec : Rec) (each : Each n rec) where
  -- A loop behind statements that are already there.
  behind :
      (prologue more : Stmts) (s : Stmt) (b c u : Option ℕ) (d : Desugarer)
      → AreLinked prologue d
      → ((e : Desugarer) → AreLinked more e)
      → Fits n s
      → IsGood d
      → IsBelow d b
      → IsBelow d c
      → Holds IsLinked d
          ((rec s b c u >>= (λ t. give (block false (prologue +++ (more +++ only t))))) d)
  unfolding IsLinked AreLinked Branches
  behind prologue more s b c u d h m f g hb hc =
      Holds-bind _ (rec s b c u) _ (each s b c u d f g hb hc) (λ t d₁ g₁ k₁ p. Holds-give _ _ _ g₁ (
        AllBranches-append _ prologue _ (AreLinked-Extends prologue k₁ h)
          (AllBranches-append _ more _ (m d₁) (p, tt))))

  range_sequence-Holds :
      (k v x : Expr) (body : Stmt) (prologue : Stmts) (b c u : Option ℕ) (d : Desugarer)
      → AreLinked prologue d
      → weight body + 9 ≤ n
      → IsSource body
      → IsGood d
      → IsBelow d b
      → IsBelow d c
      → Holds IsLinked d (range_sequence rec k v x body prologue b c u d)
  unfolding range_sequence Fits AreLinked Branches
  range_sequence-Holds k v x body prologue b c u d h w p g hb hc =
      Holds-bind _ (key_or_new k) _ (key_or_new-Holds k d g) (λ i d₁ g₁ k₁ y.
        let (a, q) =
          count_loop-Fits (weight body + 1) i x (marked body) (with_value v x i body)
            (with_value-Fits (weight body + 1) v x i body (omega arith) p) in
        behind prologue nil _ b c u d₁ (AreLinked-Extends prologue k₁ h) (λ e. tt)
          (omega (arith, a, w), q) g₁ (IsBelow-Extends b k₁ hb) (IsBelow-Extends c k₁ hc))

  range_count-Holds :
      (x : Expr) (body : Stmt) (prologue : Stmts) (b c u : Option ℕ) (d : Desugarer)
      → AreLinked prologue d
      → weight body + 9 ≤ n
      → IsSource body
      → IsGood d
      → IsBelow d b
      → IsBelow d c
      → Holds IsLinked d (range_count rec x body prologue b c u d)
  unfolding range_count Fits AreLinked Branches
  range_count-Holds x body prologue b c u d h w p g hb hc =
      Holds-bind _ new_var _ (new_var-Holds d g) (λ i d₁ g₁ k₁ y.
        let (a, q) = count_loop-Fits (weight body) i x (marked body) body (omega arith, p) in
        behind prologue nil _ b c u d₁ (AreLinked-Extends prologue k₁ h) (λ e. tt)
          (omega (arith, a, w), q) g₁ (IsBelow-Extends b k₁ hb) (IsBelow-Extends c k₁ hc))

  range_entries-Holds :
      (t : ℕ) (k v x : Expr) (body : Stmt) (prologue : Stmts) (b c u : Option ℕ) (d : Desugarer)
      → AreLinked prologue d
      → weight body + 17 ≤ n
      → IsSource body
      → IsGood d
      → IsBelow d b
      → IsBelow d c
      → Holds IsLinked d (range_entries rec t k v x body prologue b c u d)
  unfolding range_entries Fits AreLinked Branches
  range_entries-Holds t k v x body prologue b c u d h w p g hb hc =
      Holds-bind _ new_var _ (new_var-Holds d g) (λ keys d₁ g₁ k₁ _.
        Holds-bind _ new_var _ (new_var-Holds d₁ g₁) (λ y d₂ g₂ k₂ _.
          Holds-bind _ (key_or_new k) _ (key_or_new-Holds k d₂ g₂) (λ key d₃ g₃ k₃ _.
            Holds-bind _ (map_value v) _ (map_value-Holds v d₃ g₃) (λ value d₄ g₄ k₄ _.
              Holds-bind _ new_var _ (new_var-Holds d₄ g₄) (λ ok d₅ g₅ k₅ _.
                let far =
                  Extends-trans k₁ (Extends-trans k₂ (Extends-trans k₃ (Extends-trans k₄ k₅))) in
                let (a, q) =
                  keys_loop-Fits (weight body) keys x key value ok body (omega arith, p) in
                behind prologue (only (collect_keys t keys y x)) _ b c u d₅
                  (AreLinked-Extends prologue far h) (λ e. ((tt, ((tt, tt), tt)), tt))
                  (omega (arith, a, w), q) g₅ (IsBelow-Extends b far hb)
                  (IsBelow-Extends c far hc))))))

  range_map-Holds :
      (t : ℕ) (k v x : Expr) (body : Stmt) (prologue : Stmts) (b c u : Option ℕ) (d : Desugarer)
      (simple : Bool)
      → (is_blank k && is_blank v) ≡ simple
      → AreLinked prologue d
      → weight body + 17 ≤ n
      → IsSource body
      → IsGood d
      → IsBelow d b
      → IsBelow d c
      → Holds IsLinked d (range_map rec t k v x body prologue b c u d)
  unfolding range_map
  range_map-Holds t k v x body prologue b c u d true e h w p g hb hc =
      rw e (range_count-Holds x body prologue b c u d h (omega (arith, w)) p g hb hc)
  range_map-Holds t k v x body prologue b c u d false e h w p g hb hc =
      rw e (range_entries-Holds t k v x body prologue b c u d h w p g hb hc)

  range_over-Holds :
      (t : RangeType) (k v x : Expr) (body : Stmt) (prologue : Stmts) (b c u : Option ℕ)
      (d : Desugarer)
      → AreLinked prologue d
      → weight body + range_weight t ≤ suc n
      → IsSource body
      → IsGood d
      → IsBelow d b
      → IsBelow d c
      → Holds IsLinked d (range_over rec t k v x body prologue b c u d)
  unfolding range_over range_weight
  range_over-Holds sequence k v x body prologue b c u d h w p g hb hc =
      range_sequence-Holds k v x body prologue b c u d h (omega (arith, w)) p g hb hc
  range_over-Holds (map_of t) k v x body prologue b c u d h w p g hb hc =
      range_map-Holds t k v x body prologue b c u d _ refl h (omega (arith, w)) p g hb hc
  range_over-Holds other_type k v x body prologue b c u d h w p g hb hc = panics _

  pub desugar_range-Holds :
      (t : RangeType) (k v x : Expr) (body : Stmt) (b c u : Option ℕ) (d : Desugarer)
      → 1 ≤ n
      → weight body + range_weight t ≤ suc n
      → IsSource body
      → IsGood d
      → IsBelow d b
      → IsBelow d c
      → Holds IsLinked d (desugar_range rec t k v x body b c u d)
  unfolding desugar_range AllFit Fits weight IsSource Branches
  desugar_range-Holds t k v x body b c u d one_le w p g hb hc =
      Holds-bind _ new_var _ (new_var-Holds d g) (λ y d₁ g₁ k₁ _.
        Holds-bind _
          (desugar_list (inside rec none none) (only (assign (may_yield x) (one y) define (one x))))
          _
          (prologue-Holds n rec each (only (assign (may_yield x) (one y) define (one x))) d₁
            ((one_le, tt), tt) g₁)
          (λ ts d₂ g₂ k₂ q.
            let far = Extends-trans k₁ k₂ in
            range_over-Holds t k v y body ts b c u d₂ q w p g₂ (IsBelow-Extends b far hb)
              (IsBelow-Extends c far hc)))
