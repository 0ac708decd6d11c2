-- ===== src/Compiler/ColorExamples.antt =====
-- colorFunctions on a small call graph.
use coroutine_durable_fork.Prelude.{
  ℕ, zero, suc, refl, false, List, [], ◌∷◌, ◌==◌, inl, inr, ==_iff, arith,
}
use mathlib.Core.List.{Memᴰ}
use mathlib.Core.List.Memᴰ.{head, tail, not-nil, cases_cons}
use coroutine_durable_fork.Compiler.Color.{ok, color_functions}
use coroutine_durable_fork.Compiler.Color.Closed.{Ends, Conflict}
use coroutine_durable_fork.Compiler.Color.Walk.{IsColoring, Leads, color_functions-IsColoring}

-- The function 1 calls the yield instance 0 and itself, 2 calls 1.
abbrev edges : ℕ → List ℕ
edges zero = 1 ∷ []
edges (suc zero) = 2 ∷ 1 ∷ []
edges (suc (suc n)) = []

abbrev instances : List (ℕ × ℕ)
instances = (0, 7) ∷ []

abbrev functions : List ℕ
functions = 0 ∷ 1 ∷ 2 ∷ []

edges_within : (f h : ℕ) → Memᴰ h (edges f) → Memᴰ h functions
edges_within zero h m = elim (cases_cons m) [ inl e ↦ tail (head e) | inr k ↦ absurd (not-nil k) ]
edges_within (suc zero) h m = elim (cases_cons m) [
  | inl e ↦ tail (tail (head e))
  | inr k ↦ elim (cases_cons k) [ inl e ↦ tail (head e) | inr l ↦ absurd (not-nil l) ]
]
edges_within (suc (suc n)) h m = absurd (not-nil m)

color_functions-IsColoring_example :
    Ends
      (IsColoring edges (λ f. false) (λ c e. c == e) instances)
      (Conflict edges (λ f. false) (λ c e. c == e) (Leads edges instances))
      (ok ((2, 7) ∷ (1, 7) ∷ []))
unfolding color_functions
color_functions-IsColoring_example =
    color_functions-IsColoring edges (λ f. false) (λ c e. c == e) functions 4 instances
      (λ c. (==_iff c c).1 refl) edges_within (omega arith)
