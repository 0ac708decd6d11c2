-- ===== src/Compiler/Color.antt =====
-- compiler/color.go: the functions that may yield, found from the yield instances by the edges of
-- the call graph. A function is a number; the edges of the graph, what lies in the package
-- coroutine, and types.Identical are parameters. A map is a list of pairs, and the order in which
-- Go walks it that of the list.
pub mod Closed
pub mod Walk
use coroutine_durable_fork.Prelude.{
  ℕ, zero, suc, Bool, List, [], ◌∷◌, Option, none, some, ◌==◌, if◌then◌else◌,
}
use coroutine_durable_fork.Prelude.Dict.{lookup}

pub data Result (A : Type 0) : Type 0 where
  ok : A → Result A
  more_than_one_color : ℕ → Result A
  out_of_fuel : Result A

-- The colors, by their functions.
abbrev pub Colors : Type 0 → Type 0
Colors C = List (ℕ × C)

abbrev pub color_of : {C : Type 0} → ℕ → Colors C → Option C
color_of f cs = lookup f cs

abbrev pub and_then : {A B : Type 0} → Result A → (A → Result B) → Result B
and_then (ok a) k = k a
and_then (more_than_one_color f) k = more_than_one_color f
and_then out_of_fuel k = out_of_fuel

-- The functions of a list, one after the other, as long as there is no error.
unfoldable pub each : {A B : Type 0} → (A → B → Result A) → A → List B → Result A
each walk a [] = ok a
each walk a (b ∷ bs) = and_then (walk a b) (λ a₁. each walk a₁ bs)

module _ {C : Type 0} (callers : ℕ → List ℕ) (is_coroutine : ℕ → Bool)
    (identical : C → C → Bool) where
  -- A function that is there already.
  abbrev pub again : Colors C → ℕ → C → C → Result (Colors C)
  again cs f color existing = if identical existing color then ok cs else more_than_one_color f

  unfoldable pub visit :
      (Colors C → ℕ → Result (Colors C)) → Colors C → ℕ → C → Option C → Result (Colors C)
  unfolding each
  visit walk cs f color (some existing) = again cs f color existing
  visit walk cs f color none = each walk ((f, color) ∷ cs) (callers f)

  unfoldable pub color_functions0 : ℕ → C → Colors C → ℕ → Result (Colors C)
  unfolding visit
  color_functions0 zero color cs f = out_of_fuel
  color_functions0 (suc n) color cs f =
      if is_coroutine f then ok cs else visit (color_functions0 n color) cs f color (color_of f cs)

  unfoldable pub color_functions : ℕ → List (ℕ × C) → Result (Colors C)
  unfolding color_functions0 each
  color_functions n instances =
      each (λ cs i. each (color_functions0 n (i.1)) cs (callers (i.0))) [] instances
