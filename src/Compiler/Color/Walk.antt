-- ===== src/Compiler/Color/Walk.antt =====
-- colorFunctions of compiler/color.go, against the edges of the call graph.
use coroutine_durable_fork.Prelude.{
  ℕ, zero, suc, ◌<◌, ◌≡◌, subst, refl, Bool, Bool-cases, inl, inr, true, false, List, [], ◌∷◌,
  Option, none, some, arith, length,
}
use mathlib.Core.List.{Memᴰ}
use coroutine_durable_fork.Compiler.Color.{
  Result, Colors, color_of, again, visit, color_functions0, color_functions,
}
use coroutine_durable_fork.Prelude.Dict.{
  free_le, none-some, insert-Keeps, insert-some, insert-lookup, free-insert,
}
use coroutine_durable_fork.Compiler.Color.Closed.{
  Ends, gives, fails, Ends-map, Has, IsDone, Conflict, Has-Keeps, After, After-refl, IsReady,
  each-Ends,
}

-- By the edges of the graph the function leads to a yield instance of the color.
pub data Leads {C : Type 0} (callers : ℕ → List ℕ) (instances : List (ℕ × C)) : ℕ → C → Type 0 where
  calls :
      (y : ℕ) (c : C) (f : ℕ)
      → Memᴰ (y, c) instances
      → Memᴰ f (callers y)
      → Leads callers instances f c
  through :
      (g : ℕ) (c : C) (f : ℕ)
      → Leads callers instances g c
      → Memᴰ f (callers g)
      → Leads callers instances f c

module _ {C : Type 0} (callers : ℕ → List ℕ) (is_coroutine : ℕ → Bool)
    (identical : C → C → Bool) where
  new_one :
      (Q : ℕ → C → Type 0) (f : ℕ) (c : C) (cs ds : Colors C)
      → Q f c
      → color_of f cs ≡ none
      → After callers is_coroutine identical Q ((f, c) ∷ cs) ds
      → IsDone callers is_coroutine identical ds f c
      → After callers is_coroutine identical Q cs ds
  new_one Q f c cs ds q h a d = record {
    kept = λ g e k. a.kept g e (insert-Keeps f c cs h g e k);
    fresh = λ g e k. elim (a.fresh g e k) [
      | inr new ↦ inr new
      | inl old ↦ elim (insert-some f g c e cs old) [
        | inr older ↦ inl older
        | inl (s, t) ↦ inr (
            subst (λ x. IsDone callers is_coroutine identical ds x e × Q x e) s
              (subst (λ x. IsDone callers is_coroutine identical ds f x × Q f x) t (d, q)))
      ]
    ];
  }

  in_package :
      (cs : Colors C) (c : C) (f : ℕ)
      → is_coroutine f ≡ true
      → Has callers is_coroutine identical cs c f
  unfolding Has
  in_package cs c f h = inl h

  again-Ends :
      (Q : ℕ → C → Type 0) (keys : List ℕ) (n : ℕ) (cs : Colors C) (f : ℕ) (c e : C) (t : Bool)
      → identical e c ≡ t
      → Q f c
      → color_of f cs ≡ some e
      → IsReady callers is_coroutine identical Q keys n cs
      → Ends
          (λ ds.
            After callers is_coroutine identical Q cs ds
            × Has callers is_coroutine identical ds c f)
          (Conflict callers is_coroutine identical Q)
          (again callers is_coroutine identical cs f c e)
  unfolding Has Conflict
  again-Ends Q keys n cs f c e true s q h r =
      rw s (gives cs (After-refl callers is_coroutine identical Q cs, inr (e, h, s)))
  again-Ends Q keys n cs f c e false s q h r = rw s (fails f (c, e, q, r.sound f e h, s))

  visit-Ends :
      (Q : ℕ → C → Type 0) (keys : List ℕ) (n : ℕ) (cs : Colors C) (f : ℕ) (c : C) (o : Option C)
      (walk : Colors C → ℕ → Result (Colors C))
      → identical c c ≡ true
      → Memᴰ f keys
      → Q f c
      → color_of f cs ≡ o
      → ((ds : Colors C) (h : ℕ)
          → Memᴰ h (callers f)
          → IsReady callers is_coroutine identical Q keys n ds
          → Ends
              (λ es.
                After callers is_coroutine identical Q ds es
                × Has callers is_coroutine identical es c h)
              (Conflict callers is_coroutine identical Q)
              (walk ds h))
      → IsReady callers is_coroutine identical Q keys (suc n) cs
      → Ends
          (λ ds.
            After callers is_coroutine identical Q cs ds
            × Has callers is_coroutine identical ds c f)
          (Conflict callers is_coroutine identical Q)
          (visit callers is_coroutine identical walk cs f c o)
  unfolding visit Has IsDone
  visit-Ends Q keys n cs f c (some e) walk same h q s step r =
      again-Ends Q keys (suc n) cs f c e (identical e c) refl q s r
  visit-Ends Q keys n cs f c none walk same h q s step r =
      Ends-map _
        (each-Ends callers is_coroutine identical Q keys n
          (λ ds b. Has callers is_coroutine identical ds c b)
          (λ b ds es k p. Has-Keeps callers is_coroutine identical ds es c b k p) walk (callers f)
          step ((f, c) ∷ cs)
          (record {
            sound = λ g e k. elim (insert-some f g c e cs k) [
              | inr old ↦ r.sound g e old
              | inl (x, y) ↦ subst (λ i. Q i e) x (subst (λ i. Q f i) y q)
            ];
            left = let less = free-insert keys f c cs h s in omega (arith, less, r.left);
          }))
        (λ ds p.
          (new_one Q f c cs ds q s (p.0) (p.1), inr (c, p.0.kept f c (insert-lookup f c cs), same)))

  module _ (Q : ℕ → C → Type 0) (keys : List ℕ) (same : (c : C) → identical c c ≡ true)
      (within : (f h : ℕ) → Memᴰ h (callers f) → Memᴰ h keys)
      (along : (f h : ℕ) (c : C) → Q f c → Memᴰ h (callers f) → Q h c) where
    color_functions0-Ends :
        (n : ℕ) (c : C) (cs : Colors C) (f : ℕ)
        → Memᴰ f keys
        → Q f c
        → IsReady callers is_coroutine identical Q keys n cs
        → Ends
            (λ ds.
              After callers is_coroutine identical Q cs ds
              × Has callers is_coroutine identical ds c f)
            (Conflict callers is_coroutine identical Q)
            (color_functions0 callers is_coroutine identical n c cs f)
    unfolding color_functions0
    color_functions0-Ends zero c cs f h q r = let left = r.left in absurd (omega (arith, left))
    color_functions0-Ends (suc n) c cs f h q r = elim (Bool-cases (is_coroutine f)) [
      | inl e ↦
          rw e (gives cs (After-refl callers is_coroutine identical Q cs, in_package cs c f e))
      | inr e ↦ rw e (
          visit-Ends Q keys n cs f c (color_of f cs)
            (color_functions0 callers is_coroutine identical n c) (same c) h q refl
            (λ ds g m. color_functions0-Ends n c ds g (within f g m) (along f g c q m)) r)
    ]

  -- The colors of all that leads to an instance: the callers of instances have their color, the
  -- callers of a function with a color have that one too, and a function with a color leads to an
  -- instance of it.
  pub record IsColoring (instances : List (ℕ × C)) (ds : Colors C) : Type 0 where
    pub covers :
        (i : ℕ × C)
        → Memᴰ i instances
        → (h : ℕ) → Memᴰ h (callers (i.0))
        → Has callers is_coroutine identical ds (i.1) h
    pub closed :
        (f : ℕ) (c : C) → color_of f ds ≡ some c → IsDone callers is_coroutine identical ds f c
    pub sound : (f : ℕ) (c : C) → color_of f ds ≡ some c → Leads callers instances f c

  -- Where types.Identical is reflexive and the callers of all functions are in a list, more
  -- fuel than its length is enough for colorFunctions. Without an error, a caller of an instance
  -- has its color, as types.Identical compares, or lies in the package coroutine, and so has each
  -- caller of a function with a color; and every function with a color leads to an instance of this
  -- color. With an error, the function that it names leads to instances of two colors.
  pub color_functions-IsColoring :
      (keys : List ℕ) (n : ℕ) (instances : List (ℕ × C))
      → ((c : C) → identical c c ≡ true)
      → ((f h : ℕ) → Memᴰ h (callers f) → Memᴰ h keys)
      → length keys < n
      → Ends
          (IsColoring instances)
          (Conflict callers is_coroutine identical (Leads callers instances))
          (color_functions callers is_coroutine identical n instances)
  unfolding color_functions
  color_functions-IsColoring keys n instances same within h =
      Ends-map _
        (each-Ends callers is_coroutine identical (Leads callers instances) keys n
          (λ ds i. (g : ℕ) → Memᴰ g (callers (i.0)) → Has callers is_coroutine identical ds (i.1) g)
          (λ i ds es k p g m. Has-Keeps callers is_coroutine identical ds es (i.1) g k (p g m)) _
          instances
          (λ cs i m r.
            each-Ends callers is_coroutine identical (Leads callers instances) keys n
              (λ ds g. Has callers is_coroutine identical ds (i.1) g)
              (λ g ds es k p. Has-Keeps callers is_coroutine identical ds es (i.1) g k p) _
              (callers (i.0))
              (λ ds g k s.
                color_functions0-Ends (Leads callers instances) keys same within
                  (λ x y c l o. through x c y l o) n (i.1) ds g (within (i.0) g k)
                  (calls (i.0) (i.1) g m k) s)
              cs r)
          []
          (record {
            sound = λ f e k. absurd (none-some refl k);
            left = let small = free_le {C = C} keys [] in omega (arith, small, h);
          }))
        (λ ds p. record {
          covers = p.1;
          closed = λ f e k. elim (p.0.fresh f e k) [
            | inl old ↦ absurd (none-some refl old)
            | inr new ↦ new.0
          ];
          sound = λ f e k. elim (p.0.fresh f e k) [
            | inl old ↦ absurd (none-some refl old)
            | inr new ↦ new.1
          ];
        })
