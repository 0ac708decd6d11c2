-- ===== src/Compiler/Color/Closed.antt =====
-- The walk of compiler/color.go: what it leaves of the colors, and its errors.
use coroutine_durable_fork.Prelude.{
  ℕ, ◌<◌, ◌≡◌, ◌⊎◌, subst, refl, sym, Bool, inl, inr, true, false, List, [], ◌∷◌, some, arith,
}
use mathlib.Core.List.{Memᴰ}
use mathlib.Core.List.Memᴰ.{head, tail, not-nil, cases_cons}
use coroutine_durable_fork.Compiler.Color.{
  Result, ok, more_than_one_color, Colors, color_of, and_then, each,
}
use coroutine_durable_fork.Prelude.Dict.{Keeps, free, free_mono}

-- Fuel is left: a result with the property `P`, or an error that is right.
pub data Ends {A : Type 0} (P : A → Type 0) (Wrong : ℕ → Type 0) : Result A → Type 0 where
  gives : (a : A) → P a → Ends P Wrong (ok a)
  fails : (f : ℕ) → Wrong f → Ends P Wrong (more_than_one_color f)

Ends-then :
    {A B : Type 0} {P : A → Type 0} (Q : B → Type 0) {W : ℕ → Type 0} {r : Result A}
    (k : A → Result B)
    → Ends P W r
    → ((a : A) → P a → Ends Q W (k a))
    → Ends Q W (and_then r k)
Ends-then Q k (gives a p) h = h a p
Ends-then Q k (fails f w) h = fails f w

pub Ends-map :
    {A : Type 0} {P : A → Type 0} (Q : A → Type 0) {W : ℕ → Type 0} {r : Result A}
    → Ends P W r
    → ((a : A) → P a → Q a)
    → Ends Q W r
Ends-map Q (gives a p) h = gives a (h a p)
Ends-map Q (fails f w) h = fails f w

module _ {C : Type 0} (callers : ℕ → List ℕ) (is_coroutine : ℕ → Bool)
    (identical : C → C → Bool) where
  -- The function lies in the package coroutine, or has the color.
  unfoldable pub Has : Colors C → C → ℕ → Type 0
  Has cs c f =
      (is_coroutine f ≡ true) ⊎ ((e : C) × (color_of f cs ≡ some e) × (identical e c ≡ true))

  -- The callers of the function have its color.
  unfoldable pub IsDone : Colors C → ℕ → C → Type 0
  IsDone cs f c = (h : ℕ) → Memᴰ h (callers f) → Has cs c h

  -- A color that the function does not have with another one.
  unfoldable pub Conflict : (ℕ → C → Type 0) → ℕ → Type 0
  Conflict Q f = (c : C) × (e : C) × Q f c × Q f e × (identical e c ≡ false)

  pub Has-Keeps : (cs ds : Colors C) (c : C) (f : ℕ) → Keeps cs ds → Has cs c f → Has ds c f
  unfolding Has
  Has-Keeps cs ds c f k (inl h) = inl h
  Has-Keeps cs ds c f k (inr (e, p, q)) = inr (e, k f e p, q)

  -- Each color is old, or the function is new and done.
  pub record After (Q : ℕ → C → Type 0) (cs ds : Colors C) : Type 0 where
    pub kept : Keeps cs ds
    pub fresh :
        (f : ℕ) (e : C)
        → color_of f ds ≡ some e
        → (color_of f cs ≡ some e) ⊎ (IsDone ds f e × Q f e)

  pub After-refl : (Q : ℕ → C → Type 0) (cs : Colors C) → After Q cs cs
  After-refl Q cs = record { kept = λ f e h. h; fresh = λ f e h. inl h }

  pub IsDone-Keeps :
      (cs ds : Colors C) (f : ℕ) (c : C) → Keeps cs ds → IsDone cs f c → IsDone ds f c
  unfolding IsDone
  IsDone-Keeps cs ds f c k p h m = Has-Keeps cs ds c h k (p h m)

  pub After-trans :
      (Q : ℕ → C → Type 0) (cs ds es : Colors C) → After Q cs ds → After Q ds es → After Q cs es
  After-trans Q cs ds es a b = record {
    kept = λ f e h. b.kept f e (a.kept f e h);
    fresh = λ f e h. elim (b.fresh f e h) [
      | inr new ↦ inr new
      | inl old ↦ elim (a.fresh f e old) [
        | inl older ↦ inl older
        | inr new ↦ inr (IsDone-Keeps ds es f e b.kept (new.0), new.1)
      ]
    ];
  }

  -- What the colors have to be before a walk on fuel `n`, over the functions `keys`.
  pub record IsReady (Q : ℕ → C → Type 0) (keys : List ℕ) (n : ℕ) (cs : Colors C) : Type 0 where
    pub sound : (f : ℕ) (e : C) → color_of f cs ≡ some e → Q f e
    pub left : free keys cs < n

  IsReady-After :
      (Q : ℕ → C → Type 0) (keys : List ℕ) (n : ℕ) (cs ds : Colors C)
      → IsReady Q keys n cs
      → After Q cs ds
      → IsReady Q keys n ds
  IsReady-After Q keys n cs ds r a = record {
    sound = λ f e h. elim (a.fresh f e h) [ inl old ↦ r.sound f e old | inr new ↦ new.1 ];
    left = let less = free_mono keys cs ds a.kept in omega (arith, less, r.left);
  }

  -- The elements of a list, one after the other.
  pub each-Ends :
      {B : Type 0} (Q : ℕ → C → Type 0) (keys : List ℕ) (n : ℕ) (Goal : Colors C → B → Type 0)
      → ((b : B) (cs ds : Colors C) → Keeps cs ds → Goal cs b → Goal ds b)
      → (walk : Colors C → B → Result (Colors C)) (bs : List B)
      → ((cs : Colors C) (b : B)
          → Memᴰ b bs
          → IsReady Q keys n cs
          → Ends (λ ds. After Q cs ds × Goal ds b) (Conflict Q) (walk cs b))
      → (cs : Colors C) → IsReady Q keys n cs
      → Ends
          (λ ds. After Q cs ds × ((b : B) → Memᴰ b bs → Goal ds b))
          (Conflict Q)
          (each walk cs bs)
  unfolding each
  each-Ends Q keys n Goal mono walk [] step cs r =
      gives cs (After-refl Q cs, λ b m. absurd (not-nil m))
  each-Ends Q keys n Goal mono walk (b ∷ bs) step cs r =
      Ends-then _ (λ ds. each walk ds bs) (step cs b (head refl) r)
        (λ ds p.
          Ends-map _
            (each-Ends Q keys n Goal mono walk bs (λ es x m. step es x (tail m)) ds
              (IsReady-After Q keys n cs ds r (p.0)))
            (λ es q. (
              After-trans Q cs ds es (p.0) (q.0),
              λ x m. elim (cases_cons m) [
                | inl e ↦ subst (Goal es) (sym e) (mono b ds es (q.0.kept) (p.1))
                | inr k ↦ q.1 x k
              ],
            )))
