-- ===== src/Types/Container/Cover.antt =====
-- The list of containers covers the memory of all that was added, and no more.
use coroutine_durable_fork.Prelude.{
  ℕ, zero, suc, ◌≤◌, ◌≡◌, refl, sym, ap, ◌∙◌, subst, Bool, true, false, ◌||◌, List, [], ◌∷◌, arith,
  Bool-cases, inl, inr, ◌⊎◌,
}
use coroutine_durable_fork.Types.Container.Join.{result-cases, join-limit, contains-has, merged-has}
use coroutine_durable_fork.Types.Container.{
  Container, overlaps, contains, has, Error, Result, ok, err, ◌>>=◌, insert_at, all_ordered, join,
  fixup_from, fixup, cons, fix_both,
}

-- Whether an address lies in one of the containers.
unfoldable pub covered : ℕ → List Container → Bool
covered p [] = false
covered p (c ∷ cs) = has c p || covered p cs

abbrev Rises : Container → List Container → Type 0
Rises x [] = Unit {0}
Rises x (c ∷ cs) = (x.addr ≤ c.addr) × Rises c cs

abbrev pub IsRising : List Container → Type 0
IsRising [] = Unit {0}
IsRising (c ∷ cs) = Rises c cs

pub covered-insert :
    (p i : ℕ) (x : Container) (cs : List Container)
    → covered p (insert_at i x cs) ≡ (has x p || covered p cs)
unfolding covered insert_at
covered-insert p zero x cs = refl
covered-insert p (suc i) x [] = refl
covered-insert p (suc i) x (c ∷ cs) = ground (arith, covered-insert p i x cs)

pub ordered-IsRising : (cs : List Container) → all_ordered cs ≡ true → IsRising cs
unfolding all_ordered
ordered-IsRising [] h = tt
ordered-IsRising (c ∷ []) h = tt
ordered-IsRising (c ∷ d ∷ cs) h = ground (arith, ordered-IsRising (d ∷ cs))

-- The ways on from an element that has one behind it.
fixup_from_cases :
    (x c : Container) (cs : List Container)
    → (overlaps x c ≡ false × (fixup_from x (c ∷ cs) ≡ ok (x ∷ c ∷ cs)))
      ⊎ ((contains x c ≡ true × (fixup_from x (c ∷ cs) ≡ ok (x ∷ cs)))
          ⊎ ((overlaps x c ≡ true
                × (contains x c ≡ false
                    × ((m : Container) × ((join x c ≡ ok m)
                          × (fixup_from x (c ∷ cs) ≡ fixup_from m cs)))))
              ⊎ ((e : Error) × (fixup_from x (c ∷ cs) ≡ err e))))
unfolding fixup_from
fixup_from_cases x c cs = elim (Bool-cases (overlaps x c)) [
  | inr o ↦ inl (o, rw (o) refl)
  | inl o ↦ elim (Bool-cases (contains x c)) [
    | inl i ↦ inr (inl (i, rw (o, i) refl))
    | inr i ↦ elim (result-cases (join x c)) [
      | inl (m, j) ↦ inr (inr (inl (o, (i, (m, (j, rw (o, i, j) refl))))))
      | inr (e, j) ↦ inr (inr (inr (e, rw (o, i, j) refl)))
    ]
  ]
]

Rises-lower : (x c : Container) (cs : List Container) → x.addr ≤ c.addr → Rises c cs → Rises x cs
Rises-lower x c [] le r = tt
Rises-lower x c (d ∷ cs) le (next, r) = (omega arith, r)

pub ok-inj {ℓ} : {A : Type ℓ} {a b : A} (r : Result A) → r ≡ ok a → r ≡ ok b → a ≡ b
ok-inj r e h = cc

absorbed : (a b r : Bool) → (a || b) ≡ a → (a || r) ≡ (a || (b || r))
absorbed true b r e = refl
absorbed false true r e = cc
absorbed false false r e = refl

regrouped : (a b r : Bool) → ((a || b) || r) ≡ (a || (b || r))
regrouped true b r = refl
regrouped false b r = refl

-- fixup neither loses an address nor adds one.
covered-fixup_from :
    (p : ℕ) (x : Container) (cs ds : List Container)
    → Rises x cs
    → fixup_from x cs ≡ ok ds
    → covered p ds ≡ (has x p || covered p cs)
unfolding covered fixup_from
covered-fixup_from p x [] ds r h = ap (covered p) (ok-inj (ok (x ∷ [])) h refl)
covered-fixup_from p x (c ∷ cs) ds (le, r) h = elim (fixup_from_cases x c cs) [
  | inl (o, e) ↦ ap (covered p) (ok-inj _ h e)
  | inr (inl (i, e)) ↦ ap (covered p) (ok-inj _ h e) ∙ absorbed _ _ _ (contains-has p x c i)
  | inr (inr (inl (o, (i, (m, (j, e)))))) ↦
      let (start, end) = join-limit x c m le j in
      covered-fixup_from p m cs ds (Rises-lower m c cs (omega (arith, start, le)) r) (sym e ∙ h)
      ∙ ap (λ b. b || covered p cs) (merged-has p x c m le o i start end)
      ∙ regrouped (has x p) (has c p) (covered p cs)
  | inr (inr (inr (f, e))) ↦ cc
]

Rises-fixup_from :
    (y x : Container) (cs ds : List Container)
    → y.addr ≤ x.addr
    → Rises x cs
    → fixup_from x cs ≡ ok ds
    → Rises y ds
unfolding fixup_from
Rises-fixup_from y x [] ds lo r h = subst (Rises y) (ok-inj (ok (x ∷ [])) refl h) (lo, tt)
Rises-fixup_from y x (c ∷ cs) ds lo (le, r) h = elim (fixup_from_cases x c cs) [
  | inl (o, e) ↦ subst (Rises y) (ok-inj _ e h) (lo, (le, r))
  | inr (inl (i, e)) ↦ subst (Rises y) (ok-inj _ e h) (lo, Rises-lower x c cs le r)
  | inr (inr (inl (o, (i, (m, (j, e)))))) ↦
      let (start, end) = join-limit x c m le j in
      Rises-fixup_from y m cs ds (omega (arith, start, lo))
        (Rises-lower m c cs (omega (arith, start, le)) r) (sym e ∙ h)
  | inr (inr (inr (f, e))) ↦ cc
]

cons-ok :
    (x : Container) (r : Result (List Container)) (ds : List Container)
    → cons x r ≡ ok ds
    → (es : List Container) × ((r ≡ ok es) × (x ∷ es ≡ ds))
cons-ok x (ok es) ds h = (es, (refl, ok-inj _ refl h))
cons-ok x (err e) ds h = cc

Rises-IsRising : (x : Container) (cs : List Container) → Rises x cs → IsRising cs
Rises-IsRising x [] r = tt
Rises-IsRising x (c ∷ cs) (le, r) = r

Rises-fixup :
    (y : Container) (i : ℕ) (cs ds : List Container) → Rises y cs → fixup i cs ≡ ok ds → Rises y ds
unfolding fixup
Rises-fixup y i [] ds r h = cc
Rises-fixup y zero (x ∷ cs) ds (le, r) h = Rises-fixup_from y x cs ds le r h
Rises-fixup y (suc i) (x ∷ cs) ds (le, r) h =
    let (es, (e, q)) = cons-ok x (fixup i cs) ds h in
    subst (Rises y) q (le, Rises-fixup x i cs es r e)

IsRising-fixup : (i : ℕ) (cs ds : List Container) → IsRising cs → fixup i cs ≡ ok ds → IsRising ds
unfolding fixup
IsRising-fixup i [] ds r h = cc
IsRising-fixup i (x ∷ cs) ds r h =
    Rises-IsRising _ ds (Rises-fixup x i (x ∷ cs) ds (omega arith, r) h)

covered-fixup :
    (p i : ℕ) (cs ds : List Container)
    → IsRising cs
    → fixup i cs ≡ ok ds
    → covered p ds ≡ covered p cs
unfolding fixup covered
covered-fixup p i [] ds r h = cc
covered-fixup p zero (x ∷ cs) ds r h = covered-fixup_from p x cs ds r h
covered-fixup p (suc i) (x ∷ cs) ds r h =
    let (es, (e, q)) = cons-ok x (fixup i cs) ds h in
    sym (ap (covered p) q)
    ∙ ap (λ b. has x p || b) (covered-fixup p i cs es (Rises-IsRising x cs r) e)

pub then-ok {ℓ κ} :
    {A : Type ℓ} {B : Type κ} (r : Result A) (f : A → Result B) (b : B)
    → (r >>= f) ≡ ok b
    → (a : A) × ((r ≡ ok a) × (f a ≡ ok b))
then-ok (ok a) f b h = (a, (refl, h))
then-ok (err e) f b h = cc

pub covered-fix_both :
    (p i : ℕ) (cs ds : List Container)
    → IsRising cs
    → fix_both i cs ≡ ok ds
    → covered p ds ≡ covered p cs
covered-fix_both p zero cs ds r h = covered-fixup p zero cs ds r h
covered-fix_both p (suc i) cs ds r h =
    let (es, (e, q)) = then-ok (fixup (suc i) cs) (fixup i) ds h in
    covered-fixup p i es ds (IsRising-fixup (suc i) cs es r e) q ∙ covered-fixup p (suc i) cs es r e

pub IsRising-fix_both :
    (i : ℕ) (cs ds : List Container) → IsRising cs → fix_both i cs ≡ ok ds → IsRising ds
IsRising-fix_both zero cs ds r h = IsRising-fixup zero cs ds r h
IsRising-fix_both (suc i) cs ds r h =
    let (es, (e, q)) = then-ok (fixup (suc i) cs) (fixup i) ds h in
    IsRising-fixup i es ds (IsRising-fixup (suc i) cs es r e) q
