-- ===== src/Prelude/Dict.antt =====
-- Maps as lists of pairs, with the last entry first, and how many keys of a list have no entry, the
-- measure of a walk that adds entries.
use coroutine_durable_fork.Prelude.{
  some-inj, ℕ, ◌+◌, ◌≤◌, ◌<◌, ◌≡◌, ◌≢◌, ◌⊎◌, subst, ap, refl, sym, ◌∙◌, Bool-cases, inl, inr, true,
  List, [], ◌∷◌, Option, none, some, ◌==◌, if◌then◌else◌, ==_iff, arith, length,
}
use mathlib.Core.List.{Memᴰ}
use mathlib.Core.List.Memᴰ.{not-nil, cases_cons}

abbrev pub lookup : {C : Type 0} → ℕ → List (ℕ × C) → Option C
lookup k [] = none
lookup k ((x, c) ∷ m) = if x == k then some c else lookup k m

-- An entry is kept.
abbrev pub Keeps : {C : Type 0} → List (ℕ × C) → List (ℕ × C) → Type 0
Keeps {C = C} cs ds = (f : ℕ) (c : C) → lookup f cs ≡ some c → lookup f ds ≡ some c

abbrev missing : {C : Type 0} → Option C → ℕ
missing none = 1
missing (some c) = 0

-- How many keys of the list have no entry.
unfoldable pub free : {C : Type 0} → List ℕ → List (ℕ × C) → ℕ
free [] cs = 0
free (k ∷ ks) cs = free ks cs + missing (lookup k cs)

missing_le : {C : Type 0} (o : Option C) → missing o ≤ 1
missing_le none = omega arith
missing_le (some c) = omega arith

missing_mono :
    {C : Type 0} (o p : Option C) → ((c : C) → o ≡ some c → p ≡ some c) → missing p ≤ missing o
missing_mono none p h = missing_le p
missing_mono (some c) p h = rw (h c refl) (omega arith)

pub free_le : {C : Type 0} (ks : List ℕ) (cs : List (ℕ × C)) → free ks cs ≤ length ks
unfolding free
free_le [] cs = omega arith
free_le (k ∷ ks) cs = omega (arith, free_le ks cs, missing_le (lookup k cs))

pub free_mono :
    {C : Type 0} (ks : List ℕ) (cs ds : List (ℕ × C)) → Keeps cs ds → free ks ds ≤ free ks cs
unfolding free
free_mono [] cs ds h = omega arith
free_mono (k ∷ ks) cs ds h =
    omega (arith, free_mono ks cs ds h, missing_mono (lookup k cs) (lookup k ds) (h k))

pub none-some : {C : Type 0} {o : Option C} {c : C} → o ≡ none → o ≡ some c → ⊥
none-some h k = cc

-- A new key does not change the other entries.
pub insert-Keeps :
    {C : Type 0} (f : ℕ) (c : C) (cs : List (ℕ × C)) → lookup f cs ≡ none → Keeps cs ((f, c) ∷ cs)
insert-Keeps f c cs h g e k = elim (Bool-cases (f == g)) [
  | inl s ↦
      let same : f ≡ g = (==_iff f g).0 s in
      absurd (none-some (subst (λ x. lookup x cs ≡ none) same h) k)
  | inr d ↦ rw d k
]

pub insert-some :
    {C : Type 0} (f g : ℕ) (c e : C) (cs : List (ℕ × C))
    → lookup g ((f, c) ∷ cs) ≡ some e
    → ((f ≡ g) × (c ≡ e)) ⊎ (lookup g cs ≡ some e)
insert-some f g c e cs h = elim (Bool-cases (f == g)) [
  | inl s ↦
      let step : lookup g ((f, c) ∷ cs) ≡ some c = rw s refl in
      inl ((==_iff f g).0 s, some-inj step h)
  | inr d ↦ let step : lookup g ((f, c) ∷ cs) ≡ lookup g cs = rw d refl in inr (sym step ∙ h)
]

pub insert-lookup :
    {C : Type 0} (f : ℕ) (c : C) (cs : List (ℕ × C)) → lookup f ((f, c) ∷ cs) ≡ some c
insert-lookup f c cs = let e : (f == f) ≡ true = (==_iff f f).1 refl in rw e refl

pub free-insert :
    {C : Type 0} (ks : List ℕ) (f : ℕ) (c : C) (cs : List (ℕ × C))
    → Memᴰ f ks
    → lookup f cs ≡ none
    → free ks ((f, c) ∷ cs) < free ks cs
unfolding free
free-insert [] f c cs h p = absurd (not-nil h)
free-insert (k ∷ ks) f c cs h p =
    let keeps = insert-Keeps f c cs p in
    let below = free_mono ks cs ((f, c) ∷ cs) keeps in
    let here = missing_mono (lookup k cs) (lookup k ((f, c) ∷ cs)) (keeps k) in
    elim (cases_cons h) [
      | inl same ↦
          let old : missing (lookup k cs) ≡ 1 =
            ap missing (subst (λ x. lookup x cs ≡ none) same p) in
          let new : missing (lookup k ((f, c) ∷ cs)) ≡ 0 =
            ap missing (subst (λ x. lookup x ((f, c) ∷ cs) ≡ some c) same (insert-lookup f c cs)) in
          omega (arith, below, old, new)
      | inr m ↦ omega (arith, free-insert ks f c cs m p, here)
    ]

-- An entry under another key is not the one that is found.
pub insert_apart :
    {C : Type 0} (k q : ℕ) (c : C) (m : List (ℕ × C)) → k ≢ q → lookup q ((k, c) ∷ m) ≡ lookup q m
insert_apart k q c m h = elim (Bool-cases (k == q)) [
  | inl e ↦ absurd (h ((==_iff k q).0 e))
  | inr e ↦ rw e refl
]
