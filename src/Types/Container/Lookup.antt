-- ===== src/Types/Container/Lookup.antt =====
-- containers.of of types/scan.go, over a sort.Find that does what its documentation says.
use coroutine_durable_fork.Prelude.{
  ℕ, suc, zero, ◌≡◌, ◌≤◌, ◌<◌, refl, Bool, true, false, List, [], ◌∷◌, arith, length, get_elem?,
  ◌⊎◌, Bool-cases, inl, inr, ltb, some, none,
}
use coroutine_durable_fork.Types.Container.{
  Container, size, limit, has, Sign, same, plus, minus, compare, compare_at, of,
}
use coroutine_durable_fork.Types.Container.Cover.{covered}

-- The documented condition of sort.Find: cmp(i) > 0 for a leading prefix, cmp(i) == 0 in the
-- middle and cmp(i) < 0 for a trailing suffix. Then it finds the smallest index with cmp(i) <= 0.
pub record IsFind (find : ℕ → (ℕ → Sign) → ℕ × Bool) : Type 0 where
  pub hit :
      (n : ℕ) (f : ℕ → Sign) (k : ℕ)
      → k < n
      → f k ≡ same
      → ((i : ℕ) → i < k → f i ≡ plus)
      → ((i : ℕ) → k < i → i < n → f i ≡ minus)
      → find n f ≡ (k, true)
  pub miss :
      (n : ℕ) (f : ℕ → Sign) (k : ℕ)
      → k ≤ n
      → ((i : ℕ) → i < k → f i ≡ plus)
      → ((i : ℕ) → k ≤ i → i < n → f i ≡ minus)
      → find n f ≡ (k, false)

has-below : (c : Container) (p : ℕ) → p < c.addr → has c p ≡ false
unfolding has
has-below c p h = ground arith

has-beyond : (c : Container) (p : ℕ) → limit c ≤ p → has c p ≡ false
unfolding has size
has-beyond c p h = ground arith

-- Containers that lie apart and in order.
abbrev pub Apart : List Container → Type 0
Apart [] = Unit {0}
Apart (c ∷ []) = Unit {0}
Apart (c ∷ d ∷ cs) = (limit c ≤ d.addr) × Apart (d ∷ cs)

compare_same : (c : Container) (p : ℕ) → has c p ≡ true → compare c p ≡ same
unfolding compare
compare_same c p h = rw (h) refl

compare_minus : (c : Container) (p : ℕ) → p < c.addr → compare c p ≡ minus
unfolding compare has
compare_minus c p h = ground arith

compare_plus : (c : Container) (p : ℕ) → limit c ≤ p → compare c p ≡ plus
unfolding compare has size
compare_plus c p h = ground arith

-- Where an address is found among containers, or would be.
pub data Place (p : ℕ) (cs : List Container) : Type 0 where
  inside :
      (k : ℕ) (c : Container)
      → k < length cs
      → get_elem? cs k ≡ some c
      → has c p ≡ true
      → ((i : ℕ) → i < k → compare_at p cs i ≡ plus)
      → ((i : ℕ) → k < i → i < length cs → compare_at p cs i ≡ minus)
      → Place p cs
  between :
      (k : ℕ)
      → k ≤ length cs
      → covered p cs ≡ false
      → ((i : ℕ) → i < k → compare_at p cs i ≡ plus)
      → ((i : ℕ) → k ≤ i → i < length cs → compare_at p cs i ≡ minus)
      → Place p cs

later_minus :
    (p : ℕ) (c : Container) (cs : List Container)
    → Apart (c ∷ cs)
    → p < limit c
    → (i : ℕ) → i < length cs
    → compare_at p cs i ≡ minus
later_minus p c [] a lt i h = grind arith
later_minus p c (d ∷ cs) (le, a) lt zero h = compare_minus d p (omega arith)
later_minus p c (d ∷ cs) (le, a) lt (suc i) h = later_minus p d cs a (omega arith) i (omega arith)

later_uncovered :
    (p : ℕ) (c : Container) (cs : List Container)
    → Apart (c ∷ cs)
    → p < limit c
    → covered p cs ≡ false
unfolding covered
later_uncovered p c [] a lt = refl
later_uncovered p c (d ∷ cs) (le, a) lt =
    rw (has-below d p (omega arith)) (later_uncovered p d cs a (omega arith))

plus-cons :
    (p : ℕ) (c : Container) (cs : List Container) (k : ℕ)
    → limit c ≤ p
    → ((i : ℕ) → i < k → compare_at p cs i ≡ plus)
    → (i : ℕ) → i < suc k
    → compare_at p (c ∷ cs) i ≡ plus
plus-cons p c cs k le before zero lt = compare_plus c p le
plus-cons p c cs k le before (suc i) lt = before i (omega arith)

minus-cons :
    (p : ℕ) (c : Container) (cs : List Container) (k : ℕ)
    → ((i : ℕ) → k ≤ i → i < length cs → compare_at p cs i ≡ minus)
    → (i : ℕ) → suc k ≤ i
    → i < suc (length cs)
    → compare_at p (c ∷ cs) i ≡ minus
minus-cons p c cs k behind zero gt lt = grind arith
minus-cons p c cs k behind (suc i) gt lt = behind i (omega arith) (omega arith)

Place-cons :
    (p : ℕ) (c : Container) (cs : List Container) → limit c ≤ p → Place p cs → Place p (c ∷ cs)
unfolding covered
Place-cons p c cs le (inside k d lt e h before behind) =
    inside (suc k) d (omega arith) e h (plus-cons p c cs k le before)
      (minus-cons p c cs (suc k) (λ i gt lt. behind i gt lt))
Place-cons p c cs le (between k bound lt before behind) =
    between (suc k) (omega arith) (rw (has-beyond c p le) lt) (plus-cons p c cs k le before)
      (minus-cons p c cs k behind)

Apart-tail : (c : Container) (cs : List Container) → Apart (c ∷ cs) → Apart cs
Apart-tail c [] a = tt
Apart-tail c (d ∷ cs) (le, a) = a

side : (p : ℕ) (c : Container) → (p < c.addr) ⊎ (((has c p ≡ true) × (p < limit c)) ⊎ (limit c ≤ p))
unfolding has size
side p c = elim (Bool-cases (ltb p c.addr)) [
  | inl lt ↦ inl (ground (arith, lt))
  | inr ge ↦ elim (Bool-cases (ltb p (limit c))) [
    | inl lt ↦ inr (inl (ground (arith, lt, ge)))
    | inr le ↦ inr (inr (ground (arith, le)))
  ]
]

all_minus :
    (p : ℕ) (c : Container) (cs : List Container)
    → Apart (c ∷ cs)
    → p < c.addr
    → (i : ℕ) → 0 ≤ i
    → i < suc (length cs)
    → compare_at p (c ∷ cs) i ≡ minus
all_minus p c cs a lt zero le h = compare_minus c p lt
all_minus p c cs a lt (suc i) le h = later_minus p c cs a (omega arith) i (omega arith)

behind_minus :
    (p : ℕ) (c : Container) (cs : List Container)
    → Apart (c ∷ cs)
    → p < limit c
    → (i : ℕ) → 0 < i
    → i < suc (length cs)
    → compare_at p (c ∷ cs) i ≡ minus
behind_minus p c cs a lt zero gt h = grind arith
behind_minus p c cs a lt (suc i) gt h = later_minus p c cs a lt i (omega arith)

place : (p : ℕ) (cs : List Container) → Apart cs → Place p cs
unfolding covered
place p [] a = between 0 (omega arith) refl (λ i lt. grind arith) (λ i le lt. grind arith)
place p (c ∷ cs) a = elim (side p c) [
  | inl lt ↦
      between 0 (omega arith) (rw (has-below c p lt) (later_uncovered p c cs a (omega arith)))
        (λ i lt. grind arith) (all_minus p c cs a lt)
  | inr (inl (h, lt)) ↦
      inside 0 c (omega arith) refl h (λ i lt. grind arith) (behind_minus p c cs a lt)
  | inr (inr le) ↦ Place-cons p c cs le (place p cs (Apart-tail c cs a))
]

compare_at_same :
    (p k : ℕ) (c : Container) (cs : List Container)
    → get_elem? cs k ≡ some c
    → has c p ≡ true
    → compare_at p cs k ≡ same
compare_at_same p k c cs e h = rw (e, compare_at) (compare_same c p h)

-- Over a sort.Find that does as documented, and for containers that lie apart in order, `of` finds
-- one that has the address, or none and then they do not cover it.
pub of_lem :
    (find : ℕ → (ℕ → Sign) → ℕ × Bool) (p : ℕ) (cs : List Container)
    → IsFind find
    → Apart cs
    → ((c : Container) × ((of find p cs ≡ some c) × (has c p ≡ true)))
      ⊎ ((of find p cs ≡ none) × (covered p cs ≡ false))
unfolding of
of_lem find p cs law a = elim (place p cs a) [
  | inside k c lt e h before behind ↦
      let q =
        law.hit (length cs) (compare_at p cs) k lt (compare_at_same p k c cs e h) before behind in
      inl (c, (rw (q, of) e, h))
  | between k le h before behind ↦
      let q = law.miss (length cs) (compare_at p cs) k le before behind in inr (rw (q, of) refl, h)
]
