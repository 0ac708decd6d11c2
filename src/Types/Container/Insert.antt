-- ===== src/Types/Container/Insert.antt =====
-- insert of types/scan.go, over a sort.Search that does what its documentation says.
use coroutine_durable_fork.Prelude.{
  ℕ, suc, zero, ◌≡◌, ◌≤◌, ◌<◌, refl, Bool, true, false, ◌&&◌, List, [], ◌∷◌, arith, length,
  Bool-cases, inl, inr, leb,
}
use coroutine_durable_fork.Types.Container.{
  Container, size, ok, insert_at, all_ordered, ordered, insert, behind, behind_at,
}

-- sort.Search gives the first index in [0, n) at which f holds, or n; f must go on to hold.
pub record IsSearch (seek : ℕ → (ℕ → Bool) → ℕ) : Type 0 where
  pub bounded : (n : ℕ) (f : ℕ → Bool) → seek n f ≤ n
  pub below :
      (n : ℕ) (f : ℕ → Bool)
      → ((i : ℕ) → suc i < n → f i ≡ true → f (suc i) ≡ true)
      → (i : ℕ) → i < seek n f
      → f i ≡ false
  pub found :
      (n : ℕ) (f : ℕ → Bool)
      → ((i : ℕ) → suc i < n → f i ≡ true → f (suc i) ≡ true)
      → seek n f < n
      → f (seek n f) ≡ true

pub behind-ordered : (x c : Container) → behind x c ≡ true → ordered x c ≡ true
unfolding size
behind-ordered x c h = ground arith

ordered-behind : (x c : Container) → behind x c ≡ false → ordered c x ≡ true
unfolding size
ordered-behind x c h = ground arith

ordered-behind_twice :
    (x c d : Container) → ordered c d ≡ true → behind x c ≡ true → behind x d ≡ true
unfolding size
ordered-behind_twice x c d o h = ground arith

and-left : (a b : Bool) → (a && b) ≡ true → a ≡ true
and-left true b h = refl
and-left false b h = cc

and-right : (a b : Bool) → (a && b) ≡ true → b ≡ true
and-right true b h = h
and-right false b h = cc

pub and-true : {a b : Bool} → a ≡ true → b ≡ true → (a && b) ≡ true
and-true h k = cc

all_ordered_tail :
    (c : Container) (cs : List Container) → all_ordered (c ∷ cs) ≡ true → all_ordered cs ≡ true
unfolding all_ordered
all_ordered_tail c [] h = refl
all_ordered_tail c (d ∷ cs) h = and-right _ _ h

pub behind_at-suc :
    (x : Container) (cs : List Container) (i : ℕ)
    → all_ordered cs ≡ true
    → suc i < length cs
    → behind_at x cs i ≡ true
    → behind_at x cs (suc i) ≡ true
unfolding all_ordered
behind_at-suc x [] i o lt h = refl
behind_at-suc x (c ∷ []) i o lt h = refl
behind_at-suc x (c ∷ d ∷ cs) zero o lt h = ordered-behind_twice x c d (and-left _ _ o) h
behind_at-suc x (c ∷ d ∷ cs) (suc i) o lt h =
    behind_at-suc x (d ∷ cs) i (and-right _ _ o) (omega arith) h

behind_at-length :
    (x : Container) (cs : List Container) (i : ℕ) → length cs ≤ i → behind_at x cs i ≡ true
behind_at-length x [] i le = refl
behind_at-length x (c ∷ cs) zero le = grind arith
behind_at-length x (c ∷ cs) (suc i) le = behind_at-length x cs i (omega arith)

all_ordered-insert_at :
    (i : ℕ) (x : Container) (cs : List Container)
    → all_ordered cs ≡ true
    → ((j : ℕ) → j < i → behind_at x cs j ≡ false)
    → behind_at x cs i ≡ true
    → all_ordered (insert_at i x cs) ≡ true
unfolding all_ordered insert_at
all_ordered-insert_at zero x [] o before at = refl
all_ordered-insert_at (suc i) x [] o before at = refl
all_ordered-insert_at zero x (c ∷ cs) o before at = and-true (behind-ordered x c at) o
all_ordered-insert_at (suc zero) x (c ∷ []) o before at =
    and-true (ordered-behind x c (before 0 (omega arith))) refl
all_ordered-insert_at (suc (suc i)) x (c ∷ []) o before at =
    and-true (ordered-behind x c (before 0 (omega arith))) refl
all_ordered-insert_at (suc zero) x (c ∷ d ∷ cs) o before at =
    and-true (ordered-behind x c (before 0 (omega arith)))
      (and-true (behind-ordered x d at) (and-right _ _ o))
all_ordered-insert_at (suc (suc i)) x (c ∷ d ∷ cs) o before at = and-true (and-left _ _ o) (
    all_ordered-insert_at (suc i) x (d ∷ cs) (and-right _ _ o)
      (λ j lt. before (suc j) (omega arith)) at)

-- Over a sort.Search that does as documented, insert into an ordered list gives a list with the new
-- container at one place, and this list is ordered.
pub insert_sorted :
    (seek : ℕ → (ℕ → Bool) → ℕ) (x : Container) (cs : List Container)
    → IsSearch seek
    → all_ordered cs ≡ true
    → (i : ℕ) × ((insert seek x cs ≡ ok (i, insert_at i x cs))
        × (all_ordered (insert_at i x cs) ≡ true))
unfolding insert
insert_sorted seek x cs law o =
    let n = length cs in
    let i = seek n (behind_at x cs) in
    let mono =
      λ (j : ℕ) (lt : suc j < n) (h : behind_at x cs j ≡ true). behind_at-suc x cs j o lt h in
    let at : behind_at x cs i ≡ true = elim (Bool-cases (leb n i)) [
      | inl le ↦ behind_at-length x cs i (ground (arith, le))
      | inr lt ↦ law.found n (behind_at x cs) mono (ground (arith, lt))
    ] in
    let q = all_ordered-insert_at i x cs o (law.below n (behind_at x cs) mono) at in
    (i, (rw (q, insert) refl, q))
