-- ===== src/Types/Examples.antt =====
-- Tests of the models of types/, and applications of their theorems at concrete inputs.
use coroutine_durable_fork.Prelude.{
  ℕ, suc, zero, ◌+◌, ◌≡◌, ◌≤◌, ◌<◌, refl, Bool, true, false, [], ◌∷◌, ◌||◌, if◌then◌else◌, arith,
  Bool-cases, inl, inr, ◌⊎◌, some, none,
}
use coroutine_durable_fork.Types.Container.{
  GoType, basic, structure, array, size_of, Container, size, limit, contains, overlaps, ok,
  insert_at, all_ordered, insert, add, fixup, has, Sign, minus, same, plus, of, err, bad_merge,
  merge, join, fixup_from, disjoints, same_type,
}
use coroutine_durable_fork.Types.Container.Cover.{covered, IsRising}
use coroutine_durable_fork.Types.Container.Add.{covered-add, IsRising-add}
use coroutine_durable_fork.Types.Container.Insert.{IsSearch, insert_sorted}
use coroutine_durable_fork.Types.Container.Lookup.{IsFind, of_lem, Apart}
use coroutine_durable_fork.Types.Container.Outer.{contained_stays}

abbrev linear_search : ℕ → (ℕ → Bool) → ℕ
linear_search zero f = 0
linear_search (suc n) f = let rest = linear_search n (λ i. f (suc i)) in if f 0 then 0 else suc rest

abbrev linear_find : ℕ → (ℕ → Sign) → ℕ × Bool
linear_find zero f = (0, false)
linear_find (suc n) f =
    let rest = linear_find n (λ i. f (suc i)) in
    elim (f 0) [ minus ↦ (0, false) | same ↦ (0, true) | plus ↦ (suc rest.0, rest.1) ]

linear_search_bounded : (n : ℕ) (f : ℕ → Bool) → linear_search n f ≤ n
linear_search_bounded zero f = omega arith
linear_search_bounded (suc n) f = ground (arith, linear_search_bounded n (λ i. f (suc i)))

linear_search_below : (n : ℕ) (f : ℕ → Bool) (i : ℕ) → i < linear_search n f → f i ≡ false
linear_search_below zero f i lt = grind arith
linear_search_below (suc n) f zero lt = ground arith
linear_search_below (suc n) f (suc i) lt = linear_search_below n (λ i. f (suc i)) i (ground arith)

linear_search_found : (n : ℕ) (f : ℕ → Bool) → linear_search n f < n → f (linear_search n f) ≡ true
linear_search_found zero f lt = grind arith
linear_search_found (suc n) f lt = elim (Bool-cases (f 0)) [
  | inl e ↦ rw (e, linear_search) e
  | inr e ↦ rw (e, linear_search) (linear_search_found n (λ i. f (suc i)) (ground (arith, e)))
]

linear_search-IsSearch : IsSearch linear_search
linear_search-IsSearch = record {
  bounded = linear_search_bounded;
  below = λ n f mono. linear_search_below n f;
  found = λ n f mono. linear_search_found n f;
}

linear_find_hit :
    (n : ℕ) (f : ℕ → Sign) (k : ℕ)
    → k < n
    → f k ≡ same
    → ((i : ℕ) → i < k → f i ≡ plus)
    → linear_find n f ≡ (k, true)
linear_find_hit zero f k lt e before = grind arith
linear_find_hit (suc n) f zero lt e before = rw (e, linear_find) refl
linear_find_hit (suc n) f (suc k) lt e before =
    let rest =
      linear_find_hit n (λ i. f (suc i)) k (omega arith) e (λ i lt. before (suc i) (omega arith)) in
    rw (before 0 (omega arith), rest, linear_find) refl

linear_find_miss :
    (n : ℕ) (f : ℕ → Sign) (k : ℕ)
    → k ≤ n
    → ((i : ℕ) → i < k → f i ≡ plus)
    → ((i : ℕ) → k ≤ i → i < n → f i ≡ minus)
    → linear_find n f ≡ (k, false)
linear_find_miss zero f zero le before behind = refl
linear_find_miss zero f (suc k) le before behind = grind arith
linear_find_miss (suc n) f zero le before behind =
    rw (behind 0 (omega arith) (omega arith), linear_find) refl
linear_find_miss (suc n) f (suc k) le before behind =
    let rest =
      linear_find_miss n (λ i. f (suc i)) k (omega arith) (λ i lt. before (suc i) (omega arith))
        (λ i le lt. behind (suc i) (omega arith) (omega arith)) in
    rw (before 0 (omega arith), rest, linear_find) refl

linear_find-IsFind : IsFind linear_find
linear_find-IsFind = record {
  hit = λ n f k lt e before behind. linear_find_hit n f k lt e before;
  miss = linear_find_miss;
}

-- four bytes, and slices of an array of words
abbrev word : GoType
word = basic 1 4

abbrev words : ℕ → ℕ → Container
words p n = record { addr = p; typ = array n word }

abbrev pair : ℕ → Container
pair p = record { addr = p; typ = structure 1 8 }

-- Three overlapping slices become one array.
add_merges :
    add linear_search (array 4 word) 108 (words 100 3 ∷ words 120 2 ∷ []) ≡ ok (words 100 7 ∷ [])
unfolding add insert insert_at all_ordered fixup overlaps contains size size_of same_type merge join
    fixup_from disjoints
add_merges = refl

add_mixed : add linear_search (structure 1 8) 108 (words 100 3 ∷ []) ≡ err bad_merge
unfolding add insert insert_at all_ordered fixup overlaps contains size size_of same_type merge join
    fixup_from disjoints
add_mixed = refl

covered-add_example :
    covered 125 (words 100 7 ∷ [])
    ≡ (has (words 108 4) 125 || covered 125 (words 100 3 ∷ words 120 2 ∷ []))
covered-add_example =
    covered-add linear_search (array 4 word) 108 (words 100 3 ∷ words 120 2 ∷ []) (words 100 7 ∷ [])
      125 add_merges

merged-IsRising : IsRising (words 100 7 ∷ [])
merged-IsRising =
    IsRising-add linear_search (array 4 word) 108 (words 100 3 ∷ words 120 2 ∷ [])
      (words 100 7 ∷ []) (omega arith, tt) add_merges

two_ordered : all_ordered (words 100 3 ∷ pair 120 ∷ []) ≡ true
unfolding all_ordered size
two_ordered = refl

two-Apart : Apart (words 100 3 ∷ pair 120 ∷ [])
unfolding size size_of
two-Apart = (omega arith, tt)

inner_ordered : all_ordered (pair 104 ∷ pair 120 ∷ []) ≡ true
unfolding all_ordered size
inner_ordered = refl

pair_pos : 0 < size (pair 104)
unfolding size size_of
pair_pos = omega arith

pair_end : limit (pair 104) ≤ 100 + size_of (structure 2 40)
unfolding size size_of
pair_end = omega arith

insert_sorted_example :
    (i : ℕ) × ((insert linear_search (words 100 2) (words 100 3 ∷ pair 120 ∷ [])
        ≡ ok (i, insert_at i (words 100 2) (words 100 3 ∷ pair 120 ∷ [])))
      × (all_ordered (insert_at i (words 100 2) (words 100 3 ∷ pair 120 ∷ [])) ≡ true))
insert_sorted_example =
    insert_sorted linear_search (words 100 2) (words 100 3 ∷ pair 120 ∷ []) linear_search-IsSearch
      two_ordered

of_lem_example :
    ((c : Container) × ((of linear_find 125 (words 100 3 ∷ pair 120 ∷ []) ≡ some c)
        × (has c 125 ≡ true)))
    ⊎ ((of linear_find 125 (words 100 3 ∷ pair 120 ∷ []) ≡ none)
        × (covered 125 (words 100 3 ∷ pair 120 ∷ []) ≡ false))
of_lem_example = of_lem linear_find 125 (words 100 3 ∷ pair 120 ∷ []) linear_find-IsFind two-Apart

-- A struct around two others; the second of them stays in the list, inside the struct.
contained_stays_example :
    add linear_search (structure 2 40) 100 (pair 104 ∷ pair 120 ∷ [])
    ≡ ok (record { addr = 100; typ = structure 2 40 } ∷ pair 120 ∷ [])
contained_stays_example =
    contained_stays linear_search (structure 2 40) 100 (pair 104) (pair 120) []
      linear_search-IsSearch inner_ordered (omega arith) refl (omega arith) pair_pos pair_end
