-- ===== src/Types/Scan/Behind.antt =====
-- What lies behind a place and in its region, against what scan looks at.
use coroutine_durable_fork.Prelude.{
  ℕ, zero, suc, ◌+◌, ◌<◌, ◌≤◌, ◌≡◌, ◌≢◌, ◌⊎◌, refl, ap, ◌∙◌, inl, inr, Bool-cases, List, [], ◌∷◌,
  some, ◌==◌, ==_iff, if◌then◌else◌, arith,
}
use mathlib.Core.List.{Memᴰ}
use mathlib.Core.List.Memᴰ.{head, tail, not-nil, cases_cons}
use coroutine_durable_fork.Types.Scan.{entries_of}
use coroutine_durable_fork.Types.Scan.Look.{
  Layout, array_of, slice_of, pointer_to, interface, struct, map_of, TypeTable, Heap, place,
  type_at, addr_of, element_place, element_places, field_places, entry_places,
}

module _ (ts : TypeTable) (h : Heap) where
  -- The parts of a value: the elements of an array and those within the length of a slice, the fields
  -- of a struct at their offsets, the value of an interface, the target of a pointer, and the keys and
  -- values of a map.
  abbrev pub IsPart : ℕ → Layout → ℕ → Type 0
  IsPart p (array_of n e) y = (i : ℕ) × (i < n) × (y ≡ element_place ts h e p i)
  IsPart p (slice_of e) y =
      (d : ℕ) × (len : ℕ) × (capacity : ℕ) × (h.slice_at p ≡ some (d, len, capacity))
      × (d ≢ 0)
      × ((i : ℕ) × (i < len) × (y ≡ element_place ts h e d i))
  IsPart p interface y =
      (t : ℕ) × (d : ℕ) × (h.interface_at p ≡ some (t, d))
      × (d ≢ 0)
      × (y ≡ place ts h t (if ts.is_inlined t then h.cell_of p else d))
  IsPart p (struct fs) y = (f : ℕ × ℕ) × Memᴰ f fs × (y ≡ place ts h f.0 (p + f.1))
  IsPart p (pointer_to e) y = (h.pointer_at p ≢ 0) × (y ≡ place ts h e (h.pointer_at p))
  IsPart p (map_of k v) y =
      (e : ℕ × ℕ) × Memᴰ e (h.entries_at p) × ((y ≡ place ts h k e.0) ⊎ (y ≡ place ts h v e.1))
  IsPart p _ y = ⊥

  abbrev pub Behind : ℕ → ℕ → Type 0
  Behind x y = IsPart (addr_of ts h x) (ts.shape (type_at ts h x)) y

  pub any_element :
      (e p i n y : ℕ)
      → Memᴰ y (element_places ts h e p i n)
      → (j : ℕ) × (i ≤ j) × (j < i + n) × (y ≡ element_place ts h e p j)
  any_element e p i zero y m = absurd (not-nil m)
  any_element e p i (suc n) y m = elim (cases_cons m) [
    | inl q ↦ (i, omega arith, omega arith, q)
    | inr k ↦
        let (j, low, high, q) = any_element e p (suc i) n y k in
        (j, omega (arith, low), omega (arith, high), q)
  ]

  pub its_element :
      (e p i n j : ℕ)
      → i ≤ j
      → j < i + n
      → Memᴰ (element_place ts h e p j) (element_places ts h e p i n)
  its_element e p i zero j low high = absurd (omega (arith, low, high))
  its_element e p i (suc n) j low high = elim (Bool-cases (j == i)) [
    | inl q ↦ head (ap (element_place ts h e p) ((==_iff j i).0 q))
    | inr q ↦ tail (its_element e p (suc i) n j (ground arith) (omega (arith, high)))
  ]

  pub any_field :
      (p y : ℕ) (fs : List (ℕ × ℕ))
      → Memᴰ y (field_places ts h p fs)
      → (f : ℕ × ℕ) × Memᴰ f fs × (y ≡ place ts h f.0 (p + f.1))
  any_field p y [] m = absurd (not-nil m)
  any_field p y ((t, o) ∷ fs) m = elim (cases_cons m) [
    | inl q ↦ ((t, o), head refl, q)
    | inr k ↦ let (f, l, q) = any_field p y fs k in (f, tail l, q)
  ]

  pub its_field :
      (p : ℕ) (f : ℕ × ℕ) (fs : List (ℕ × ℕ))
      → Memᴰ f fs
      → Memᴰ (place ts h f.0 (p + f.1)) (field_places ts h p fs)
  its_field p f [] m = absurd (not-nil m)
  its_field p f ((t, o) ∷ fs) m = elim (cases_cons m) [
    | inl q ↦ head (ap (λ g. place ts h g.0 (p + g.1)) q)
    | inr k ↦ tail (its_field p f fs k)
  ]

  pub any_entry :
      (k v y : ℕ) (es : List (ℕ × ℕ))
      → Memᴰ y (entries_of (entry_places ts h k v es))
      → (e : ℕ × ℕ) × Memᴰ e es × ((y ≡ place ts h k e.0) ⊎ (y ≡ place ts h v e.1))
  any_entry k v y [] m = absurd (not-nil m)
  any_entry k v y ((a, b) ∷ es) m = elim (cases_cons m) [
    | inl q ↦ ((a, b), head refl, inl q)
    | inr n ↦ elim (cases_cons n) [
      | inl q ↦ ((a, b), head refl, inr q)
      | inr l ↦ let (e, j, q) = any_entry k v y es l in (e, tail j, q)
    ]
  ]

  pub its_entry :
      (k v y : ℕ) (e : ℕ × ℕ) (es : List (ℕ × ℕ))
      → Memᴰ e es
      → (y ≡ place ts h k e.0) ⊎ (y ≡ place ts h v e.1)
      → Memᴰ y (entries_of (entry_places ts h k v es))
  its_entry k v y e [] m q = absurd (not-nil m)
  its_entry k v y e ((a, b) ∷ es) m q = elim (cases_cons m) [
    | inr n ↦ tail (tail (its_entry k v y e es n q))
    | inl same ↦ elim q [
      | inl x ↦ head (x ∙ ap (λ g. place ts h k g.0) same)
      | inr x ↦ tail (head (x ∙ ap (λ g. place ts h v g.1) same))
    ]
  ]
