-- ===== src/Types/Serde/Identity.antt =====
-- A pointer keeps one ID, which no other pointer has.
use coroutine_durable_fork.Prelude.{
  true, ==_iff, ℕ, ◌+◌, ◌≤◌, ◌≡◌, ◌≢◌, refl, sym, ap, ◌∙◌, Bool-cases, Option-cases, inl, inr, ◌⊎◌,
  false, List, [], ◌∷◌, none, some, ◌==◌, length, arith,
}
use coroutine_durable_fork.Types.Serde.{Serializer, key_of, assign_pointer_id}

-- The IDs are those from 1 on, the newest one first.
abbrev pub IsNumbered : List (ℕ × ℕ) → Type 0
IsNumbered [] = Unit {0}
IsNumbered ((p, id) ∷ m) = (id ≡ length m + 1) × IsNumbered m

pub key-cons :
    (p i q j : ℕ) (m : List (ℕ × ℕ))
    → key_of p ((q, j) ∷ m) ≡ some i
    → ((q ≡ p) × (j ≡ i)) ⊎ (key_of p m ≡ some i)
key-cons p i q j m e = ground arith

pub key_bound : (p i : ℕ) (m : List (ℕ × ℕ)) → IsNumbered m → key_of p m ≡ some i → i ≤ length m
key_bound p i [] n e = cc
key_bound p i ((q, j) ∷ m) (f, n) e = elim (key-cons p i q j m e) [
  | inl (same, here) ↦ omega (arith, f, here)
  | inr rest ↦ omega (arith, key_bound p i m n rest)
]

key_unique :
    (p q i : ℕ) (m : List (ℕ × ℕ))
    → IsNumbered m
    → key_of p m ≡ some i
    → key_of q m ≡ some i
    → p ≡ q
key_unique p q i [] n e f = cc
key_unique p q i ((r, j) ∷ m) (g, n) e f = elim (key-cons p i r j m e) [
  | inl (same, here) ↦ elim (key-cons q i r j m f) [
    | inl (same', here') ↦ sym same ∙ same'
    | inr rest ↦ omega (arith, g, here, key_bound q i m n rest)
  ]
  | inr rest ↦ elim (key-cons q i r j m f) [
    | inl (same', here') ↦ omega (arith, g, here', key_bound p i m n rest)
    | inr rest' ↦ key_unique p q i m n rest rest'
  ]
]

-- The IDs stay those from 1 on.
pub assign_pointer_id-IsNumbered :
    (p : ℕ) (s : Serializer) → IsNumbered s.ptrs → IsNumbered (assign_pointer_id p s).1.ptrs
unfolding assign_pointer_id
assign_pointer_id-IsNumbered p s n = elim (Option-cases (key_of p s.ptrs)) [
  | inl e ↦ rw (e, assign_pointer_id) (refl, n)
  | inr (i, e) ↦ rw (e, assign_pointer_id) n
]

assigned_key :
    (p : ℕ) (s : Serializer)
    → key_of p (assign_pointer_id p s).1.ptrs ≡ some (assign_pointer_id p s).0.0
unfolding assign_pointer_id
assigned_key p s = elim (Option-cases (key_of p s.ptrs)) [
  | inl e ↦ rw (e, assign_pointer_id) (ground arith)
  | inr (i, e) ↦ rw (e, assign_pointer_id) e
]

behind_new :
    (p q i j : ℕ) (m : List (ℕ × ℕ))
    → key_of q m ≡ none
    → key_of p m ≡ some i
    → key_of p ((q, j) ∷ m) ≡ some i
behind_new p q i j m e k = elim (Bool-cases (q == p)) [
  | inl same ↦ let eq : q ≡ p = ground arith in cc
  | inr other ↦ rw (other) k
]

kept_key :
    (p q i : ℕ) (s : Serializer)
    → key_of p s.ptrs ≡ some i
    → key_of p (assign_pointer_id q s).1.ptrs ≡ some i
unfolding assign_pointer_id
kept_key p q i s k = elim (Option-cases (key_of q s.ptrs)) [
  | inl e ↦ rw (e, assign_pointer_id) (behind_new p q i _ s.ptrs e k)
  | inr (j, e) ↦ rw (e, assign_pointer_id) k
]

same_id :
    (p q : ℕ) (s : Serializer)
    → IsNumbered s.ptrs
    → (assign_pointer_id q (assign_pointer_id p s).1).0.0 ≡ (assign_pointer_id p s).0.0
    → q ≡ p
same_id p q s n e =
    let s₁ = (assign_pointer_id p s).1 in
    let s₂ = (assign_pointer_id q s₁).1 in
    let n₂ = assign_pointer_id-IsNumbered q s₁ (assign_pointer_id-IsNumbered p s n) in
    key_unique q p (assign_pointer_id p s).0.0 s₂.ptrs n₂ (assigned_key q s₁ ∙ ap some e)
      (kept_key p q (assign_pointer_id p s).0.0 s₁ (assigned_key p s))

assigned :
    (p : ℕ) (s : Serializer) (i : ℕ)
    → key_of p s.ptrs ≡ some i
    → assign_pointer_id p s ≡ ((i, false), s)
unfolding assign_pointer_id
assigned p s i e = rw (e, assign_pointer_id) refl

-- Where the IDs are those from 1 on: when a pointer has got its ID and then another one was asked
-- for, that one has another ID unless it is the same pointer, and the first pointer gets its ID again, as one that is
-- not new, and nothing is changed.
pub assign_distinct :
    (p q : ℕ) (s : Serializer)
    → IsNumbered s.ptrs
    → ((q ≡ p)
        ⊎ ((assign_pointer_id q (assign_pointer_id p s).1).0.0 ≢ (assign_pointer_id p s).0.0))
      × (assign_pointer_id p (assign_pointer_id q (assign_pointer_id p s).1).1 ≡ (
        ((assign_pointer_id p s).0.0, false),
        (assign_pointer_id q (assign_pointer_id p s).1).1,
      ))
assign_distinct p q s n = (
  elim (Bool-cases (q == p)) [
    | inl e ↦ inl ((==_iff q p).0 e)
    | inr d ↦ inr (λ e. let t : (q == p) ≡ true = (==_iff q p).1 (same_id p q s n e) in cc)
  ],
  assigned p (assign_pointer_id q (assign_pointer_id p s).1).1 (assign_pointer_id p s).0.0
      (kept_key p q (assign_pointer_id p s).0.0 (assign_pointer_id p s).1 (assigned_key p s)),
)
