-- ===== src/Types/Pointer/Shared.antt =====
-- The two ends of the serialized format keep the same pointers under the same IDs.
use coroutine_durable_fork.Prelude.{
  ℕ, suc, ◌+◌, ◌<◌, ◌≡◌, ◌≢◌, refl, ap, Bool, true, false, inl, inr, ◌⊎◌, Bool-cases, Option-cases,
  List, ◌∷◌, none, some, ◌==◌, ==_iff, if◌then◌else◌, length, arith, not, ◌||◌,
}
use coroutine_durable_fork.Prelude.Int.{pos}
use coroutine_durable_fork.Types.Serde.{Serializer, Deserializer, key_of, assign_pointer_id}
use coroutine_durable_fork.Types.Serde.Identity.{IsNumbered, key-cons, key_bound}
use coroutine_durable_fork.Types.Pointer.{
  static, static_offset, serialize_pointer_id, store, already_seen,
}
use coroutine_durable_fork.Types.Pointer.RoundTrip.{expected}

-- Each pointer with an ID has its copy under this ID, and there is nothing under the IDs to come nor under 0.
abbrev pub IsMirrored : (ℕ → ℕ) → List (ℕ × ℕ) → List (ℕ × ℕ) → Type 0
IsMirrored copy ptrs m =
    ((p i : ℕ) → key_of p ptrs ≡ some i → key_of i m ≡ some (copy p))
    × ((i : ℕ) → length ptrs < i → key_of i m ≡ none)
    × (key_of 0 m ≡ none)

apart : {i j : ℕ} → i ≢ j → (i == j) ≡ false
apart d = ground arith

later : (k i : ℕ) → suc k < i → k + 1 ≢ i
later k i g e = omega (arith, g, e)

pub IsMirrored-add :
    (copy : ℕ → ℕ) (p : ℕ) (ptrs m : List (ℕ × ℕ))
    → IsNumbered ptrs
    → IsMirrored copy ptrs m
    → IsMirrored copy ((p, length ptrs + 1) ∷ ptrs) ((length ptrs + 1, copy p) ∷ m)
IsMirrored-add copy p ptrs m n (h, f, z) = (
  λ q i e. elim (key-cons q i p (length ptrs + 1) ptrs e) [
    | inl (same, here) ↦
        let found : (length ptrs + 1 == i) ≡ true = (==_iff (length ptrs + 1) i).1 here in
        rw (found) (ap (λ r. some (copy r)) same)
    | inr rest ↦
        let other : length ptrs + 1 ≢ i = λ here. omega (arith, here, key_bound q i ptrs n rest) in
        rw (apart other) (h q i rest)
  ],
  λ i g. rw (apart (later (length ptrs) i g)) (f i (omega (arith, g))),
  let other : (length ptrs + 1 == 0) ≡ false = apart (λ e. omega (arith, e)) in rw (other) z,
)

-- The copies of the pointers: nil, the pointer with the same offset into the reader's table, and
-- those that the reader makes.
abbrev pub copied : ℕ → ℕ → (ℕ → ℕ) → ℕ → ℕ
copied table table₁ copy p =
    if p == 0 then 0 else if static table p then table₁ + static_offset table p else copy p

-- What is found for a pointer, after it has been written as new or not.
abbrev pub Agrees : ℕ → ℕ → (ℕ → ℕ) → ℕ → Serializer → Bool × Serializer → List (ℕ × ℕ) → Type 0
Agrees table table₁ copy p s (new, s₁) m =
    ((new ≡ false)
      × (already_seen (expected table table₁ p s m) ≡ true)
      × ((expected table table₁ p s m).0 ≡ copied table table₁ copy p)
      × IsMirrored copy s₁.ptrs m)
    ⊎ ((new ≡ true)
        × (already_seen (expected table table₁ p s m) ≡ false)
        × ((expected table table₁ p s m).1 ≡ pos (assign_pointer_id p s).0.0)
        × ((b : List ℕ)
            → (d : Deserializer) × (store ((assign_pointer_id p s).0.0) (copied table table₁ copy p)
                  (record { ptrs = m; b = b })
                ≡ some d)
              × IsMirrored copy s₁.ptrs d.ptrs))

new_pointer :
    (table table₁ : ℕ) (copy : ℕ → ℕ) (p : ℕ) (s : Serializer) (m : List (ℕ × ℕ))
    → IsNumbered s.ptrs
    → IsMirrored copy s.ptrs m
    → (p == 0) ≡ false
    → static table p ≡ false
    → key_of p s.ptrs ≡ none
    → Agrees table table₁ copy p s (serialize_pointer_id table p s) m
unfolding serialize_pointer_id assign_pointer_id store already_seen
new_pointer table table₁ copy p s m n (h, f, z) nil inside e =
    let fresh : key_of (length s.ptrs + 1) m ≡ none = f (length s.ptrs + 1) (omega arith) in
    rw (nil, inside, e, fresh, serialize_pointer_id, assign_pointer_id, store, already_seen)
      (inr (
        refl,
        apart (λ e. omega (arith, e)),
        refl,
        λ b. (_, refl, IsMirrored-add copy p s.ptrs m n (h, f, z)),
      ))

known_pointer :
    (table table₁ : ℕ) (copy : ℕ → ℕ) (p i : ℕ) (s : Serializer) (m : List (ℕ × ℕ))
    → IsMirrored copy s.ptrs m
    → (copy p == 0) ≡ false
    → (p == 0) ≡ false
    → static table p ≡ false
    → key_of p s.ptrs ≡ some i
    → Agrees table table₁ copy p s (serialize_pointer_id table p s) m
unfolding serialize_pointer_id assign_pointer_id store already_seen
known_pointer table table₁ copy p i s m (h, f, z) some_copy nil inside e =
    rw
      (
        nil,
        inside,
        e,
        h p i e,
        some_copy,
        serialize_pointer_id,
        assign_pointer_id,
        store,
        already_seen,
      )
      (inl (refl, refl, refl, (h, f, z)))

or_true : (b : Bool) → (b || true) ≡ true
or_true false = refl
or_true true = refl

pub any_pointer :
    (table table₁ : ℕ) (copy : ℕ → ℕ) (p : ℕ) (s : Serializer) (m : List (ℕ × ℕ))
    → IsNumbered s.ptrs
    → IsMirrored copy s.ptrs m
    → copy p ≢ 0
    → Agrees table table₁ copy p s (serialize_pointer_id table p s) m
unfolding serialize_pointer_id already_seen
any_pointer table table₁ copy p s m n (h, f, z) some_copy = elim (Bool-cases (p == 0)) [
  | inl nil ↦ rw (nil, z, serialize_pointer_id, already_seen) (inl (refl, refl, refl, (h, f, refl)))
  | inr nil ↦ elim (Bool-cases (static table p)) [
    | inl inside ↦
        rw (nil, inside, serialize_pointer_id, already_seen)
          (inl (refl, or_true (not (table₁ + static_offset table p == 0)), refl, (h, f, z)))
    | inr inside ↦ elim (Option-cases (key_of p s.ptrs)) [
      | inl e ↦ new_pointer table table₁ copy p s m n (h, f, z) nil inside e
      | inr (i, e) ↦
          known_pointer table table₁ copy p i s m (h, f, z) (apart some_copy) nil inside e
    ]
  ]
]
