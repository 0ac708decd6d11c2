-- ===== src/Types/Pointer/Fetch.antt =====
-- deserializePointedAt reads what serializePointedAt writes, up to the data of a pointer or the type of
-- its region.
use coroutine_durable_fork.Prelude.{
  some-inj, ◌∷◌, ℕ, zero, ◌-◌, ◌≡◌, ◌≢◌, refl, ap, ◌∙◌, Bool, true, false, inl, inr, Bool-cases,
  List, ◌++◌, append_assoc, Option, none, some, ◌==◌, if◌then◌else◌, arith,
}
use coroutine_durable_fork.Prelude.Int.{ℤ, pos, negsuc}
use coroutine_durable_fork.Types.Varint.{deserialize_varint}
use coroutine_durable_fork.Types.Varint.RoundTrip.{IsInt, varint-RoundTrips}
use coroutine_durable_fork.Types.Serde.{Serializer, Deserializer, key_of, assign_pointer_id}
use coroutine_durable_fork.Types.Serde.Identity.{IsNumbered}
use coroutine_durable_fork.Types.Pointer.{
  or_nil, already_seen, serialize_pointer_id, read_ptr, store, Written, finished, own_data, inside,
  behind_id, serialize_pointed_at, Fetched, pointer, to_fill, from_region, filled, by_offset,
  by_pointer, deserialize_pointed_at,
}
use coroutine_durable_fork.Types.Pointer.RoundTrip.{expected, Reads, pointer-Reads}
use coroutine_durable_fork.Types.Pointer.Shared.{IsMirrored, copied, Agrees, any_pointer}

abbrev pub bytes_of : Written → List ℕ
bytes_of (finished s) = s.b
bytes_of (own_data s) = s.b
bytes_of (inside s) = s.b

-- What is read of what was written for the pointer `p`, where `q` is its copy.
abbrev pub IsFetched :
    (ℕ → ℕ) → ℕ → ℕ → Option ℕ → List (ℕ × ℕ) → List ℕ → Written → Fetched → Type 0
IsFetched copy p q region m rest (finished s) f =
    (f ≡ pointer q (record { ptrs = m; b = rest })) × IsMirrored copy s.ptrs m
IsFetched copy p q region m rest (own_data s) f =
    (region ≡ none)
    × ((d : Deserializer) × (f ≡ to_fill q d) × (d.b ≡ rest) × IsMirrored copy s.ptrs d.ptrs)
IsFetched copy p q region m rest (inside s) f =
    (r : ℕ) × (region ≡ some r) × (f ≡ from_region (p - r) (record { ptrs = m; b = rest }))

store-bytes : (i p : ℕ) (d e : Deserializer) → store i p d ≡ some e → e.b ≡ d.b
unfolding store
store-bytes i p d e h = elim (Bool-cases (or_nil (key_of i d.ptrs) == 0)) [
  | inl z ↦
      let step : store i p d ≡ some (record d { ptrs = (i, p) ∷ d.ptrs }) = rw (z, store) refl in
      ap (λ r. r.b) (some-inj h step)
  | inr z ↦ let step : store i p d ≡ none = rw (z, store) refl in cc
]

abbrev Fetches : ℕ → (ℕ → ℕ) → ℕ → ℕ → Option ℕ → List (ℕ × ℕ) → List ℕ → Written → Type 0
Fetches table₁ copy p q region m b w =
    (bytes : List ℕ) × (bytes_of w ≡ b ++ bytes)
    × ((rest : List ℕ)
        → IsFetched copy p q region m rest w
            (deserialize_pointed_at table₁ q (record { ptrs = m; b = bytes ++ rest })))

module _ (table table₁ : ℕ) (copy : ℕ → ℕ) (p : ℕ) (s : Serializer) (m : List (ℕ × ℕ)) where
  -- The pointer and a number behind it.
  with_offset :
      (x : ℤ) (first second rest : List ℕ)
      → ((rest : List ℕ)
          → read_ptr table₁ (record { ptrs = m; b = first ++ rest })
            ≡ some (expected table table₁ p s m, record { ptrs = m; b = rest }))
      → deserialize_varint (second ++ rest) ≡ some (x, rest)
      → already_seen (expected table table₁ p s m) ≡ false
      → (expected table table₁ p s m).1 ≡ pos (assign_pointer_id p s).0.0
      → (q : ℕ)
      → deserialize_pointed_at table₁ q (record { ptrs = m; b = (first ++ second) ++ rest })
        ≡ by_offset q
            (pos (assign_pointer_id p s).0.0)
            (record { ptrs = m; b = second ++ rest })
            (some (x, rest))
  unfolding deserialize_pointed_at
  with_offset x first second rest r k unseen id q =
      let e = expected table table₁ p s m in
      let d : Deserializer = record { ptrs = m; b = second ++ rest } in
      ap (λ b. by_pointer q (read_ptr table₁ (record { ptrs = m; b = b })))
        (append_assoc first second rest)
      ∙ ap (by_pointer q) (r (second ++ rest))
      ∙ ap
          (λ t.
            if t then pointer e.0 d else by_offset q e.1 d (deserialize_varint (second ++ rest)))
          unseen
      ∙ ap (λ o. by_offset q e.1 d o) k
      ∙ ap (λ i. by_offset q i d (some (x, rest))) id

  fetches :
      (region : Option ℕ) (o : Bool × Serializer)
      → ((r : ℕ) → region ≡ some r → IsInt (pos (p - r)))
      → Reads table₁ s.b o.1.b (expected table table₁ p s)
      → Agrees table table₁ copy p s o m
      → Fetches table₁ copy p (copied table table₁ copy p) region m s.b (behind_id p region o)
  unfolding deserialize_pointed_at
  fetches region (false, s₁) h (bytes, w, r) (inl (n, seen, val, mirrored)) =
      let e = expected table table₁ p s m in
      let q = copied table table₁ copy p in
      (
        bytes,
        w,
        λ rest.
            let d : Deserializer = record { ptrs = m; b = rest } in
            (
              ap (by_pointer q) (r rest m)
                  ∙ ap
                      (λ t.
                        if t then pointer e.0 d else by_offset q e.1 d (deserialize_varint rest))
                      seen
                  ∙ ap (λ a. pointer a d) val,
              mirrored,
            ),
      )
  fetches region (false, s₁) h g (inr (n, a, c, k)) = cc
  fetches region (true, s₁) h g (inl (n, a, c, k)) = cc
  fetches none (true, s₁) h (first, w, r) (inr (n, unseen, id, kept)) =
      let q = copied table table₁ copy p in
      let (second, (v, k)) = varint-RoundTrips (negsuc zero) (omega arith) in
      (
        first ++ second,
        v s₁.b ∙ ap (λ b. b ++ second) w ∙ append_assoc s.b first second,
        λ rest.
            let (d, stored, mirrored) = kept rest in
            (
              refl,
              (
                d,
                with_offset (negsuc zero) first second rest (λ t. r t m) (k rest) unseen id q
                    ∙ ap (filled q) stored,
                store-bytes (assign_pointer_id p s).0.0 q (record { ptrs = m; b = rest }) d stored,
                mirrored,
              ),
            ),
      )
  fetches (some a) (true, s₁) h (first, w, r) (inr (n, unseen, id, kept)) =
      let q = copied table table₁ copy p in
      let (second, (v, k)) = varint-RoundTrips (pos (p - a)) (h a refl) in
      (
        first ++ second,
        v s₁.b ∙ ap (λ b. b ++ second) w ∙ append_assoc s.b first second,
        λ rest. (
          a,
          refl,
          with_offset (pos (p - a)) first second rest (λ t. r t m) (k rest) unseen id q,
        ),
      )

-- Where the deserializer has the copies of the serialized pointers under their IDs, the pointer's copy
-- is not nil, and its ID and its offset in a region are ints: deserializePointedAt reads what
-- serializePointedAt appends for a pointer up to its data or the type of its region, whatever follows.
-- A pointer that is nil, in the table of small integers, or has an ID comes back as its copy, without
-- data. A new one outside of all regions has memory, the new copy, under its ID, to be filled with the
-- data. In both cases the deserializer has the copies of all pointers again. For a new pointer into a
-- region the offset is read, and nothing has been stored under the pointer's ID.
pub pointer-IsFetched :
    (table table₁ : ℕ) (region_of : ℕ → Option ℕ) (copy : ℕ → ℕ) (p : ℕ) (s : Serializer)
    (m : List (ℕ × ℕ))
    → IsNumbered s.ptrs
    → IsMirrored copy s.ptrs m
    → copy p ≢ 0
    → IsInt (pos ((assign_pointer_id p s).0.0))
    → ((r : ℕ) → region_of p ≡ some r → IsInt (pos (p - r)))
    → (bytes : List ℕ) × (bytes_of (serialize_pointed_at table region_of p s) ≡ s.b ++ bytes)
      × ((rest : List ℕ)
          → IsFetched copy p
              (copied table table₁ copy p)
              (region_of p)
              m
              rest
              (serialize_pointed_at table region_of p s)
              (deserialize_pointed_at table₁
                (copied table table₁ copy p)
                (record { ptrs = m; b = bytes ++ rest })))
unfolding serialize_pointed_at
pointer-IsFetched table table₁ region_of copy p s m n h some_copy id offset =
    fetches table table₁ copy p s m (region_of p) (serialize_pointer_id table p s) offset
      (pointer-Reads table table₁ p s id) (any_pointer table table₁ copy p s m n h some_copy)
