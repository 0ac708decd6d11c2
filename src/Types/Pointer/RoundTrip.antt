-- ===== src/Types/Pointer/RoundTrip.antt =====
-- readPtr reads what serializePointedAt writes of a pointer.
use coroutine_durable_fork.Prelude.{
  ℕ, zero, ◌+◌, ◌≡◌, refl, ap, ◌∙◌, true, inl, inr, Bool-cases, Option-cases, List, ◌++◌,
  append_assoc, some, ◌==◌, if◌then◌else◌, arith,
}
use coroutine_durable_fork.Prelude.Int.{ℤ, pos, negsuc}
use coroutine_durable_fork.Types.Varint.{serialize_varint, deserialize_varint}
use coroutine_durable_fork.Types.Varint.RoundTrip.{IsInt, varint-RoundTrips}
use coroutine_durable_fork.Types.Serde.{Serializer, Deserializer, key_of, assign_pointer_id}
use coroutine_durable_fork.Types.Pointer.{
  written, stored, static, static_offset, static_pointer, serialize_pointer_id, static_pointed,
  pointed, read_ptr,
}

-- What is read for a pointer: nil or what the ID 0 has, a pointer into the table of the reader, or
-- what the pointer's ID has.
abbrev pub expected : ℕ → ℕ → ℕ → Serializer → List (ℕ × ℕ) → ℕ × ℤ
expected table table₁ p s m =
    if p == 0
    then (stored (pos 0) m, pos 0)
    else if static table p
    then (table₁ + static_offset table p, pos 0)
    else (stored (pos ((assign_pointer_id p s).0.0)) m, pos ((assign_pointer_id p s).0.0))

-- Bytes behind b, all of b₁, that are read as this.
abbrev pub Reads : ℕ → List ℕ → List ℕ → (List (ℕ × ℕ) → ℕ × ℤ) → Type 0
Reads table₁ b b₁ e =
    (bytes : List ℕ) × (b₁ ≡ b ++ bytes)
    × ((rest : List ℕ) (m : List (ℕ × ℕ))
        → read_ptr table₁ (record { ptrs = m; b = bytes ++ rest })
          ≡ some (e m, record { ptrs = m; b = rest }))

one_number :
    (table₁ i : ℕ) (s : Serializer)
    → IsInt (pos i)
    → Reads table₁ s.b ((written (pos i) s).b) (λ m. (stored (pos i) m, pos i))
unfolding read_ptr
one_number table₁ i s h =
    let (bytes, (w, r)) = varint-RoundTrips (pos i) h in
    (
      bytes,
      w s.b,
      λ rest m. ap (λ o. pointed table₁ o (record { ptrs = m; b = bytes ++ rest })) (r rest),
    )

two_numbers :
    (table₁ o : ℕ) (s : Serializer)
    → IsInt (pos o)
    → Reads table₁ s.b ((written (pos o) (written (negsuc zero) s)).b) (λ m. (table₁ + o, pos 0))
unfolding read_ptr static_pointer
two_numbers table₁ o s h =
    let (first, (w, r)) = varint-RoundTrips (negsuc zero) (omega arith) in
    let (second, (v, q)) = varint-RoundTrips (pos o) h in
    (
      first ++ second,
      v (serialize_varint (negsuc zero) s.b)
          ∙ ap (λ b. b ++ second) (w s.b)
          ∙ append_assoc s.b first second,
      λ rest m.
          let whole : Deserializer = record { ptrs = m; b = (first ++ second) ++ rest } in
          ap (λ b. pointed table₁ (deserialize_varint b) whole) (append_assoc first second rest)
          ∙ ap (λ o. pointed table₁ o whole) (r (second ++ rest))
          ∙ ap (λ o. static_pointed table₁ o whole) (q rest),
    )

offset-IsInt : (table p : ℕ) → static table p ≡ true → IsInt (pos (static_offset table p))
unfolding static static_offset
offset-IsInt table p h = ground arith

assign-bytes : (p : ℕ) (s : Serializer) → (assign_pointer_id p s).1.b ≡ s.b
unfolding assign_pointer_id
assign-bytes p s = elim (Option-cases (key_of p s.ptrs)) [
  | inl e ↦ rw (e, assign_pointer_id) refl
  | inr (i, e) ↦ rw (e, assign_pointer_id) refl
]

pub pointer-Reads :
    (table table₁ p : ℕ) (s : Serializer)
    → IsInt (pos ((assign_pointer_id p s).0.0))
    → Reads table₁ s.b ((serialize_pointer_id table p s).1.b) (expected table table₁ p s)
unfolding serialize_pointer_id
pointer-Reads table table₁ p s hi = elim (Bool-cases (p == 0)) [
  | inl nil ↦ rw (nil, serialize_pointer_id) (one_number table₁ 0 s (omega arith))
  | inr nil ↦ elim (Bool-cases (static table p)) [
    | inl inside ↦
        rw (nil, inside, serialize_pointer_id)
          (two_numbers table₁ (static_offset table p) s (offset-IsInt table p inside))
    | inr inside ↦
        rw (nil, inside, serialize_pointer_id)
          (let (bytes, w, r) =
              one_number table₁ ((assign_pointer_id p s).0.0) ((assign_pointer_id p s).1) hi in
            (bytes, w ∙ ap (λ b. b ++ bytes) (assign-bytes p s), r))
  ]
]
