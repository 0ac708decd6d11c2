-- ===== src/Types/SerdeExamples.antt =====
-- Tests of types/serde.go, and applications of its theorems at concrete inputs.
use coroutine_durable_fork.Prelude.{
  ◌⊎◌, ℕ, ◌+◌, ◌≡◌, ◌≢◌, refl, true, false, [], ◌∷◌, ◌++◌, some, arith, ltb, if◌then◌else◌, Option,
  List, none, leb, ◌&&◌,
}
use coroutine_durable_fork.Prelude.Int.{pos, negsuc}
use coroutine_durable_fork.Types.Varint.{
  append_uvarint, append_varint, serialize_varint, deserialize_varint, varint, uvarint,
}
use coroutine_durable_fork.Types.Pointer.{
  serialize_pointer_id, read_ptr, static, serialize_pointed_at, deserialize_pointed_at, from_region,
}
use coroutine_durable_fork.Types.Pointer.Shared.{IsMirrored, IsMirrored-add}
use coroutine_durable_fork.Types.Pointer.Fetch.{bytes_of, IsFetched, pointer-IsFetched}
use coroutine_durable_fork.Types.Serde.{
  Serializer, new_serializer, new_deserializer, ok, err, invalid_build_id, build_id_mismatch,
  assign_pointer_id,
}
use coroutine_durable_fork.Types.Serde.Laws.{same_build, other_build}
use coroutine_durable_fork.Types.Serde.Identity.{
  IsNumbered, assign_pointer_id-IsNumbered, assign_distinct,
}

minus_300 : serialize_varint (negsuc 299) (1 ∷ []) ≡ 1 ∷ 215 ∷ 4 ∷ []
unfolding serialize_varint append_varint append_uvarint
minus_300 = refl

same_build_example :
    new_deserializer (65 ∷ 66 ∷ []) ((new_serializer (65 ∷ 66 ∷ [])).b ++ 7 ∷ [])
    ≡ ok (record { ptrs = []; b = 7 ∷ [] })
same_build_example = same_build (65 ∷ 66 ∷ []) (7 ∷ []) (omega arith) (omega arith)

other_build_example :
    new_deserializer (65 ∷ 66 ∷ []) ((new_serializer (65 ∷ 67 ∷ [])).b ++ 7 ∷ [])
    ≡ err (if ltb 2 2 then invalid_build_id else build_id_mismatch)
other_build_example =
    other_build (65 ∷ 66 ∷ []) (65 ∷ 67 ∷ []) (7 ∷ []) (omega arith) (omega arith) refl

abbrev two_pointers : Serializer
two_pointers = record { ptrs = (400, 2) ∷ (300, 1) ∷ []; b = [] }

third_pointer : (assign_pointer_id 500 two_pointers).0 ≡ (3, true)
unfolding assign_pointer_id
third_pointer = refl

first_pointer : (assign_pointer_id 300 two_pointers).0 ≡ (1, false)
unfolding assign_pointer_id
first_pointer = refl

third-IsNumbered : IsNumbered (assign_pointer_id 500 two_pointers).1.ptrs
third-IsNumbered = assign_pointer_id-IsNumbered 500 two_pointers (refl, (refl, tt))

assign_distinct_example :
    ((◌≡◌ {A = ℕ} 600 300)
      ⊎ ((assign_pointer_id 600 (assign_pointer_id 300 two_pointers).1).0.0
          ≢ (assign_pointer_id 300 two_pointers).0.0))
    × (assign_pointer_id 300 (assign_pointer_id 600 (assign_pointer_id 300 two_pointers).1).1 ≡ (
      ((assign_pointer_id 300 two_pointers).0.0, false),
      (assign_pointer_id 600 (assign_pointer_id 300 two_pointers).1).1,
    ))
assign_distinct_example = assign_distinct 300 600 two_pointers (refl, (refl, tt))

abbrev moved : ℕ → ℕ
moved p = p + 7

nothing-IsMirrored : IsMirrored moved [] []
nothing-IsMirrored = (λ p i e. cc, λ i g. refl, refl)

two_pointers-IsMirrored : IsMirrored moved two_pointers.ptrs ((2, 407) ∷ (1, 307) ∷ [])
two_pointers-IsMirrored =
    IsMirrored-add moved 400 ((300, 1) ∷ []) ((1, 307) ∷ []) (refl, tt)
      (IsMirrored-add moved 300 [] [] tt nothing-IsMirrored)

-- The pointer 620 points into a region at 600.
abbrev regions : ℕ → Option ℕ
regions p = if leb 600 p && ltb p 640 then some 600 else none

pointer-IsFetched_example :
    (bytes : List ℕ) × (bytes_of (serialize_pointed_at 1000 regions 500 two_pointers) ≡ [] ++ bytes)
    × ((rest : List ℕ)
        → IsFetched moved 500 507 none
            ((2, 407) ∷ (1, 307) ∷ [])
            rest
            (serialize_pointed_at 1000 regions 500 two_pointers)
            (deserialize_pointed_at 5000 507
              (record { ptrs = (2, 407) ∷ (1, 307) ∷ []; b = bytes ++ rest })))
unfolding assign_pointer_id static
pointer-IsFetched_example =
    pointer-IsFetched 1000 5000 regions moved 500 two_pointers ((2, 407) ∷ (1, 307) ∷ [])
      (refl, (refl, tt)) two_pointers-IsMirrored (λ e. cc) (omega arith) (λ r h. cc)

-- The ID of a pointer into a region stays without a pointer.
region_not_stored :
    deserialize_pointed_at 5000 627 (record { ptrs = []; b = 2 ∷ 40 ∷ [] })
    ≡ from_region 20 (record { ptrs = []; b = [] })
unfolding deserialize_pointed_at deserialize_varint varint uvarint
region_not_stored = refl

static_bytes : (serialize_pointer_id 1000 1016 two_pointers).1.b ≡ 1 ∷ 32 ∷ []
unfolding serialize_pointer_id serialize_varint append_varint append_uvarint
static_bytes = refl

static_read :
    read_ptr 5000 (record { ptrs = []; b = 1 ∷ 32 ∷ 9 ∷ [] })
    ≡ some ((5016, pos 0), record { ptrs = []; b = 9 ∷ [] })
unfolding read_ptr deserialize_varint varint uvarint
static_read = refl
