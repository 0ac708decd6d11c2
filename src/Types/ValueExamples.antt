-- ===== src/Types/ValueExamples.antt =====
-- Tests of the serialization of values, and applications of its theorem at concrete inputs.
use coroutine_durable_fork.Prelude.{
  ℕ, ◌≡◌, refl, true, false, List, [], ◌∷◌, ◌++◌, some, none, arith,
}
use coroutine_durable_fork.Prelude.Int.{negsuc}
use coroutine_durable_fork.Types.Scalar.{
  little_endian, from_little_endian, to_unsigned, to_signed, serialize_bool, deserialize_bool,
  serialize_int16, deserialize_int16, serialize_uint8, deserialize_uint8,
}
use coroutine_durable_fork.Types.Value.{
  int8, int16, uint8, bool, RType, scalar, array, structure, no_fields, field, Memory,
  serialize_any, deserialize_any, serialize_scalar, deserialize_scalar,
}
use coroutine_durable_fork.Types.ReflectValue.{serialize_reflect_value, deserialize_reflect_value}
use coroutine_durable_fork.Types.ReflectValue.Agree.{
  is_covered, is_restored, reflect_value-RoundTrips,
}
use coroutine_durable_fork.Types.Value.RoundTrip.{IsValue, any-RoundTrips}

-- struct { int16; [2]uint8; bool }
abbrev record_type : RType
record_type = structure (
    field true (scalar false int16)
      (field true (array 2 (scalar false uint8)) (field true (scalar false bool) no_fields)))

abbrev record_value : Memory record_type
unfolding Memory
record_value = (negsuc 2, ((7, (9, tt)), (true, tt)))

record_bytes : serialize_any record_type record_value (1 ∷ []) ≡ 1 ∷ 253 ∷ 255 ∷ 7 ∷ 9 ∷ 1 ∷ []
unfolding serialize_any serialize_scalar serialize_int16 serialize_uint8 serialize_bool
    little_endian to_unsigned Memory record_value
record_bytes = refl

record_short : deserialize_any record_type (253 ∷ 255 ∷ 7 ∷ []) ≡ none
unfolding deserialize_any deserialize_scalar deserialize_int16 deserialize_uint8 deserialize_bool
    from_little_endian to_signed Memory
record_short = refl

record_value-IsValue : IsValue record_type record_value
unfolding IsValue record_value Memory
record_value-IsValue = (omega arith, ((omega arith, (omega arith, tt)), (tt, tt)))

any-RoundTrips_example :
    (bytes : List ℕ) × (((b : List ℕ) → serialize_any record_type record_value b ≡ b ++ bytes)
      × ((rest : List ℕ) → deserialize_any record_type (bytes ++ rest) ≡ some (record_value, rest)))
any-RoundTrips_example = any-RoundTrips record_type record_value record_value-IsValue

record_value-is_covered : is_covered record_type ≡ true
unfolding is_covered
record_value-is_covered = refl

reflect_value-RoundTrips_example :
    (bytes : List ℕ) × ((b : List ℕ)
      → serialize_reflect_value record_type record_value b ≡ some (b ++ bytes))
    × ((rest : List ℕ)
        → deserialize_reflect_value record_type (bytes ++ rest) ≡ some (record_value, rest))
unfolding is_restored
reflect_value-RoundTrips_example =
    reflect_value-RoundTrips record_type record_value record_value-IsValue record_value-is_covered
      refl

-- struct { Named } with the type Named of int8: Set panics.
named_field_panics :
    deserialize_reflect_value (structure (field true (scalar true int8) no_fields)) (7 ∷ []) ≡ none
unfolding deserialize_reflect_value
named_field_panics = refl
