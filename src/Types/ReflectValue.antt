-- ===== src/Types/ReflectValue.antt =====
-- serializeReflectValue and deserializeReflectValue of types/reflect.go, for the values of
-- Types/Value. A panic is none.
pub mod Agree
use coroutine_durable_fork.Prelude.{
  ℕ, zero, suc, Bool, true, false, ◌&&◌, not, if◌then◌else◌, List, Option, none, some,
}
use coroutine_durable_fork.Types.Scalar.{
  Read, read_then, serialize_bool, deserialize_bool, serialize_int, deserialize_int,
  serialize_int64, deserialize_int64, serialize_int32, deserialize_int32, serialize_int16,
  deserialize_int16, serialize_int8, deserialize_int8, serialize_uint, deserialize_uint,
  serialize_uint64, deserialize_uint64, serialize_uint32, deserialize_uint32, serialize_uint16,
  deserialize_uint16, serialize_uint8, deserialize_uint8, serialize_float64, deserialize_float64,
  serialize_float32, deserialize_float32, serialize_complex64, deserialize_complex64,
  serialize_complex128, deserialize_complex128,
}
use coroutine_durable_fork.Types.Value.{
  Kind, bool, int, int64, int32, int16, int8, uint, uint64, uint32, uint16, uint8, uintptr, float64,
  float32, complex64, complex128, RType, scalar, array, structure, Fields, no_fields, field, Scalar,
  Row, Memory, FieldsMemory, deserialize_array, deserialize_any,
}

-- There is no case for uintptr.
unfoldable pub serialize_reflect_scalar : (k : Kind) → Scalar k → List ℕ → Option (List ℕ)
serialize_reflect_scalar bool v b = some (serialize_bool v b)
serialize_reflect_scalar int v b = some (serialize_int v b)
serialize_reflect_scalar int64 v b = some (serialize_int64 v b)
serialize_reflect_scalar int32 v b = some (serialize_int32 v b)
serialize_reflect_scalar int16 v b = some (serialize_int16 v b)
serialize_reflect_scalar int8 v b = some (serialize_int8 v b)
serialize_reflect_scalar uint v b = some (serialize_uint v b)
serialize_reflect_scalar uint64 v b = some (serialize_uint64 v b)
serialize_reflect_scalar uint32 v b = some (serialize_uint32 v b)
serialize_reflect_scalar uint16 v b = some (serialize_uint16 v b)
serialize_reflect_scalar uint8 v b = some (serialize_uint8 v b)
serialize_reflect_scalar uintptr v b = none
serialize_reflect_scalar float64 v b = some (serialize_float64 v b)
serialize_reflect_scalar float32 v b = some (serialize_float32 v b)
serialize_reflect_scalar complex64 v b = some (serialize_complex64 v b)
serialize_reflect_scalar complex128 v b = some (serialize_complex128 v b)

unfoldable pub deserialize_reflect_scalar : (k : Kind) → Read (Scalar k)
deserialize_reflect_scalar bool b = deserialize_bool b
deserialize_reflect_scalar int b = deserialize_int b
deserialize_reflect_scalar int64 b = deserialize_int64 b
deserialize_reflect_scalar int32 b = deserialize_int32 b
deserialize_reflect_scalar int16 b = deserialize_int16 b
deserialize_reflect_scalar int8 b = deserialize_int8 b
deserialize_reflect_scalar uint b = deserialize_uint b
deserialize_reflect_scalar uint64 b = deserialize_uint64 b
deserialize_reflect_scalar uint32 b = deserialize_uint32 b
deserialize_reflect_scalar uint16 b = deserialize_uint16 b
deserialize_reflect_scalar uint8 b = deserialize_uint8 b
deserialize_reflect_scalar uintptr b = none
deserialize_reflect_scalar float64 b = deserialize_float64 b
deserialize_reflect_scalar float32 b = deserialize_float32 b
deserialize_reflect_scalar complex64 b = deserialize_complex64 b
deserialize_reflect_scalar complex128 b = deserialize_complex128 b

abbrev pub serialized_then : Option (List ℕ) → (List ℕ → Option (List ℕ)) → Option (List ℕ)
serialized_then none f = none
serialized_then (some b) f = f b

abbrev pub serialize_elements :
    {A : Type 0} → (A → List ℕ → Option (List ℕ)) → (n : ℕ) → Row n A → List ℕ → Option (List ℕ)
serialize_elements ser zero v b = some b
serialize_elements ser (suc n) (x, v) b =
    serialized_then (ser x b) (λ b. serialize_elements ser n v b)

unfoldable mutual
  unfolding Memory serialize_reflect_scalar

  pub serialize_reflect_value : (t : RType) → Memory t → List ℕ → Option (List ℕ)
  serialize_reflect_value (scalar has_name k) v b = serialize_reflect_scalar k v b
  serialize_reflect_value (array n t) v b = serialize_elements (serialize_reflect_value t) n v b
  serialize_reflect_value (structure fs) v b = serialize_reflect_fields fs v b

  pub serialize_reflect_fields : (fs : Fields) → FieldsMemory fs → List ℕ → Option (List ℕ)
  serialize_reflect_fields no_fields v b = some b
  serialize_reflect_fields (field false t fs) (x, v) b = none
  serialize_reflect_fields (field true t fs) (x, v) b =
      serialized_then (serialize_reflect_value t x b) (λ b. serialize_reflect_fields fs v b)

-- A number or boolean is read as a value of its predeclared type.
abbrev pub is_assignable : RType → Bool
is_assignable (scalar has_name k) = not has_name
is_assignable _ = true

-- Set of a field to the value that has been read: it panics for a field that is not exported, and
-- for a value that is not of the field's type.
abbrev pub set_field : {A : Type 0} → Bool → RType → Option A → Option A
set_field exported t r = if exported && is_assignable t then r else none

-- The elements of an array are read by deserializeAny.
unfoldable mutual
  unfolding Memory deserialize_reflect_scalar deserialize_any

  pub deserialize_reflect_value : (t : RType) → Read (Memory t)
  deserialize_reflect_value (scalar has_name k) b = deserialize_reflect_scalar k b
  deserialize_reflect_value (array n t) b = deserialize_array (deserialize_any t) n b
  deserialize_reflect_value (structure fs) b = deserialize_reflect_fields fs b

  pub deserialize_reflect_fields : (fs : Fields) → Read (FieldsMemory fs)
  deserialize_reflect_fields no_fields b = some (tt, b)
  deserialize_reflect_fields (field exported t fs) b =
      read_then (set_field exported t (deserialize_reflect_value t b))
        (λ x b. read_then (deserialize_reflect_fields fs b) (λ v b. some ((x, v), b)))
