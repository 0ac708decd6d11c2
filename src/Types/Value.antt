-- ===== src/Types/Value.antt =====
-- serializeAny and deserializeAny of types/reflect.go for values without pointers: a type of a
-- number, an array or a struct. The other kinds of types are not in `RType`.
pub mod RoundTrip
use coroutine_durable_fork.Prelude.{ℕ, zero, suc, Bool, List, Option, none, some}
use coroutine_durable_fork.Prelude.Int.{ℤ}
use coroutine_durable_fork.Types.Scalar.{
  Read, read_then, serialize_bool, deserialize_bool, serialize_int, deserialize_int,
  serialize_int64, deserialize_int64, serialize_int32, deserialize_int32, serialize_int16,
  deserialize_int16, serialize_int8, deserialize_int8, serialize_uint, deserialize_uint,
  serialize_uint64, deserialize_uint64, serialize_uint32, deserialize_uint32, serialize_uint16,
  deserialize_uint16, serialize_uint8, deserialize_uint8, serialize_uintptr, deserialize_uintptr,
  serialize_float64, deserialize_float64, serialize_float32, deserialize_float32,
  serialize_complex64, deserialize_complex64, serialize_complex128, deserialize_complex128,
}

pub data Kind : Type 0 where
  bool int int64 int32 int16 int8 uint uint64 uint32 uint16 uint8 uintptr : Kind
  float64 float32 complex64 complex128 : Kind

-- A type of numbers or booleans says whether it has a name, a field whether it is exported.
mutual
  pub data RType : Type 0 where
    scalar : Bool → Kind → RType
    array : ℕ → RType → RType
    structure : Fields → RType

  pub data Fields : Type 0 where
    no_fields : Fields
    field : Bool → RType → Fields → Fields

-- A value of a type of numbers; a float is its bits, a complex number has two.
abbrev pub Scalar : Kind → Type 0
Scalar bool = Bool
Scalar int = ℤ
Scalar int64 = ℤ
Scalar int32 = ℤ
Scalar int16 = ℤ
Scalar int8 = ℤ
Scalar complex64 = ℕ × ℕ
Scalar complex128 = ℕ × ℕ
Scalar _ = ℕ

abbrev pub Row : ℕ → Type 0 → Type 0
Row zero A = Unit {0}
Row (suc n) A = A × Row n A

-- The memory of a value.
unfoldable mutual
  pub Memory : RType → Type 0
  Memory (scalar has_name k) = Scalar k
  Memory (array n t) = Row n (Memory t)
  Memory (structure fs) = FieldsMemory fs

  pub FieldsMemory : Fields → Type 0
  FieldsMemory no_fields = Unit {0}
  FieldsMemory (field exported t fs) = Memory t × FieldsMemory fs

unfoldable pub serialize_scalar : (k : Kind) → Scalar k → List ℕ → List ℕ
serialize_scalar bool v b = serialize_bool v b
serialize_scalar int v b = serialize_int v b
serialize_scalar int64 v b = serialize_int64 v b
serialize_scalar int32 v b = serialize_int32 v b
serialize_scalar int16 v b = serialize_int16 v b
serialize_scalar int8 v b = serialize_int8 v b
serialize_scalar uint v b = serialize_uint v b
serialize_scalar uint64 v b = serialize_uint64 v b
serialize_scalar uint32 v b = serialize_uint32 v b
serialize_scalar uint16 v b = serialize_uint16 v b
serialize_scalar uint8 v b = serialize_uint8 v b
serialize_scalar uintptr v b = serialize_uintptr v b
serialize_scalar float64 v b = serialize_float64 v b
serialize_scalar float32 v b = serialize_float32 v b
serialize_scalar complex64 v b = serialize_complex64 v b
serialize_scalar complex128 v b = serialize_complex128 v b

unfoldable pub deserialize_scalar : (k : Kind) → Read (Scalar k)
deserialize_scalar bool b = deserialize_bool b
deserialize_scalar int b = deserialize_int b
deserialize_scalar int64 b = deserialize_int64 b
deserialize_scalar int32 b = deserialize_int32 b
deserialize_scalar int16 b = deserialize_int16 b
deserialize_scalar int8 b = deserialize_int8 b
deserialize_scalar uint b = deserialize_uint b
deserialize_scalar uint64 b = deserialize_uint64 b
deserialize_scalar uint32 b = deserialize_uint32 b
deserialize_scalar uint16 b = deserialize_uint16 b
deserialize_scalar uint8 b = deserialize_uint8 b
deserialize_scalar uintptr b = deserialize_uintptr b
deserialize_scalar float64 b = deserialize_float64 b
deserialize_scalar float32 b = deserialize_float32 b
deserialize_scalar complex64 b = deserialize_complex64 b
deserialize_scalar complex128 b = deserialize_complex128 b

abbrev pub serialize_array :
    {A : Type 0} → (A → List ℕ → List ℕ) → (n : ℕ) → Row n A → List ℕ → List ℕ
serialize_array ser zero v b = b
serialize_array ser (suc n) (x, v) b = serialize_array ser n v (ser x b)

abbrev pub deserialize_array : {A : Type 0} → Read A → (n : ℕ) → Read (Row n A)
deserialize_array des zero b = some (tt, b)
deserialize_array des (suc n) b =
    read_then (des b) (λ x b. read_then (deserialize_array des n b) (λ v b. some ((x, v), b)))

unfoldable mutual
  unfolding Memory serialize_scalar

  pub serialize_any : (t : RType) → Memory t → List ℕ → List ℕ
  serialize_any (scalar has_name k) v b = serialize_scalar k v b
  serialize_any (array n t) v b = serialize_array (serialize_any t) n v b
  serialize_any (structure fs) v b = serialize_struct_fields fs v b

  pub serialize_struct_fields : (fs : Fields) → FieldsMemory fs → List ℕ → List ℕ
  serialize_struct_fields no_fields v b = b
  serialize_struct_fields (field exported t fs) (x, v) b =
      serialize_struct_fields fs v (serialize_any t x b)

unfoldable mutual
  unfolding Memory deserialize_scalar

  pub deserialize_any : (t : RType) → Read (Memory t)
  deserialize_any (scalar has_name k) b = deserialize_scalar k b
  deserialize_any (array n t) b = deserialize_array (deserialize_any t) n b
  deserialize_any (structure fs) b = deserialize_struct_fields fs b

  pub deserialize_struct_fields : (fs : Fields) → Read (FieldsMemory fs)
  deserialize_struct_fields no_fields b = some (tt, b)
  deserialize_struct_fields (field exported t fs) b =
      read_then (deserialize_any t b)
        (λ x b. read_then (deserialize_struct_fields fs b) (λ v b. some ((x, v), b)))
