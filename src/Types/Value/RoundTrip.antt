-- ===== src/Types/Value/RoundTrip.antt =====
-- What serializeAny of types/reflect.go writes for a value without pointers is read back.
use coroutine_durable_fork.Prelude.{
  ℕ, zero, suc, ◌<◌, ◌≡◌, ◌%◌, refl, sym, ap, Bool, true, false, List, [], ◌∷◌, ◌++◌, some,
  append-nil,
}
use native.Mathlib.Nat.{mod-eq_of_lt}
use coroutine_durable_fork.Prelude.Int.{ℤ}
use coroutine_durable_fork.Types.Scalar.{
  values, Read, to_unsigned, serialize_bool, deserialize_bool, serialize_int, deserialize_int,
  serialize_int64, deserialize_int64, serialize_int32, deserialize_int32, serialize_int16,
  deserialize_int16, serialize_int8, deserialize_int8, serialize_uint, deserialize_uint,
  serialize_uint64, deserialize_uint64, serialize_uint32, deserialize_uint32, serialize_uint16,
  deserialize_uint16, serialize_uint8, deserialize_uint8, serialize_uintptr, deserialize_uintptr,
  serialize_float64, deserialize_float64, serialize_float32, deserialize_float32,
  serialize_complex64, deserialize_complex64, serialize_complex128, deserialize_complex128,
}
use coroutine_durable_fork.Types.Scalar.RoundTrip.{
  RoundTrips, IsSigned, to_signed-to_unsigned, signed-RoundTrips, unsigned-RoundTrips,
  join-RoundTrips,
}
use coroutine_durable_fork.Types.Value.{
  Kind, bool, int, int64, int32, int16, int8, uint, uint64, uint32, uint16, uint8, uintptr, float64,
  float32, complex64, complex128, RType, scalar, array, structure, Fields, no_fields, field, Scalar,
  Row, Memory, FieldsMemory, serialize_scalar, deserialize_scalar, serialize_array,
  deserialize_array, serialize_any, serialize_struct_fields, deserialize_any,
  deserialize_struct_fields,
}

-- The values of a type of numbers, within its width.
abbrev pub IsScalar : (k : Kind) → Scalar k → Type 0
IsScalar bool v = Unit {0}
IsScalar int v = IsSigned 8 v
IsScalar int64 v = IsSigned 8 v
IsScalar int32 v = IsSigned 4 v
IsScalar int16 v = IsSigned 2 v
IsScalar int8 v = IsSigned 1 v
IsScalar uint v = v < values 8
IsScalar uint64 v = v < values 8
IsScalar uint32 v = v < values 4
IsScalar uint16 v = v < values 2
IsScalar uint8 v = v < values 1
IsScalar uintptr v = v < values 8
IsScalar float64 v = v < values 8
IsScalar float32 v = v < values 4
IsScalar complex64 (re, im) = (re < values 4) × (im < values 4)
IsScalar complex128 (re, im) = (re < values 8) × (im < values 8)

bool-RoundTrips : (v : Bool) → RoundTrips serialize_bool deserialize_bool v
unfolding serialize_bool deserialize_bool
bool-RoundTrips true = (1 ∷ [], ((λ b. refl), λ rest. refl))
bool-RoundTrips false = (0 ∷ [], ((λ b. refl), λ rest. refl))

uint8-RoundTrips : (v : ℕ) → v < 256 → RoundTrips serialize_uint8 deserialize_uint8 v
unfolding serialize_uint8 deserialize_uint8
uint8-RoundTrips v h =
    (v % 256 ∷ [], ((λ b. refl), λ rest. ap (λ n. some (n, rest)) (mod-eq_of_lt h)))

int8-RoundTrips : (v : ℤ) → IsSigned 1 v → RoundTrips serialize_int8 deserialize_int8 v
unfolding serialize_int8 deserialize_int8
int8-RoundTrips v h = (
  to_unsigned 1 v ∷ [],
  ((λ b. refl), λ rest. ap (λ z. some (z, rest)) (to_signed-to_unsigned 1 v h)),
)

float32-RoundTrips : (v : ℕ) → v < values 4 → RoundTrips serialize_float32 deserialize_float32 v
unfolding serialize_float32 deserialize_float32 serialize_uint32 deserialize_uint32
float32-RoundTrips v h = unsigned-RoundTrips 4 v h

float64-RoundTrips : (v : ℕ) → v < values 8 → RoundTrips serialize_float64 deserialize_float64 v
unfolding serialize_float64 deserialize_float64 serialize_uint64 deserialize_uint64
float64-RoundTrips v h = unsigned-RoundTrips 8 v h

scalar-RoundTrips :
    (k : Kind) (v : Scalar k)
    → IsScalar k v
    → RoundTrips (serialize_scalar k) (deserialize_scalar k) v
unfolding serialize_scalar deserialize_scalar serialize_int serialize_int64 serialize_int32
    serialize_int16 deserialize_int deserialize_int64 deserialize_int32 deserialize_int16
    serialize_uint serialize_uint64 serialize_uint32 serialize_uint16 serialize_uintptr
    deserialize_uint deserialize_uint64 deserialize_uint32 deserialize_uint16 deserialize_uintptr
    serialize_complex64 deserialize_complex64 serialize_complex128 deserialize_complex128
scalar-RoundTrips bool v h = bool-RoundTrips v
scalar-RoundTrips int v h = signed-RoundTrips 8 v h
scalar-RoundTrips int64 v h = signed-RoundTrips 8 v h
scalar-RoundTrips int32 v h = signed-RoundTrips 4 v h
scalar-RoundTrips int16 v h = signed-RoundTrips 2 v h
scalar-RoundTrips int8 v h = int8-RoundTrips v h
scalar-RoundTrips uint v h = unsigned-RoundTrips 8 v h
scalar-RoundTrips uint64 v h = unsigned-RoundTrips 8 v h
scalar-RoundTrips uint32 v h = unsigned-RoundTrips 4 v h
scalar-RoundTrips uint16 v h = unsigned-RoundTrips 2 v h
scalar-RoundTrips uint8 v h = uint8-RoundTrips v h
scalar-RoundTrips uintptr v h = unsigned-RoundTrips 8 v h
scalar-RoundTrips float64 v h = float64-RoundTrips v h
scalar-RoundTrips float32 v h = float32-RoundTrips v h
scalar-RoundTrips complex64 (re, im) (h, k) =
    join-RoundTrips serialize_float32 deserialize_float32 serialize_float32 deserialize_float32
      (λ re im. (re, im)) re im (float32-RoundTrips re h) (float32-RoundTrips im k)
scalar-RoundTrips complex128 (re, im) (h, k) =
    join-RoundTrips serialize_float64 deserialize_float64 serialize_float64 deserialize_float64
      (λ re im. (re, im)) re im (float64-RoundTrips re h) (float64-RoundTrips im k)

abbrev pub All : {A : Type 0} → (A → Type 0) → (n : ℕ) → Row n A → Type 0
All P zero v = Unit {0}
All P (suc n) (x, v) = P x × All P n v

-- The values of a type: every number in them is within its width.
unfoldable mutual
  unfolding Memory

  pub IsValue : (t : RType) → Memory t → Type 0
  IsValue (scalar has_name k) v = IsScalar k v
  IsValue (array n t) v = All (IsValue t) n v
  IsValue (structure fs) v = AreValues fs v

  pub AreValues : (fs : Fields) → FieldsMemory fs → Type 0
  AreValues no_fields v = Unit {0}
  AreValues (field exported t fs) (x, v) = IsValue t x × AreValues fs v

nothing-RoundTrips : RoundTrips (λ v b. b) (λ b. some (tt, b)) (tt {0})
nothing-RoundTrips = ([], ((λ b. sym (append-nil b)), λ rest. refl))

array-RoundTrips :
    {A : Type 0} (P : A → Type 0) (ser : A → List ℕ → List ℕ) (des : Read A)
    → ((x : A) → P x → RoundTrips ser des x)
    → (n : ℕ) (v : Row n A) → All P n v
    → RoundTrips (serialize_array ser n) (deserialize_array des n) v
array-RoundTrips P ser des each zero v h = nothing-RoundTrips
array-RoundTrips P ser des each (suc n) (x, v) (h, k) =
    join-RoundTrips ser des (serialize_array ser n) (deserialize_array des n) (λ x v. (x, v)) x v
      (each x h) (array-RoundTrips P ser des each n v k)

mutual
  unfolding serialize_any deserialize_any IsValue

  value-RoundTrips :
      (t : RType) (v : Memory t) → IsValue t v → RoundTrips (serialize_any t) (deserialize_any t) v
  value-RoundTrips (scalar has_name k) v h = scalar-RoundTrips k v h
  value-RoundTrips (array n t) v h =
      array-RoundTrips (IsValue t) (serialize_any t) (deserialize_any t) (value-RoundTrips t) n v h
  value-RoundTrips (structure fs) v h = fields-RoundTrips fs v h

  fields-RoundTrips :
      (fs : Fields) (v : FieldsMemory fs)
      → AreValues fs v
      → RoundTrips (serialize_struct_fields fs) (deserialize_struct_fields fs) v
  fields-RoundTrips no_fields v h = nothing-RoundTrips
  fields-RoundTrips (field exported t fs) (x, v) (h, k) =
      join-RoundTrips (serialize_any t) (deserialize_any t) (serialize_struct_fields fs)
        (deserialize_struct_fields fs) (λ x v. (x, v)) x v (value-RoundTrips t x h)
        (fields-RoundTrips fs v k)

-- A value whose numbers are within their widths is serialized to bytes that are appended to the
-- others; deserialized with its type, these give the value back and leave what follows.
pub any-RoundTrips :
    (t : RType) (v : Memory t)
    → IsValue t v
    → (bytes : List ℕ) × (((b : List ℕ) → serialize_any t v b ≡ b ++ bytes)
        × ((rest : List ℕ) → deserialize_any t (bytes ++ rest) ≡ some (v, rest)))
any-RoundTrips t v h = value-RoundTrips t v h
