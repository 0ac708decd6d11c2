-- ===== src/Types/Scalar.antt =====
-- The serialization of numbers, booleans, arrays and structs of types/reflect.go: the serializer's
-- and the deserializer's bytes `b`, and the value at the pointer. The address of an element or a
-- field, its index times a size or its offset, is the place of its part in the value. A
-- deserializer that runs out of bytes panics, `none`. Floats are their bits, as math.Float64bits
-- gives them, since the code only copies these. A type with a serializer of its own is left out.
pub mod RoundTrip
use coroutine_durable_fork.Prelude.{
  ℕ, zero, suc, ◌+◌, ◌-◌, ◌*◌, ◌/◌, ◌%◌, ◌<◌, Bool, true, false, List, [], ◌∷◌, ◌++◌, Option, none,
  some, ◌==◌, ltb, if◌then◌else◌,
}
use coroutine_durable_fork.Prelude.Int.{ℤ, pos, negsuc}

-- 256 to a power: the number of values of so many bytes.
abbrev pub values : ℕ → ℕ
values zero = 1
values (suc w) = 256 * values w

-- binary.LittleEndian, on so many bytes.
unfoldable pub little_endian : ℕ → ℕ → List ℕ
little_endian zero x = []
little_endian (suc w) x = x % 256 ∷ little_endian w (x / 256)

abbrev pub above_byte {ℓ} : {A : Type ℓ} → ℕ → Option (ℕ × A) → Option (ℕ × A)
above_byte c none = none
above_byte c (some (x, rest)) = some (c + 256 * x, rest)

unfoldable pub from_little_endian : ℕ → List ℕ → Option (ℕ × List ℕ)
from_little_endian zero b = some (0, b)
from_little_endian (suc w) [] = none
from_little_endian (suc w) (c ∷ b) = above_byte c (from_little_endian w b)

-- The conversions uint64(x), … of a signed number, and int64(u), …, on so many bytes.
unfoldable pub to_unsigned : ℕ → ℤ → ℕ
to_unsigned w (pos n) = n % values w
to_unsigned w (negsuc n) = values w - 1 - n % values w

unfoldable pub to_signed : ℕ → ℕ → ℤ
to_signed w u = if ltb u (values w / 2) then pos u else negsuc (values w - 1 - u)

-- What a deserializer reads into *x, with the bytes left.
abbrev pub Read : Type 0 → Type 0
Read A = List ℕ → Option (A × List ℕ)

abbrev pub read_then {ℓ κ} :
    {A : Type ℓ} {B : Type κ} → Option (A × List ℕ) → (A → List ℕ → Option B) → Option B
read_then none f = none
read_then (some (a, b)) f = f a b

unfoldable pub serialize_bool : Bool → List ℕ → List ℕ
serialize_bool x b = b ++ (if x then 1 else 0) ∷ []

unfoldable pub deserialize_bool : Read Bool
deserialize_bool [] = none
deserialize_bool (c ∷ b) = some (c == 1, b)

unfoldable pub serialize_uint64 : ℕ → List ℕ → List ℕ
unfolding little_endian
serialize_uint64 x b = b ++ little_endian 8 x

unfoldable pub deserialize_uint64 : Read ℕ
unfolding from_little_endian
deserialize_uint64 b = from_little_endian 8 b

unfoldable pub serialize_uint32 : ℕ → List ℕ → List ℕ
unfolding little_endian
serialize_uint32 x b = b ++ little_endian 4 x

unfoldable pub deserialize_uint32 : Read ℕ
unfolding from_little_endian
deserialize_uint32 b = from_little_endian 4 b

unfoldable pub serialize_uint16 : ℕ → List ℕ → List ℕ
unfolding little_endian
serialize_uint16 x b = b ++ little_endian 2 x

unfoldable pub deserialize_uint16 : Read ℕ
unfolding from_little_endian
deserialize_uint16 b = from_little_endian 2 b

unfoldable pub serialize_uint8 : ℕ → List ℕ → List ℕ
serialize_uint8 x b = b ++ x % 256 ∷ []

unfoldable pub deserialize_uint8 : Read ℕ
deserialize_uint8 [] = none
deserialize_uint8 (c ∷ b) = some (c, b)

-- An int has 64 bits, and so has a uintptr.
unfoldable pub serialize_int64 : ℤ → List ℕ → List ℕ
unfolding little_endian to_unsigned
serialize_int64 x b = b ++ little_endian 8 (to_unsigned 8 x)

unfoldable pub deserialize_int64 : Read ℤ
unfolding from_little_endian to_signed
deserialize_int64 b = read_then (from_little_endian 8 b) (λ u b. some (to_signed 8 u, b))

unfoldable pub serialize_int32 : ℤ → List ℕ → List ℕ
unfolding little_endian to_unsigned
serialize_int32 x b = b ++ little_endian 4 (to_unsigned 4 x)

unfoldable pub deserialize_int32 : Read ℤ
unfolding from_little_endian to_signed
deserialize_int32 b = read_then (from_little_endian 4 b) (λ u b. some (to_signed 4 u, b))

unfoldable pub serialize_int16 : ℤ → List ℕ → List ℕ
unfolding little_endian to_unsigned
serialize_int16 x b = b ++ little_endian 2 (to_unsigned 2 x)

unfoldable pub deserialize_int16 : Read ℤ
unfolding from_little_endian to_signed
deserialize_int16 b = read_then (from_little_endian 2 b) (λ u b. some (to_signed 2 u, b))

unfoldable pub serialize_int8 : ℤ → List ℕ → List ℕ
unfolding to_unsigned
serialize_int8 x b = b ++ to_unsigned 1 x ∷ []

unfoldable pub deserialize_int8 : Read ℤ
unfolding to_signed
deserialize_int8 [] = none
deserialize_int8 (c ∷ b) = some (to_signed 1 c, b)

unfoldable pub serialize_int : ℤ → List ℕ → List ℕ
unfolding serialize_int64
serialize_int x b = serialize_int64 x b

unfoldable pub deserialize_int : Read ℤ
unfolding from_little_endian to_signed
deserialize_int b = read_then (from_little_endian 8 b) (λ u b. some (to_signed 8 u, b))

unfoldable pub serialize_uint : ℕ → List ℕ → List ℕ
unfolding serialize_uint64
serialize_uint x b = serialize_uint64 x b

unfoldable pub deserialize_uint : Read ℕ
unfolding from_little_endian
deserialize_uint b = from_little_endian 8 b

unfoldable pub serialize_uintptr : ℕ → List ℕ → List ℕ
unfolding serialize_uint64
serialize_uintptr x b = serialize_uint64 x b

unfoldable pub deserialize_uintptr : Read ℕ
unfolding deserialize_uint64
deserialize_uintptr b = deserialize_uint64 b

unfoldable pub serialize_float32 : ℕ → List ℕ → List ℕ
unfolding serialize_uint32
serialize_float32 x b = serialize_uint32 x b

unfoldable pub deserialize_float32 : Read ℕ
unfolding deserialize_uint32
deserialize_float32 b = deserialize_uint32 b

unfoldable pub serialize_float64 : ℕ → List ℕ → List ℕ
unfolding serialize_uint64
serialize_float64 x b = serialize_uint64 x b

unfoldable pub deserialize_float64 : Read ℕ
unfolding deserialize_uint64
deserialize_float64 b = deserialize_uint64 b

unfoldable pub serialize_complex64 : ℕ × ℕ → List ℕ → List ℕ
unfolding serialize_float32
serialize_complex64 (re, im) b = serialize_float32 im (serialize_float32 re b)

unfoldable pub deserialize_complex64 : Read (ℕ × ℕ)
unfolding deserialize_float32
deserialize_complex64 b =
    read_then (deserialize_float32 b)
      (λ re b. read_then (deserialize_float32 b) (λ im b. some ((re, im), b)))

unfoldable pub serialize_complex128 : ℕ × ℕ → List ℕ → List ℕ
unfolding serialize_float64
serialize_complex128 (re, im) b = serialize_float64 im (serialize_float64 re b)

unfoldable pub deserialize_complex128 : Read (ℕ × ℕ)
unfolding deserialize_float64
deserialize_complex128 b =
    read_then (deserialize_float64 b)
      (λ re b. read_then (deserialize_float64 b) (λ im b. some ((re, im), b)))
