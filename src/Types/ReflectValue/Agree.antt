-- ===== src/Types/ReflectValue/Agree.antt =====
-- serializeReflectValue and deserializeReflectValue against serializeAny and deserializeAny.
use coroutine_durable_fork.Prelude.{
  ℕ, zero, suc, ◌≡◌, refl, ap, ◌∙◌, Bool, true, false, not, ◌&&◌, ◌||◌, ◌==◌, List, ◌++◌, Option,
  none, some, if◌then◌else◌, inl, inr, Bool-cases, both_true, ==_iff, arith,
}
use coroutine_durable_fork.Types.Scalar.{read_then}
use coroutine_durable_fork.Types.Value.{
  Kind, bool, int, int64, int32, int16, int8, uint, uint64, uint32, uint16, uint8, uintptr, float64,
  float32, complex64, complex128, RType, scalar, array, structure, Fields, no_fields, field, Scalar,
  Row, Memory, FieldsMemory, serialize_scalar, deserialize_scalar, serialize_array, serialize_any,
  serialize_struct_fields, deserialize_any, deserialize_struct_fields,
}
use coroutine_durable_fork.Types.Value.RoundTrip.{IsValue, any-RoundTrips}
use coroutine_durable_fork.Types.ReflectValue.{
  serialize_reflect_scalar, deserialize_reflect_scalar, serialized_then, serialize_elements,
  is_assignable, set_field, serialize_reflect_value, serialize_reflect_fields,
  deserialize_reflect_value, deserialize_reflect_fields,
}

abbrev pub not_uintptr : Kind → Bool
not_uintptr uintptr = false
not_uintptr _ = true

-- No part that is serialized is a uintptr or in a field that is not exported.
unfoldable mutual
  pub is_covered : RType → Bool
  is_covered (scalar has_name k) = not_uintptr k
  is_covered (array n t) = n == 0 || is_covered t
  is_covered (structure fs) = are_covered fs

  pub are_covered : Fields → Bool
  are_covered no_fields = true
  are_covered (field exported t fs) = exported && (is_covered t && are_covered fs)

-- Apart from the elements of arrays, no part is a uintptr, of a named type of numbers or booleans,
-- or in a field that is not exported.
unfoldable mutual
  pub is_restored : RType → Bool
  is_restored (scalar has_name k) = not has_name && not_uintptr k
  is_restored (array n t) = true
  is_restored (structure fs) = are_restored fs

  pub are_restored : Fields → Bool
  are_restored no_fields = true
  are_restored (field exported t fs) = exported && (is_restored t && are_restored fs)

abbrev pub only_if : Bool → List ℕ → Option (List ℕ)
only_if c b = if c then some b else none

scalar_agrees :
    (k : Kind) (v : Scalar k) (b : List ℕ)
    → serialize_reflect_scalar k v b ≡ only_if (not_uintptr k) (serialize_scalar k v b)
unfolding serialize_reflect_scalar serialize_scalar
scalar_agrees bool v b = refl
scalar_agrees int v b = refl
scalar_agrees int64 v b = refl
scalar_agrees int32 v b = refl
scalar_agrees int16 v b = refl
scalar_agrees int8 v b = refl
scalar_agrees uint v b = refl
scalar_agrees uint64 v b = refl
scalar_agrees uint32 v b = refl
scalar_agrees uint16 v b = refl
scalar_agrees uint8 v b = refl
scalar_agrees uintptr v b = refl
scalar_agrees float64 v b = refl
scalar_agrees float32 v b = refl
scalar_agrees complex64 v b = refl
scalar_agrees complex128 v b = refl

absurd_zero : (n : ℕ) → (suc n == 0) ≡ true → ⊥
absurd_zero n e = let z = (==_iff (suc n) 0).0 e in omega (arith, z)

-- Elements that all agree, or all panic.
covered_elements :
    {A : Type 0} (ser : A → List ℕ → Option (List ℕ)) (any : A → List ℕ → List ℕ)
    → ((x : A) (b : List ℕ) → ser x b ≡ some (any x b))
    → (n : ℕ) (v : Row n A) (b : List ℕ)
    → serialize_elements ser n v b ≡ some (serialize_array any n v b)
covered_elements ser any h zero v b = refl
covered_elements ser any h (suc n) (x, v) b = rw (h x b) (covered_elements ser any h n v (any x b))

uncovered_elements :
    {A : Type 0} (ser : A → List ℕ → Option (List ℕ))
    → ((x : A) (b : List ℕ) → ser x b ≡ none)
    → (n : ℕ) (v : Row n A) (b : List ℕ) → (n == 0) ≡ false
    → serialize_elements ser n v b ≡ none
uncovered_elements ser h zero v b e = cc
uncovered_elements ser h (suc n) (x, v) b e = rw (h x b) refl

both :
    (c d : Bool) (r : Option (List ℕ)) (b z : List ℕ) (f : List ℕ → Option (List ℕ))
    → r ≡ only_if c b
    → f b ≡ only_if d z
    → serialized_then r f ≡ only_if (c && d) z
both true d r b z f h k = rw h k
both false d r b z f h k = rw h refl

elements_agree :
    {A : Type 0} (c : Bool) (ser : A → List ℕ → Option (List ℕ)) (any : A → List ℕ → List ℕ)
    → ((x : A) (b : List ℕ) → ser x b ≡ only_if c (any x b))
    → (n : ℕ) (v : Row n A) (b : List ℕ)
    → serialize_elements ser n v b ≡ only_if (n == 0 || c) (serialize_array any n v b)
elements_agree true ser any h n v b = elim (Bool-cases (n == 0)) [
  | inl e ↦ rw e (covered_elements ser any h n v b)
  | inr e ↦ rw e (covered_elements ser any h n v b)
]
elements_agree false ser any h zero v b = refl
elements_agree false ser any h (suc n) v b = elim (Bool-cases (suc n == 0)) [
  | inl e ↦ absurd (absurd_zero n e)
  | inr e ↦ rw e (uncovered_elements ser h (suc n) v b e)
]

mutual
  unfolding serialize_any serialize_reflect_value is_covered

  agrees :
      (t : RType) (v : Memory t) (b : List ℕ)
      → serialize_reflect_value t v b ≡ only_if (is_covered t) (serialize_any t v b)
  agrees (scalar has_name k) v b = scalar_agrees k v b
  agrees (array n t) v b =
      elements_agree (is_covered t) (serialize_reflect_value t) (serialize_any t) (agrees t) n v b
  agrees (structure fs) v b = fields_agree fs v b

  fields_agree :
      (fs : Fields) (v : FieldsMemory fs) (b : List ℕ)
      → serialize_reflect_fields fs v b ≡ only_if (are_covered fs) (serialize_struct_fields fs v b)
  fields_agree no_fields v b = refl
  fields_agree (field false t fs) (x, v) b = refl
  fields_agree (field true t fs) (x, v) b =
      both (is_covered t) (are_covered fs) _ _ _ (λ c. serialize_reflect_fields fs v c)
        (agrees t x b) (fields_agree fs v (serialize_any t x b))

scalar_reads :
    (k : Kind) (b : List ℕ)
    → not_uintptr k ≡ true
    → deserialize_reflect_scalar k b ≡ deserialize_scalar k b
unfolding deserialize_reflect_scalar deserialize_scalar
scalar_reads bool b h = refl
scalar_reads int b h = refl
scalar_reads int64 b h = refl
scalar_reads int32 b h = refl
scalar_reads int16 b h = refl
scalar_reads int8 b h = refl
scalar_reads uint b h = refl
scalar_reads uint64 b h = refl
scalar_reads uint32 b h = refl
scalar_reads uint16 b h = refl
scalar_reads uint8 b h = refl
scalar_reads uintptr b h = cc
scalar_reads float64 b h = refl
scalar_reads float32 b h = refl
scalar_reads complex64 b h = refl
scalar_reads complex128 b h = refl

-- Two reads, one after the other.
abbrev joined :
    {A B : Type 0}
    → Option (A × List ℕ)
    → (List ℕ → Option (B × List ℕ))
    → Option ((A × B) × List ℕ)
joined p f = read_then p (λ x c. read_then (f c) (λ v c. some ((x, v), c)))

same_reads :
    {A B : Type 0} (p q : Option (A × List ℕ)) (f g : List ℕ → Option (B × List ℕ))
    → p ≡ q
    → ((c : List ℕ) → f c ≡ g c)
    → joined p f ≡ joined q g
same_reads none q f g e h = rw⁻¹ e refl
same_reads (some (x, c)) q f g e h = rw⁻¹ e (rw (h c) refl)

assignable : (t : RType) → is_restored t ≡ true → is_assignable t ≡ true
unfolding is_restored
assignable (scalar has_name k) h = (both_true (not has_name) (not_uintptr k) h).0
assignable (array n t) h = refl
assignable (structure fs) h = refl

mutual
  unfolding deserialize_any deserialize_reflect_value is_restored

  reads :
      (t : RType) (b : List ℕ)
      → is_restored t ≡ true
      → deserialize_reflect_value t b ≡ deserialize_any t b
  reads (scalar has_name k) b h = scalar_reads k b ((both_true (not has_name) (not_uintptr k) h).1)
  reads (array n t) b h = refl
  reads (structure fs) b h = fields_read fs b h

  fields_read :
      (fs : Fields) (b : List ℕ)
      → are_restored fs ≡ true
      → deserialize_reflect_fields fs b ≡ deserialize_struct_fields fs b
  fields_read no_fields b h = refl
  fields_read (field false t fs) b h = cc
  fields_read (field true t fs) b h =
      let (c, d) = both_true (is_restored t) (are_restored fs) h in
      same_reads (set_field true t (deserialize_reflect_value t b)) (deserialize_any t b)
        (deserialize_reflect_fields fs) (deserialize_struct_fields fs)
        (rw (assignable t c) (reads t b c)) (λ r. fields_read fs r d)

-- A value whose numbers are within their widths, in which no part that is serialized is a uintptr or
-- in a field that is not exported, is serialized by serializeReflectValue without a panic, to bytes
-- that are appended to the others. From these deserializeReflectValue gives the value back, without a
-- panic, and leaves what follows, although it reads the elements of arrays by deserializeAny; for
-- this, no part outside of arrays is a uintptr, in a field that is not exported, or of a number or
-- boolean type that has a name.
pub reflect_value-RoundTrips :
    (t : RType) (v : Memory t)
    → IsValue t v
    → is_covered t ≡ true
    → is_restored t ≡ true
    → (bytes : List ℕ) × ((b : List ℕ) → serialize_reflect_value t v b ≡ some (b ++ bytes))
      × ((rest : List ℕ) → deserialize_reflect_value t (bytes ++ rest) ≡ some (v, rest))
reflect_value-RoundTrips t v h c r =
    let (bytes, (written, back)) = any-RoundTrips t v h in
    (
      bytes,
      λ b. agrees t v b ∙ rw c (ap some (written b)),
      λ rest. reads t (bytes ++ rest) r ∙ back rest,
    )
