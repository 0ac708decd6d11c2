-- ===== src/Types/Pointer.antt =====
-- Pointers in the serialized format: serializePointedAt and deserializePointedAt of types/reflect.go
-- up to the data, readPtr and
-- store of types/serde.go, and the table of small integers of types/unsafe.go, whose address in a
-- process is a parameter. A nil pointer is 0, and addresses do not wrap around.
pub mod RoundTrip
pub mod Shared
pub mod Fetch
use coroutine_durable_fork.Prelude.{
  ℕ, zero, suc, ◌+◌, ◌-◌, Bool, true, false, ◌&&◌, ◌||◌, not, List, ◌∷◌, Option, none, some, ◌==◌,
  ltb, leb, if◌then◌else◌,
}
use coroutine_durable_fork.Prelude.Int.{ℤ, pos, negsuc}
use coroutine_durable_fork.Types.Varint.{serialize_varint, deserialize_varint}
use coroutine_durable_fork.Types.Serde.{Serializer, Deserializer, key_of, assign_pointer_id}

abbrev pub written : ℤ → Serializer → Serializer
written x s = record s { b = serialize_varint x s.b }

-- A new pointer is followed by its data.
abbrev pub with_id : (ℕ × Bool) × Serializer → Bool × Serializer
with_id ((id, new), s) = (new, written (pos id) s)

-- A pointer of the map, or nil.
abbrev pub or_nil : Option ℕ → ℕ
or_nil none = 0
or_nil (some p) = p

-- The pointer under an ID.
abbrev pub stored : ℤ → List (ℕ × ℕ) → ℕ
stored (pos i) m = or_nil (key_of i m)
stored (negsuc i) m = 0

abbrev pub is_nought : ℤ → Bool
is_nought (pos i) = i == 0
is_nought (negsuc i) = false

abbrev pub Pointed : Type 0
Pointed = (ℕ × ℤ) × Deserializer

module _ (table : ℕ) where
  unfoldable pub static : ℕ → Bool
  static p = leb table p && ltb p (table + 256)

  unfoldable pub static_offset : ℕ → ℕ
  static_offset p = p - table

  unfoldable pub static_pointer : ℤ → ℕ
  static_pointer (pos o) = table + o
  static_pointer (negsuc o) = table - (o + 1)

  -- Up to the data of a new pointer; whether the pointer is new.
  unfoldable pub serialize_pointer_id : ℕ → Serializer → Bool × Serializer
  unfolding static static_offset assign_pointer_id
  serialize_pointer_id p s =
      if p == 0
      then (false, written (pos 0) s)
      else if static p
      then (false, written (pos (static_offset p)) (written (negsuc zero) s))
      else with_id (assign_pointer_id p s)

  abbrev pub static_pointed : Option (ℤ × List ℕ) → Deserializer → Option Pointed
  static_pointed none d = none
  static_pointed (some (o, b)) d = some ((static_pointer o, pos 0), record d { b = b })

  abbrev pub pointed : Option (ℤ × List ℕ) → Deserializer → Option Pointed
  pointed none d = none
  pointed (some (negsuc zero, b)) d = static_pointed (deserialize_varint b) d
  pointed (some (x, b)) d = some ((stored x d.ptrs, x), record d { b = b })

  -- A panic is none.
  unfoldable pub read_ptr : Deserializer → Option Pointed
  unfolding static_pointer
  read_ptr d = pointed (deserialize_varint d.b) d

-- A panic for an ID that has a pointer.
unfoldable pub store : ℕ → ℕ → Deserializer → Option Deserializer
store i p d =
    if or_nil (key_of i d.ptrs) == 0 then some (record d { ptrs = (i, p) ∷ d.ptrs }) else none

-- The test of deserializePointedAt for a pointer that has been read: without data.
unfoldable pub already_seen : ℕ × ℤ → Bool
already_seen (p, i) = not (p == 0) || is_nought i

-- What follows a pointer: nothing, its data, or the region that it points into.
pub data Written : Type 0 where
  finished own_data inside : Serializer → Written

-- The offset of a new pointer: -1 without a region, which is given by its address.
abbrev pub placed : ℕ → Option ℕ → Serializer → Written
placed p none s = own_data (written (negsuc zero) s)
placed p (some r) s = inside (written (pos (p - r)) s)

abbrev pub behind_id : ℕ → Option ℕ → Bool × Serializer → Written
behind_id p r (false, s) = finished s
behind_id p r (true, s) = placed p r s

-- serializePointedAt for a type that is not nil, up to the data or to the type of the region, where `region_of` is the lookup in
-- the containers.
unfoldable pub serialize_pointed_at : ℕ → (ℕ → Option ℕ) → ℕ → Serializer → Written
unfolding serialize_pointer_id
serialize_pointed_at table region_of p s =
    behind_id p (region_of p) (serialize_pointer_id table p s)

-- What deserializePointedAt has read: a pointer; new memory, to be filled with the data; the offset in
-- a region that is still to be read. An ID below 0, which is never written, is not followed further.
pub data Fetched : Type 0 where
  pointer to_fill from_region : ℕ → Deserializer → Fetched
  negative_id panics : Fetched

abbrev pub filled : ℕ → Option Deserializer → Fetched
filled new none = panics
filled new (some d) = to_fill new d

abbrev pub by_offset : ℕ → ℤ → Deserializer → Option (ℤ × List ℕ) → Fetched
by_offset new i d none = panics
by_offset new i d (some (pos o, b)) = from_region o (record d { b = b })
by_offset new (pos i) d (some (negsuc o, b)) = filled new (store i new (record d { b = b }))
by_offset new (negsuc i) d (some (negsuc o, b)) = negative_id

abbrev pub by_pointer : ℕ → Option Pointed → Fetched
by_pointer new none = panics
by_pointer new (some ((p, i), d)) =
    if already_seen (p, i) then pointer p d else by_offset new i d (deserialize_varint d.b)

-- deserializePointedAt up to the data or the type of the region, where reflect.New gives `new`.
unfoldable pub deserialize_pointed_at : ℕ → ℕ → Deserializer → Fetched
unfolding read_ptr store already_seen
deserialize_pointed_at table new d = by_pointer new (read_ptr table d)
