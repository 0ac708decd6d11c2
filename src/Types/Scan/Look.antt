-- ===== src/Types/Scan/Look.antt =====
-- What scan of types/scan.go looks at in a place: the switch on the kind of the type, with the
-- addresses of the parts and the regions. What reflect says of a type, and the words of memory, are
-- parameters.
use coroutine_durable_fork.Prelude.{
  ℕ, zero, suc, ◌+◌, ◌*◌, ◌%◌, ◌/◌, Bool, List, [], ◌∷◌, Option, none, some, ◌==◌, if◌then◌else◌,
}
use coroutine_durable_fork.Types.Container.{GoType, array, size_of}
use coroutine_durable_fork.Types.Scan.{
  View, of_array, nil_slice, of_slice, nil_interface, of_interface, of_struct, nil_pointer,
  of_pointer, empty_string, of_string, of_map, invalid, other,
}

-- The kind of a type, with the numbers of the types of its parts. A field has an offset.
pub data Layout : Type 0 where
  array_of : ℕ → ℕ → Layout
  slice_of pointer_to : ℕ → Layout
  interface string invalid_kind other_kind : Layout
  struct : List (ℕ × ℕ) → Layout
  map_of : ℕ → ℕ → Layout

pub record TypeTable : Type 0 where
  pub number : ℕ
  pub shape : ℕ → Layout
  pub go_type : ℕ → GoType
  pub byte : GoType
  pub is_inlined : ℕ → Bool

-- The words at an address: of a slice its data, length and capacity, of an interface its type and
-- data, of a string its data and length; none for nil. `cell_of` has the address of a copy of the data
-- word of an interface, `entries_at` those of the keys and values of a map.
pub record Heap : Type 0 where
  pub slice_at : ℕ → Option (ℕ × ℕ × ℕ)
  pub interface_at : ℕ → Option (ℕ × ℕ)
  pub cell_of : ℕ → ℕ
  pub pointer_at : ℕ → ℕ
  pub string_at : ℕ → ℕ × ℕ
  pub entries_at : ℕ → List (ℕ × ℕ)

module _ (ts : TypeTable) (h : Heap) where
  -- The number of the place of a type, below the number of types, at an address; 0 for nil.
  abbrev pub place : ℕ → ℕ → ℕ
  place t p = if p == 0 then 0 else p * ts.number + t

  abbrev pub type_at : ℕ → ℕ
  type_at x = x % ts.number

  abbrev pub addr_of : ℕ → ℕ
  addr_of x = x / ts.number

  abbrev pub element_place : ℕ → ℕ → ℕ → ℕ
  element_place e p i = place e (p + size_of (ts.go_type e) * i)

  -- The loop over the elements from index `i` on.
  abbrev pub element_places : ℕ → ℕ → ℕ → ℕ → List ℕ
  element_places e p i zero = []
  element_places e p i (suc n) = element_place e p i ∷ element_places e p (suc i) n

  abbrev pub field_places : ℕ → List (ℕ × ℕ) → List ℕ
  field_places p [] = []
  field_places p ((t, o) ∷ fs) = place t (p + o) ∷ field_places p fs

  abbrev pub entry_places : ℕ → ℕ → List (ℕ × ℕ) → List (ℕ × ℕ)
  entry_places k v [] = []
  entry_places k v ((a, b) ∷ es) = (place k a, place v b) ∷ entry_places k v es

  abbrev pub slice_view : ℕ → Option (ℕ × ℕ × ℕ) → View
  slice_view e none = nil_slice
  slice_view e (some (d, len, capacity)) =
      if d == 0
      then nil_slice
      else of_slice (array capacity (ts.go_type e)) d (element_places e d 0 len)

  abbrev pub interface_view : ℕ → Option (ℕ × ℕ) → View
  interface_view p none = nil_interface
  interface_view p (some (t, d)) =
      if d == 0
      then nil_interface
      else of_interface (place t (if ts.is_inlined t then h.cell_of p else d))

  abbrev pub pointer_view : ℕ → ℕ → View
  pointer_view e q = if q == 0 then nil_pointer else of_pointer (place e q)

  abbrev pub string_view : ℕ × ℕ → View
  string_view (q, n) = if q == 0 then empty_string else of_string (array n ts.byte) q

  abbrev pub shape_view : ℕ → ℕ → Layout → View
  shape_view t p (array_of n e) = of_array (ts.go_type t) p (element_places e p 0 n)
  shape_view t p (slice_of e) = slice_view e (h.slice_at p)
  shape_view t p interface = interface_view p (h.interface_at p)
  shape_view t p (struct fs) = of_struct (ts.go_type t) p (field_places p fs)
  shape_view t p (pointer_to e) = pointer_view e (h.pointer_at p)
  shape_view t p string = string_view (h.string_at p)
  shape_view t p (map_of k v) = of_map (entry_places k v (h.entries_at p))
  shape_view t p invalid_kind = invalid
  shape_view t p other_kind = other

  unfoldable pub look : ℕ → View
  look x = shape_view (type_at x) (addr_of x) (ts.shape (type_at x))
