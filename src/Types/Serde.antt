-- ===== src/Types/Serde.antt =====
-- The serializer and the deserializer of types/serde.go: the build ID in front of the bytes, and
-- the identities of pointers. A pointer is its address.
pub mod Laws
pub mod Identity
use coroutine_durable_fork.Prelude.{
  ℕ, zero, suc, ◌+◌, ◌-◌, Bool, true, false, ◌&&◌, ◌||◌, List, [], ◌∷◌, ◌++◌, Option, none, some,
  ◌==◌, ltb, if◌then◌else◌, drop, take, length,
}
use coroutine_durable_fork.Prelude.Int.{ℤ, pos, negsuc}
use coroutine_durable_fork.Types.Varint.{
  Found, found, short, overflow, unzigzag, append_varint, varint,
}

-- The map ptrs from pointers to IDs.
pub record Serializer : Type 0 where
  pub ptrs : List (ℕ × ℕ)
  pub b : List ℕ

pub record Deserializer : Type 0 where
  pub ptrs : List (ℕ × ℕ)
  pub b : List ℕ

pub data Error : Type 0 where
  invalid_build_id build_id_mismatch : Error

pub data Result : Type 0 where
  ok : Deserializer → Result
  err : Error → Result

abbrev pub key_of : ℕ → List (ℕ × ℕ) → Option ℕ
key_of p [] = none
key_of p ((q, i) ∷ m) = if q == p then some i else key_of p m

-- Comparison of two strings of bytes.
abbrev pub same_bytes : List ℕ → List ℕ → Bool
same_bytes [] [] = true
same_bytes (c ∷ cs) (d ∷ ds) = c == d && same_bytes cs ds
same_bytes _ _ = false

unfoldable pub new_serializer : List ℕ → Serializer
new_serializer build_id = record {
  ptrs = [];
  b = append_varint (pos (length build_id)) ++ build_id;
}

abbrev pub check_build_id : List ℕ → ℕ → List ℕ → Result
check_build_id build_id l b =
    if same_bytes (take l b) build_id
    then ok (record { ptrs = []; b = drop l b })
    else err build_id_mismatch

-- The length of the build ID, as the guard lets it through; len(b)-n is no less than 0.
abbrev pub after_length : List ℕ → List ℕ → ℕ → ℤ → Result
after_length build_id b n (negsuc l) = err invalid_build_id
after_length build_id b n (pos l) =
    if l == 0 || ltb (length build_id) l || ltb (length b - n) l
    then err invalid_build_id
    else check_build_id build_id l (drop n b)

abbrev pub after_varint : List ℕ → List ℕ → Found → Result
after_varint build_id b (found u n) = after_length build_id b n (unzigzag u)
after_varint build_id b _ = err invalid_build_id

unfoldable pub new_deserializer : List ℕ → List ℕ → Result
unfolding varint
new_deserializer build_id b = after_varint build_id b (varint b)

abbrev pub assign : ℕ → Serializer → Option ℕ → (ℕ × Bool) × Serializer
assign p s (some id) = ((id, false), s)
assign p s none = let id = length s.ptrs + 1 in ((id, true), record s { ptrs = (p, id) ∷ s.ptrs })

-- The ID of a pointer, and whether it is a new one.
unfoldable pub assign_pointer_id : ℕ → Serializer → (ℕ × Bool) × Serializer
assign_pointer_id p s = assign p s (key_of p s.ptrs)
