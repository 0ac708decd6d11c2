-- ===== src/Types/Varint.antt =====
-- serializeVarint and deserializeVarint of types/serde.go, with binary.AppendVarint and
-- binary.Varint of the standard library. An int has 64 bits.
pub mod RoundTrip
use coroutine_durable_fork.Prelude.{
  ℕ, zero, suc, ◌+◌, ◌-◌, ◌*◌, ◌/◌, ◌%◌, List, [], ◌∷◌, ◌++◌, Option, none, some, ◌==◌, ltb,
  if◌then◌else◌, drop,
}
use coroutine_durable_fork.Prelude.Int.{ℤ, pos, negsuc}

-- binary.AppendUvarint, for a number that `n` more bytes and one bit hold.
unfoldable pub append_uvarint : ℕ → ℕ → List ℕ
append_uvarint zero x = x ∷ []
append_uvarint (suc n) x =
    let rest = append_uvarint n (x / 128) in if ltb x 128 then x ∷ [] else (x % 128 + 128) ∷ rest

-- What binary.Uvarint finds: a number and the bytes that it takes (n > 0), too few bytes (n = 0),
-- or more than 64 bits (n < 0).
pub data Found : Type 0 where
  found : ℕ → ℕ → Found
  short overflow : Found

abbrev pub above_bits : ℕ → Found → Found
above_bits c (found x n) = found (c + 128 * x) (suc n)
above_bits c short = short
above_bits c overflow = overflow

unfoldable pub uvarint : ℕ → List ℕ → Found
uvarint n [] = short
uvarint zero (c ∷ b) = if ltb c 2 then found c 1 else overflow
uvarint (suc n) (c ∷ b) =
    let rest = uvarint n b in if ltb c 128 then found c 1 else above_bits (c - 128) rest

-- The sign goes to the lowest bit.
abbrev pub zigzag : ℤ → ℕ
zigzag (pos n) = 2 * n
zigzag (negsuc n) = 2 * n + 1

abbrev pub unzigzag : ℕ → ℤ
unzigzag u = if u % 2 == 0 then pos (u / 2) else negsuc (u / 2)

unfoldable pub append_varint : ℤ → List ℕ
unfolding append_uvarint
append_varint x = append_uvarint 9 (zigzag x)

unfoldable pub varint : List ℕ → Found
unfolding uvarint
varint b = uvarint 9 b

unfoldable pub serialize_varint : ℤ → List ℕ → List ℕ
unfolding append_varint
serialize_varint x b = b ++ append_varint x

-- With too few bytes it gives 0 and takes none; d.b[n:] panics for an n below 0.
abbrev pub taken : List ℕ → Found → Option (ℤ × List ℕ)
taken b (found u n) = some (unzigzag u, drop n b)
taken b short = some (pos 0, b)
taken b overflow = none

unfoldable pub deserialize_varint : List ℕ → Option (ℤ × List ℕ)
unfolding varint
deserialize_varint b = taken b (varint b)
