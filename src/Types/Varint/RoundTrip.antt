-- ===== src/Types/Varint/RoundTrip.antt =====
-- The variable-length numbers of types/serde.go are read back.
use coroutine_durable_fork.Prelude.{
  ℕ, zero, suc, ◌+◌, ◌*◌, ◌/◌, ◌%◌, ◌<◌, ◌≡◌, refl, ap, ◌∙◌, Bool-cases, inl, inr, false, List, [],
  ◌∷◌, ◌++◌, some, ltb, drop, length, arith,
}
use coroutine_durable_fork.Prelude.Int.{ℤ, pos, negsuc}
use coroutine_durable_fork.Types.Varint.{
  append_uvarint, uvarint, found, zigzag, unzigzag, append_varint, varint, serialize_varint,
  deserialize_varint, taken,
}

-- The first number that needs more than `n` bytes and one bit.
abbrev pub bound : ℕ → ℕ
bound zero = 2
bound (suc n) = 128 * bound n

uvarint-append_uvarint :
    (n x : ℕ) (rest : List ℕ)
    → x < bound n
    → uvarint n (append_uvarint n x ++ rest) ≡ found x (length (append_uvarint n x))
unfolding uvarint append_uvarint
uvarint-append_uvarint zero x rest h = ground arith
uvarint-append_uvarint (suc n) x rest h = elim (Bool-cases (ltb x 128)) [
  | inl lt ↦ rw (lt, append_uvarint) (ground (arith, lt))
  | inr ge ↦
      let high : ltb (x % 128 + 128) 128 ≡ false = ground arith in
      let low : x / 128 < bound n = omega (arith, h) in
      rw (ge, append_uvarint, high, uvarint-append_uvarint n (x / 128) rest low)
        (ap (λ m. found m (suc (length (append_uvarint n (x / 128))))) (omega arith))
]

pub unzigzag-zigzag : (x : ℤ) → unzigzag (zigzag x) ≡ x
unzigzag-zigzag (pos n) = ground arith
unzigzag-zigzag (negsuc n) = ground arith

pub drop-append : (xs ys : List ℕ) → drop (length xs) (xs ++ ys) ≡ ys
drop-append [] ys = refl
drop-append (x ∷ xs) ys = drop-append xs ys

-- The range of an int.
abbrev pub IsInt : ℤ → Type 0
IsInt (pos n) = 2 * n < bound 9
IsInt (negsuc n) = 2 * n + 1 < bound 9

zigzag-bound : (x : ℤ) → IsInt x → zigzag x < bound 9
zigzag-bound (pos n) h = h
zigzag-bound (negsuc n) h = h

-- What AppendVarint appends for an int, Varint finds, with its length.
pub varint-append_varint :
    (x : ℤ) (rest : List ℕ)
    → IsInt x
    → varint (append_varint x ++ rest) ≡ found (zigzag x) (length (append_varint x))
unfolding varint append_varint
varint-append_varint x rest h = uvarint-append_uvarint 9 (zigzag x) rest (zigzag-bound x h)

-- For an int, serializeVarint appends bytes that deserializeVarint reads back, and it leaves what
-- follows.
pub varint-RoundTrips :
    (x : ℤ)
    → IsInt x
    → (bytes : List ℕ) × (((b : List ℕ) → serialize_varint x b ≡ b ++ bytes)
        × ((rest : List ℕ) → deserialize_varint (bytes ++ rest) ≡ some (x, rest)))
unfolding serialize_varint deserialize_varint
varint-RoundTrips x h = (
  append_varint x,
  (
    (λ b. refl),
    λ rest.
        ap (taken (append_varint x ++ rest)) (varint-append_varint x rest h)
        ∙ ap (λ z. some (z, drop (length (append_varint x)) (append_varint x ++ rest)))
            (unzigzag-zigzag x)
        ∙ ap (λ b. some (x, b)) (drop-append (append_varint x) rest),
  ),
)
