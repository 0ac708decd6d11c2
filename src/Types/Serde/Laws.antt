-- ===== src/Types/Serde/Laws.antt =====
-- The build ID guards the bytes, and a pointer keeps an ID of its own.
use coroutine_durable_fork.Prelude.{
  ℕ, ◌-◌, ◌*◌, ◌<◌, ◌≡◌, refl, ap, ◌∙◌, Bool, Bool-cases, inl, inr, true, false, ◌||◌, List, [],
  ◌∷◌, ◌++◌, ◌==◌, ltb, if◌then◌else◌, drop, take, length, arith, append_assoc, length-append,
}
use coroutine_durable_fork.Prelude.Int.{pos}
use coroutine_durable_fork.Types.Varint.{append_varint}
use coroutine_durable_fork.Types.Varint.RoundTrip.{
  bound, varint-append_varint, unzigzag-zigzag, drop-append,
}
use coroutine_durable_fork.Types.Serde.{
  invalid_build_id, build_id_mismatch, ok, err, same_bytes, new_serializer, check_build_id,
  after_length, after_varint, new_deserializer,
}

take-append : (xs ys : List ℕ) → take (length xs) (xs ++ ys) ≡ xs
take-append [] ys = refl
take-append (x ∷ xs) ys = ap (λ l. x ∷ l) (take-append xs ys)

same_bytes_refl : (xs : List ℕ) → same_bytes xs xs ≡ true
same_bytes_refl [] = refl
same_bytes_refl (x ∷ xs) = ground (arith, same_bytes_refl xs)

two_tests : (a b : Bool) {c : Bool} → c ≡ false → (a || b || c) ≡ (a || b)
two_tests true b e = refl
two_tests false true e = refl
two_tests false false e = e

long_enough : (v id rest : List ℕ) → ltb (length (v ++ (id ++ rest)) - length v) (length id) ≡ false
long_enough v id rest = ground (arith, length-append v (id ++ rest), length-append id rest)

after_header :
    (build_id id rest : List ℕ)
    → 2 * length id < bound 9
    → new_deserializer build_id ((new_serializer id).b ++ rest) ≡ (
        if length id == 0 || ltb (length build_id) (length id)
        then err invalid_build_id
        else check_build_id build_id (length id) (id ++ rest))
unfolding new_deserializer new_serializer
after_header build_id id rest h =
    let v : List ℕ = append_varint (pos (length id)) in
    let b : List ℕ = v ++ (id ++ rest) in
    ap (new_deserializer build_id) (append_assoc v id rest)
    ∙ ap (after_varint build_id b) (varint-append_varint (pos (length id)) (id ++ rest) h)
    ∙ ap (after_length build_id b (length v)) (unzigzag-zigzag (pos (length id)))
    ∙ ap
        (λ t.
          if t
          then err invalid_build_id
          else check_build_id build_id (length id) (drop (length v) b))
        (two_tests (length id == 0) (ltb (length build_id) (length id)) (long_enough v id rest))
    ∙ ap
        (λ b.
          if length id == 0 || ltb (length build_id) (length id)
          then err invalid_build_id
          else check_build_id build_id (length id) b)
        (drop-append v (id ++ rest))

-- The bytes that follow the header of a serializer are those that the deserializer of the same
-- build starts with.
pub same_build :
    (build_id rest : List ℕ)
    → 0 < length build_id
    → 2 * length build_id < bound 9
    → new_deserializer build_id ((new_serializer build_id).b ++ rest)
      ≡ ok (record { ptrs = []; b = rest })
same_build build_id rest pos_length h =
    let first : (length build_id == 0) ≡ false = ground arith in
    let second : ltb (length build_id) (length build_id) ≡ false = ground arith in
    after_header build_id build_id rest h
    ∙ rw
        (
          first,
          second,
          take-append build_id rest,
          same_bytes_refl build_id,
          drop-append build_id rest,
        )
        refl

-- The bytes of a serializer of another build are refused: with ErrBuildIDMismatch where its build
-- ID is not longer than this build's.
pub other_build :
    (build_id id rest : List ℕ)
    → 0 < length id
    → 2 * length id < bound 9
    → same_bytes id build_id ≡ false
    → new_deserializer build_id ((new_serializer id).b ++ rest)
      ≡ err (if ltb (length build_id) (length id) then invalid_build_id else build_id_mismatch)
other_build build_id id rest pos_length h other =
    let first : (length id == 0) ≡ false = ground arith in
    after_header build_id id rest h ∙ elim (Bool-cases (ltb (length build_id) (length id))) [
      | inl long ↦ rw (first, long) refl
      | inr fits ↦ rw (first, fits, take-append id rest, other) refl
    ]
