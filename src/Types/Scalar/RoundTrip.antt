-- ===== src/Types/Scalar/RoundTrip.antt =====
-- What the serializers of types/reflect.go write for numbers and booleans is read back.
use coroutine_durable_fork.Prelude.{
  ℕ, zero, suc, ◌/◌, ◌%◌, ◌<◌, ◌≡◌, refl, ap, ◌∙◌, List, ◌++◌, some, arith, append_assoc,
}
use native.Mathlib.Nat.{mod-lt, mod-eq_of_lt}
use coroutine_durable_fork.Prelude.Int.{ℤ, pos, negsuc}
use coroutine_durable_fork.Types.Scalar.{
  values, little_endian, above_byte, from_little_endian, to_unsigned, to_signed, Read, read_then,
}

-- The bytes of a value: they are appended, and read back they give the value, with what follows.
abbrev pub RoundTrips : {A : Type 0} → (A → List ℕ → List ℕ) → Read A → A → Type 0
RoundTrips ser des x =
    (bytes : List ℕ) × (((b : List ℕ) → ser x b ≡ b ++ bytes)
      × ((rest : List ℕ) → des (bytes ++ rest) ≡ some (x, rest)))

pub from_little_endian-little_endian :
    (w x : ℕ) (rest : List ℕ)
    → x < values w
    → from_little_endian w (little_endian w x ++ rest) ≡ some (x, rest)
unfolding from_little_endian little_endian
from_little_endian-little_endian zero x rest h = ap (λ n. some (n, rest)) (omega (arith, h))
from_little_endian-little_endian (suc w) x rest h =
    ap (above_byte (x % 256)) (from_little_endian-little_endian w (x / 256) rest (omega (arith, h)))
    ∙ ap (λ n. some (n, rest)) (omega arith)

-- The range of a signed number of so many bytes.
abbrev pub IsSigned : ℕ → ℤ → Type 0
IsSigned w (pos n) = n < values w / 2
IsSigned w (negsuc n) = n < values w / 2

values_pos : (w : ℕ) → 0 < values w
values_pos zero = omega arith
values_pos (suc w) = omega (arith, values_pos w)

pub to_unsigned_bound : (w : ℕ) (x : ℤ) → to_unsigned w x < values w
unfolding to_unsigned
to_unsigned_bound w (pos n) = mod-lt n (values_pos w)
to_unsigned_bound w (negsuc n) = omega (arith, values_pos w)

pub to_signed-to_unsigned : (w : ℕ) (x : ℤ) → IsSigned w x → to_signed w (to_unsigned w x) ≡ x
unfolding to_signed to_unsigned
to_signed-to_unsigned w (pos n) h =
    let e : n % values w ≡ n = mod-eq_of_lt (omega arith) in rw e (ground arith)
to_signed-to_unsigned w (negsuc n) h =
    let e : n % values w ≡ n = mod-eq_of_lt (omega arith) in rw e (ground arith)

pub signed-RoundTrips :
    (w : ℕ) (x : ℤ)
    → IsSigned w x
    → RoundTrips
        (λ x b. b ++ little_endian w (to_unsigned w x))
        (λ b. read_then (from_little_endian w b) (λ u b. some (to_signed w u, b)))
        x
signed-RoundTrips w x h = (
  little_endian w (to_unsigned w x),
  (
    (λ b. refl),
    λ rest.
        ap (λ o. read_then o (λ u b. some (to_signed w u, b)))
          (from_little_endian-little_endian w (to_unsigned w x) rest (to_unsigned_bound w x))
        ∙ ap (λ z. some (z, rest)) (to_signed-to_unsigned w x h),
  ),
)

pub unsigned-RoundTrips :
    (w x : ℕ) → x < values w → RoundTrips (λ x b. b ++ little_endian w x) (from_little_endian w) x
unsigned-RoundTrips w x h =
    (little_endian w x, ((λ b. refl), λ rest. from_little_endian-little_endian w x rest h))

-- Two values, the second behind the first, as parts of one.
pub join-RoundTrips :
    {A B C : Type 0} (ser : A → List ℕ → List ℕ) (des : Read A) (ser' : B → List ℕ → List ℕ)
    (des' : Read B) (f : A → B → C) (x : A) (y : B)
    → RoundTrips ser des x
    → RoundTrips ser' des' y
    → (bytes : List ℕ) × (((b : List ℕ) → ser' y (ser x b) ≡ b ++ bytes)
        × ((rest : List ℕ)
            → read_then {B = C × List ℕ}
                (des (bytes ++ rest))
                (λ x b. read_then {B = C × List ℕ} (des' b) (λ y b. some (f x y, b)))
              ≡ some (f x y, rest)))
join-RoundTrips {C = C} ser des ser' des' f x y (bs, (w, r)) (cs, (w', r')) = (
  bs ++ cs,
  (
    (λ b. w' (ser x b) ∙ ap (λ v. v ++ cs) (w b) ∙ append_assoc b bs cs),
    λ rest.
        ap
          (λ v.
            read_then {B = C × List ℕ} (des v)
              (λ x b. read_then {B = C × List ℕ} (des' b) (λ y b. some (f x y, b))))
          (append_assoc bs cs rest)
        ∙ ap
            (λ o.
              read_then {B = C × List ℕ} o
                (λ x b. read_then {B = C × List ℕ} (des' b) (λ y b. some (f x y, b))))
            (r (cs ++ rest))
        ∙ ap (λ o. read_then {B = C × List ℕ} o (λ y b. some (f x y, b))) (r' rest),
  ),
)
