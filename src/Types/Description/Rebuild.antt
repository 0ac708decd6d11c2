-- ===== src/Types/Description/Rebuild.antt =====
-- ToReflect, on the descriptions that ToType makes.
use coroutine_durable_fork.Prelude.{
  ℕ, ◌+◌, ◌*◌, ◌/◌, ◌%◌, ◌^◌, ◌<◌, ◌≡◌, ◌≢◌, ◌⊎◌, refl, sym, ap, subst, ◌∙◌, Bool, Bool-cases, true,
  false, inl, inr, List, [], ◌∷◌, ◌++◌, arith, ◌==◌, ==_iff, length, take, drop, not, ◌&&◌,
}
use mathlib.Core.List.{Memᴰ}
use mathlib.Core.List.Memᴰ.{not-nil, cases_cons}
use coroutine_durable_fork.Types.Info.{
  Info, Direction, unset, recv, send, both, StructField, Shape, basic, array, map_of, pointer_to,
  slice_of, chan_of, struct_of, func_of, unsafe_pointer,
}
use coroutine_durable_fork.Types.Description.{
  is_exported, boolint, dir_of, direction, offset_for_type, type_for_offset, field_offset,
  name_offset,
}
use coroutine_durable_fork.Types.Description.Graph.{
  Fills, fills_basic, fills_array, fills_map, fills_pointer, fills_unsafe_pointer, fills_slice,
  fills_struct, fills_func, fills_chan,
}

-- The offset in a description of a type of this shape.
abbrev pub type_offset : ℕ → ℕ → ℕ → Shape → ℕ
type_offset byte t o (struct_of fs) = field_offset byte t o fs
type_offset byte t o _ = o

pub type_for_offset-offset_for_type :
    (byte t : ℕ) → byte < 2 ^ 64 → t < 2 ^ 64 → type_for_offset byte (offset_for_type byte t) ≡ t
type_for_offset-offset_for_type byte t h k = omega (arith, h, k)

pub offset-zero : (byte t : ℕ) → byte < 2 ^ 64 → t < 2 ^ 64 → offset_for_type byte t ≡ 0 → t ≡ byte
offset-zero byte t h k e = omega (arith, h, k, e)

pub direction-dir_of : (d : Direction) → direction (dir_of d) ≡ d
direction-dir_of unset = refl
direction-dir_of recv = refl
direction-dir_of send = refl
direction-dir_of both = refl

pub take-length : (xs ys : List ℕ) → take (length xs) (xs ++ ys) ≡ xs
take-length [] ys = refl
take-length (x ∷ xs) ys = ap (λ zs. x ∷ zs) (take-length xs ys)

pub drop-length : (xs ys : List ℕ) → drop (length xs) (xs ++ ys) ≡ ys
drop-length [] ys = refl
drop-length (x ∷ xs) ys = drop-length xs ys

pub half : (n : ℕ) (b : Bool) → (2 * n + boolint b) / 2 ≡ n
half n true = omega arith
half n false = omega arith

pub odd : (n : ℕ) (b : Bool) → ((2 * n + boolint b) % 2 == 1) ≡ b
odd n true = (==_iff ((2 * n + 1) % 2) 1).1 (omega arith)
odd n false = ground arith

-- The offset of the loop over the fields is 0 only where no field is unexported.
module _ (byte t : ℕ) (nz : offset_for_type byte t ≢ 0) where
  field_offset-all :
      (fs : List StructField)
      → field_offset byte t 0 fs ≡ 0
      → (f : StructField) → Memᴰ f fs
      → is_exported f ≡ true
  field_offset-all [] e f m = absurd (not-nil m)
  field_offset-all (g ∷ fs) e f m = elim (Bool-cases (is_exported g)) [
    | inl x ↦
        let step : field_offset byte t 0 (g ∷ fs) ≡ field_offset byte t 0 fs = rw x refl in
        elim (cases_cons m) [
          | inl s ↦ subst (λ h. is_exported h ≡ true) (sym s) x
          | inr k ↦ field_offset-all fs (sym step ∙ e) f k
        ]
    | inr x ↦
        let step : field_offset byte t 0 (g ∷ fs) ≡ offset_for_type byte t = rw x refl in
        absurd (nz (sym step ∙ e))
  ]

  field_offset-zero : (o : ℕ) (fs : List StructField) → field_offset byte t o fs ≡ 0 → o ≡ 0
  field_offset-zero o [] e = e
  field_offset-zero o (f ∷ fs) e = elim (Bool-cases (not (is_exported f) && o == 0)) [
    | inl x ↦
        let step : field_offset byte t o (f ∷ fs) ≡ offset_for_type byte t = rw x refl in
        absurd (nz (sym step ∙ e))
    | inr x ↦
        let step : field_offset byte t o (f ∷ fs) ≡ field_offset byte t o fs = rw x refl in
        field_offset-zero o fs (sym step ∙ e)
  ]

  pub field_offset-exported :
      (o : ℕ) (fs : List StructField)
      → field_offset byte t o fs ≡ 0
      → (f : StructField) → Memᴰ f fs
      → is_exported f ≡ true
  field_offset-exported o fs e =
      field_offset-all fs (subst (λ x. field_offset byte t x fs ≡ 0) (field_offset-zero o fs e) e)

-- An offset that is not 0 is the type's.
pub field_offset-own :
    (byte t o : ℕ) (fs : List StructField)
    → ((o ≡ 0) ⊎ (o ≡ offset_for_type byte t))
    → (field_offset byte t o fs ≡ 0) ⊎ (field_offset byte t o fs ≡ offset_for_type byte t)
field_offset-own byte t o [] h = h
field_offset-own byte t o (f ∷ fs) h = elim (Bool-cases (not (is_exported f) && o == 0)) [
  | inl x ↦ rw x (inr refl)
  | inr x ↦ rw x (field_offset-own byte t o fs h)
]

pub name_offset-own :
    (byte : ℕ) (describe : ℕ → Shape) (named : ℕ → Bool) (t : ℕ)
    → (name_offset byte describe named t ≡ 0)
      ⊎ (name_offset byte describe named t ≡ offset_for_type byte t)
name_offset-own byte describe named t = elim (Bool-cases (named t)) [
  | inl e ↦ rw e (inr refl)
  | inr e ↦ rw e (inl refl)
]

pub Fills-offset :
    (byte : ℕ) (k : List (ℕ × ℕ)) (t o : ℕ) (s : Shape) (i : Info)
    → Fills byte k t o s i
    → i.offset ≡ type_offset byte t o s
Fills-offset byte k t o _ _ (fills_basic n b) = refl
Fills-offset byte k t o _ _ (fills_array n u p a) = refl
Fills-offset byte k t o _ _ (fills_map n u r p a b) = refl
Fills-offset byte k t o _ _ (fills_pointer u p a) = refl
Fills-offset byte k t o _ _ fills_unsafe_pointer = refl
Fills-offset byte k t o _ _ (fills_slice u p a) = refl
Fills-offset byte k t o _ _ (fills_struct fs ps a) = refl
Fills-offset byte k t o _ _ (fills_func ins outs ps qs v a b) = refl
Fills-offset byte k t o _ _ (fills_chan dd u p a) = refl

pub type_offset-own :
    (byte t o : ℕ) (s : Shape)
    → ((o ≡ 0) ⊎ (o ≡ offset_for_type byte t))
    → (type_offset byte t o s ≡ 0) ⊎ (type_offset byte t o s ≡ offset_for_type byte t)
type_offset-own byte t o (basic k) h = h
type_offset-own byte t o (array n e) h = h
type_offset-own byte t o (map_of k e) h = h
type_offset-own byte t o (pointer_to e) h = h
type_offset-own byte t o unsafe_pointer h = h
type_offset-own byte t o (slice_of e) h = h
type_offset-own byte t o (struct_of fs) h = field_offset-own byte t o fs h
type_offset-own byte t o (func_of a b c) h = h
type_offset-own byte t o (chan_of d e) h = h
