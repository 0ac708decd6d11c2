-- ===== src/Types/Description/Graph.antt =====
-- What a typemap holds: each type that is cached has a description of it, whose pointers lead to the
-- descriptions of its parts.
use coroutine_durable_fork.Prelude.{
  ℕ, ◌+◌, ◌*◌, ◌≤◌, ◌<◌, ◌≡◌, ◌≢◌, ◌⊎◌, refl, Bool, inl, true, List, [], ◌∷◌, ◌++◌, none, some,
  arith, length,
}
use coroutine_durable_fork.Prelude.Dict.{lookup, Keeps}
use coroutine_durable_fork.Types.Info.{
  type_custom, type_basic, type_pointer, type_map, type_array, type_slice, type_struct, type_func,
  type_chan, Field, Info, blank, Direction, StructField, Shape, basic, array, map_of, pointer_to,
  unsafe_pointer, slice_of, struct_of, func_of, chan_of,
}
use coroutine_durable_fork.Types.Typemap.{
  Serde, Typemap, Failure, Outcome, gives, panics, out_of_fuel, M, ◌>>=◌, get_k, get_v,
}
use coroutine_durable_fork.Types.Description.{
  is_basic, boolint, dir_of, field_of, field_offset, name_offset,
}

-- Fuel is left: a result and a typemap with the property, or a panic that is right.
pub data Ends {A : Type 0} (P : A → Typemap → Type 0) (Wrong : Failure → Type 0)
    : Outcome A → Type 0 where
  ends : (a : A) (m : Typemap) → P a m → Ends P Wrong (gives a m)
  fails : (e : Failure) → Wrong e → Ends P Wrong (panics e)

abbrev then : {A B : Type 0} → Outcome A → (A → M B) → Outcome B
then r f = elim r [ gives a m ↦ f a m | panics e ↦ panics e | out_of_fuel ↦ out_of_fuel ]

Ends-then :
    {A B : Type 0} {P : A → Typemap → Type 0} (Q : B → Typemap → Type 0) {W : Failure → Type 0}
    {r : Outcome A} (f : A → M B)
    → Ends P W r
    → ((a : A) (m : Typemap) → P a m → Ends Q W (f a m))
    → Ends Q W (then r f)
Ends-then Q f (ends a m p) h = h a m p
Ends-then Q f (fails e w) h = fails e w

pub Ends-bind :
    {A B : Type 0} {P : A → Typemap → Type 0} (Q : B → Typemap → Type 0) {W : Failure → Type 0}
    {m : Typemap} (x : M A) (f : A → M B)
    → Ends P W (x m)
    → ((a : A) (n : Typemap) → P a n → Ends Q W (f a n))
    → Ends Q W ((x >>= f) m)
Ends-bind Q x f r h = Ends-then Q f r h

pub Ends-map :
    {A : Type 0} {P : A → Typemap → Type 0} (Q : A → Typemap → Type 0) {W : Failure → Type 0}
    {r : Outcome A}
    → Ends P W r
    → ((a : A) (m : Typemap) → P a m → Q a m)
    → Ends Q W r
Ends-map Q (ends a m p) h = ends a m (h a m p)
Ends-map Q (fails e w) h = fails e w

-- The pointers of the types of a list.
pub data Points (k : List (ℕ × ℕ)) : List ℕ → List ℕ → Type 0 where
  end : Points k [] []
  point :
      (t p : ℕ) (ts ps : List ℕ) → lookup t k ≡ some p → Points k ts ps → Points k (t ∷ ts) (p ∷ ps)

pub data PointFields (k : List (ℕ × ℕ)) : List StructField → List Field → Type 0 where
  end : PointFields k [] []
  point :
      (f : StructField) (p : ℕ) (fs : List StructField) (ps : List Field)
      → lookup f.typ k ≡ some p
      → PointFields k fs ps
      → PointFields k (f ∷ fs) (field_of f p ∷ ps)

module _ (byte : ℕ) where
  -- The description of a type of this shape, with the offset of its name.
  pub data Fills (k : List (ℕ × ℕ)) (t o : ℕ) : Shape → Info → Type 0 where
    fills_basic :
        (n : ℕ)
        → is_basic n ≡ true
        → Fills k t o (basic n) (record (blank o) { kind = type_basic; val = n })
    fills_array :
        (n e p : ℕ)
        → lookup e k ≡ some p
        → Fills k t o (array n e) (record (blank o) { kind = type_array; val = n; elem = p })
    fills_map :
        (d e q p : ℕ)
        → lookup d k ≡ some q
        → lookup e k ≡ some p
        → Fills k t o (map_of d e) (record (blank o) { kind = type_map; key = q; elem = p })
    fills_pointer :
        (e p : ℕ)
        → lookup e k ≡ some p
        → Fills k t o (pointer_to e) (record (blank o) { kind = type_pointer; elem = p })
    fills_unsafe_pointer :
        Fills k t o unsafe_pointer (record (blank o) { kind = type_pointer; elem = 0 })
    fills_slice :
        (e p : ℕ)
        → lookup e k ≡ some p
        → Fills k t o (slice_of e) (record (blank o) { kind = type_slice; elem = p })
    fills_struct :
        (fs : List StructField) (ps : List Field)
        → PointFields k fs ps
        → Fills k t o
            (struct_of fs)
            (record (blank (field_offset byte t o fs)) { kind = type_struct; fields = ps })
    fills_func :
        (ins outs ps qs : List ℕ) (variadic : Bool)
        → Points k ins ps
        → Points k outs qs
        → Fills k t o (func_of ins outs variadic) (record (blank o) {
          kind = type_func;
          val = 2 * length ins + boolint variadic;
          args = ps ++ qs;
        })
    fills_chan :
        (d : Direction) (e p : ℕ)
        → lookup e k ≡ some p
        → Fills k t o
            (chan_of d e)
            (record (blank o) { kind = type_chan; elem = p; dir = dir_of d })

  module _ (describe : ℕ → Shape) (named : ℕ → Bool) (serdes : List (ℕ × Serde)) where
    pub data Describes (k : List (ℕ × ℕ)) : ℕ → Info → Type 0 where
      no_type : Describes k 0 (blank 0)
      custom_type :
          (t : ℕ) (s : Serde)
          → t ≢ 0
          → lookup t serdes ≡ some s
          → Describes k t (record (blank (name_offset byte describe named t)) {
            kind = type_custom;
            val = s.id;
          })
      shaped :
          (t : ℕ) (i : Info)
          → t ≢ 0
          → lookup t serdes ≡ none
          → Fills k t (name_offset byte describe named t) (describe t) i
          → Describes k t i

    -- The type is cached, and its description complete.
    pub record IsDescribed (m : Typemap) (t : ℕ) : Type 0 where
      pub pointer : ℕ
      pub info : Info
      pub cached : get_k t m ≡ some pointer
      pub known : pointer ≤ m.count
      pub found : lookup pointer m.infos ≡ some info
      pub right : Describes m.from_k t info

    -- The two maps of the cache agree, on pointers that are allocated.
    pub record IsSane (customs : List ℕ) (m : Typemap) : Type 0 where
      pub bounded : (t p : ℕ) → get_k t m ≡ some p → (0 < p) × (p ≤ m.count)
      pub back : (t p : ℕ) → get_k t m ≡ some p → get_v p m ≡ some t
      pub same_serdes : m.serdes ≡ serdes
      pub same_custom : m.custom ≡ customs

    -- Between two typemaps, types with complete descriptions were added.
    pub record After (customs : List ℕ) (m n : Typemap) : Type 0 where
      pub sane : IsSane customs n
      pub kept : Keeps m.from_k n.from_k
      pub grows : m.count ≤ n.count
      pub stays : (p : ℕ) → p ≤ m.count → lookup p n.infos ≡ lookup p m.infos
      pub fresh : (t p : ℕ) → get_k t n ≡ some p → (get_k t m ≡ some p) ⊎ IsDescribed n t

    pub After-refl : (customs : List ℕ) (m : Typemap) → IsSane customs m → After customs m m
    After-refl customs m s = record {
      sane = s;
      kept = λ t p h. h;
      grows = omega arith;
      stays = λ p h. refl;
      fresh = λ t p h. inl h;
    }

  pub Points-Keeps :
      (k l : List (ℕ × ℕ)) (ts ps : List ℕ) → Keeps k l → Points k ts ps → Points l ts ps
  Points-Keeps k l _ _ h end = end
  Points-Keeps k l _ _ h (point t p ts ps e r) =
      point t p ts ps (h t p e) (Points-Keeps k l ts ps h r)

  pub PointFields-Keeps :
      (k l : List (ℕ × ℕ)) (fs : List StructField) (ps : List Field)
      → Keeps k l
      → PointFields k fs ps
      → PointFields l fs ps
  PointFields-Keeps k l _ _ h end = end
  PointFields-Keeps k l _ _ h (point f p fs ps e r) =
      point f p fs ps (h f.typ p e) (PointFields-Keeps k l fs ps h r)

  pub Fills-Keeps :
      (k l : List (ℕ × ℕ)) (t o : ℕ) (s : Shape) (i : Info)
      → Keeps k l
      → Fills k t o s i
      → Fills l t o s i
  Fills-Keeps k l t o _ _ h (fills_basic n e) = fills_basic n e
  Fills-Keeps k l t o _ _ h (fills_array n e p c) = fills_array n e p (h e p c)
  Fills-Keeps k l t o _ _ h (fills_map d e q p c b) = fills_map d e q p (h d q c) (h e p b)
  Fills-Keeps k l t o _ _ h (fills_pointer e p c) = fills_pointer e p (h e p c)
  Fills-Keeps k l t o _ _ h fills_unsafe_pointer = fills_unsafe_pointer
  Fills-Keeps k l t o _ _ h (fills_slice e p c) = fills_slice e p (h e p c)
  Fills-Keeps k l t o _ _ h (fills_struct fs ps r) =
      fills_struct fs ps (PointFields-Keeps k l fs ps h r)
  Fills-Keeps k l t o _ _ h (fills_func ins outs ps qs v r s) =
      fills_func ins outs ps qs v (Points-Keeps k l ins ps h r) (Points-Keeps k l outs qs h s)
  Fills-Keeps k l t o _ _ h (fills_chan d e p c) = fills_chan d e p (h e p c)
