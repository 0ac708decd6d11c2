-- ===== src/Types/DescriptionExamples.antt =====
-- The descriptions of a pointer to a struct with such a pointer in it, and a registered type.
use coroutine_durable_fork.Prelude.{
  ℕ, ◌≡◌, refl, sym, ap, ◌∙◌, subst, Bool, false, not, inl, inr, List, [], ◌∷◌, Option, none, some,
  ◌==◌, if◌then◌else◌, arith,
}
use mathlib.Core.List.{Memᴰ}
use mathlib.Core.List.Memᴰ.{head, tail, not-nil, cases_cons}
use coroutine_durable_fork.Prelude.Dict.{none-some}
use coroutine_durable_fork.Types.Info.{
  StructField, Shape, basic, pointer_to, struct_of, blank, type_pointer, type_struct,
}
use coroutine_durable_fork.Types.Typemap.{
  serde_of, allocate, add, write_info, Typemap, gives, new_typemap, attach, IsRegistry,
}
use coroutine_durable_fork.Types.Typemap.Registry.{IsAttached, attach-IsAttached}
use coroutine_durable_fork.Types.Description.{to_type, deserialize_type, field_of}
use coroutine_durable_fork.Types.Description.Graph.{Ends}
use coroutine_durable_fork.Types.Description.Fill.{IsPart, of_pointer, of_struct, Unsupported}
use coroutine_durable_fork.Types.Description.Terminates.{
  Leads, itself, through, IsGraph, IsGraphWith, to_type-IsGraph,
}
use coroutine_durable_fork.Types.Description.Reading.{IsRebuilt, rebuilt}
use coroutine_durable_fork.Types.Description.RoundTrip.{deserialize_type-to_type}

-- The struct 2 has a name, the pointer 1 to it has none, and 100 is byte.
abbrev next : StructField
next = record {
  name = 110 ∷ [];
  pkg_path = [];
  typ = 1;
  tag = [];
  offset = 0;
  index = 0 ∷ [];
  anonymous = false;
}

abbrev shapes : ℕ → Shape
shapes t = if t == 1 then pointer_to 2 else if t == 2 then struct_of (next ∷ []) else basic 8

abbrev names : ℕ → Bool
names t = not (t == 1)

abbrev make_pointer : Shape → Option ℕ
make_pointer (pointer_to e) = if e == 2 then some 1 else none
make_pointer _ = none

abbrev types : List ℕ
types = 1 ∷ 2 ∷ []

-- After ToType for the pointer.
abbrev described : Typemap
described = record {
  custom = [];
  from_k = (2, 2) ∷ (1, 1) ∷ [];
  from_v = (2, 2) ∷ (1, 1) ∷ [];
  serdes = [];
  infos =
      (1, record (blank 0) { kind = type_pointer; elem = 2 })
      ∷ (
        2,
        record (blank 18446744073709551518) { kind = type_struct; fields = field_of next 1 ∷ [] },
      )
      ∷ (2, blank 18446744073709551518)
      ∷ (1, blank 0)
      ∷ [];
  count = 2;
}

described_so : to_type 100 shapes names 4 1 new_typemap ≡ gives 1 described
unfolding to_type serde_of allocate add write_info
described_so = refl

part_of_pointer : (e v : ℕ) → IsPart v (pointer_to e) → v ≡ e
part_of_pointer _ _ (of_pointer e) = refl

field_of_part :
    (fs : List StructField) (v : ℕ)
    → IsPart v (struct_of fs)
    → (f : StructField) × Memᴰ f fs × (v ≡ f.typ)
field_of_part _ _ (of_struct f fs m) = (f, m, refl)

part_of_struct : (v : ℕ) → IsPart v (struct_of (next ∷ [])) → v ≡ 1
part_of_struct v p =
    let f = field_of_part (next ∷ []) v p in
    elim (cases_cons (f.1)) [
      | inl e ↦ f.2 ∙ ap (λ (g : StructField). g.typ) e
      | inr k ↦ absurd (not-nil k)
    ]

leads_within : (u : ℕ) → Leads shapes [] 1 u → Memᴰ u types
leads_within _ itself = head refl
leads_within _ (through u v l z e p) = elim (cases_cons (leads_within u l)) [
  | inl x ↦ tail (head (part_of_pointer 2 v (subst (λ w. IsPart v (shapes w)) x p)))
  | inr k ↦ elim (cases_cons k) [
    | inl x ↦ head (part_of_struct v (subst (λ w. IsPart v (shapes w)) x p))
    | inr j ↦ absurd (not-nil j)
  ]
]

nothing_registered : IsRegistry [] []
nothing_registered t s h = absurd (none-some refl h)

new_typemap-IsGraph : IsGraph 100 shapes names [] [] new_typemap
new_typemap-IsGraph = record {
  sane = record {
    bounded = λ t p h. absurd (none-some refl h);
    back = λ t p h. absurd (none-some refl h);
    same_serdes = refl;
    same_custom = refl;
  };
  complete = λ t p h. absurd (none-some refl h);
}

struct-IsRebuilt : IsRebuilt 100 shapes names make_pointer [] 1 2
struct-IsRebuilt =
    rebuilt 0 2 (omega arith) (λ s. absurd (omega (arith, s.2)))
      (λ u s p. absurd (omega (arith, s.2)))

pointer-IsRebuilt : IsRebuilt 100 shapes names make_pointer [] 2 1
pointer-IsRebuilt =
    rebuilt 1 1 (omega arith) (λ s. refl)
      (λ u s p.
        subst (λ v. IsRebuilt 100 shapes names make_pointer [] 1 v) (sym (part_of_pointer 2 u p))
          struct-IsRebuilt)

to_type-IsGraph_example :
    Ends
      (IsGraphWith 100 shapes names [] [] new_typemap 1)
      (Unsupported shapes [] (Leads shapes [] 1))
      (to_type 100 shapes names 4 1 new_typemap)
to_type-IsGraph_example =
    to_type-IsGraph 100 shapes names [] [] new_typemap 1 4 types new_typemap-IsGraph leads_within
      (omega arith)

deserialize_type-to_type_example :
    (d : Typemap) × (deserialize_type 100 make_pointer 1 1
        (record new_typemap { infos = described.infos })
      ≡ gives 1 d)
deserialize_type-to_type_example =
    deserialize_type-to_type 100 shapes names make_pointer [] [] new_typemap described
      (record new_typemap { infos = described.infos }) 1 1 4 1 types (omega arith) refl
      nothing_registered new_typemap-IsGraph leads_within (omega arith) pointer-IsRebuilt
      described_so refl (λ q i h. h) (λ u q h. absurd (none-some refl h))

attach-IsAttached_example :
    (n : Typemap) × (attach 7 (some 30) (some 40) new_typemap ≡ gives tt n)
    × IsRegistry n.serdes n.custom
    × IsAttached 7 30 40 new_typemap n
attach-IsAttached_example = attach-IsAttached 7 30 40 new_typemap nothing_registered
