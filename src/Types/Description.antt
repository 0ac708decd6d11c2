-- ===== src/Types/Description.antt =====
-- types/types.go: the description of a type, ToType, and the type of a description, ToReflect.
-- What reflect says of a type, whether it has a name, the types that reflect makes, and the address
-- of the type byte are parameters.
pub mod Graph
pub mod Growth
pub mod Fill
pub mod Terminates
pub mod Rebuild
pub mod Reading
pub mod RoundTrip
use coroutine_durable_fork.Prelude.{
  ℕ, zero, suc, ◌+◌, ◌-◌, ◌*◌, ◌/◌, ◌%◌, ◌^◌, Bool, true, false, not, ◌&&◌, ◌||◌, List, [], ◌∷◌,
  ◌++◌, Option, none, some, ◌==◌, ltb, leb, if◌then◌else◌, length, take, drop, get_elem?,
}
use coroutine_durable_fork.Types.Info.{
  Typekind, type_none, type_custom, type_basic, type_pointer, type_map, type_array, type_slice,
  type_struct, type_func, type_chan, ChanDir, no_dir, recv_dir, send_dir, both_dir, Field, Info,
  blank, Direction, unset, recv, send, both, StructField, Shape, basic, array, map_of, pointer_to,
  unsafe_pointer, slice_of, struct_of, func_of, chan_of,
}
use coroutine_durable_fork.Types.Typemap.{
  Serde, Typemap, Outcome, gives, out_of_fuel, M, ◌>>=◌, give, fail, expect, invalid_kind,
  unsupported_kind, unknown_basic, out_of_range, reflect_panic, serde_of, get_k, get_v, add,
  allocate, write_info, load,
}

-- The kinds from reflect.Bool to reflect.Complex128, reflect.Interface and reflect.String.
abbrev pub is_basic : ℕ → Bool
is_basic k = (leb 1 k && leb k 16) || k == 20 || k == 24

abbrev pub boolint : Bool → ℕ
boolint true = 1
boolint false = 0

abbrev pub dir_of : Direction → ChanDir
dir_of unset = no_dir
dir_of recv = recv_dir
dir_of send = send_dir
dir_of both = both_dir

abbrev pub direction : ChanDir → Direction
direction no_dir = unset
direction recv_dir = recv
direction send_dir = send
direction both_dir = both

-- The method IsExported of reflect.StructField.
abbrev pub is_exported : StructField → Bool
is_exported f = elim f.pkg_path [ [] ↦ true | _ ∷ _ ↦ false ]

abbrev pub Rec : Type 0
Rec = ℕ → M ℕ

-- What the cache has.
abbrev pub cached_or : Option ℕ → M ℕ → M ℕ
cached_or (some x) f = give x
cached_or none f = f

abbrev pub add_new : ℕ → Info → M ℕ
add_new t i = allocate i >>= add t

unfoldable pub to_types : Rec → List ℕ → M (List ℕ)
to_types rec [] = give []
to_types rec (t ∷ ts) = do p ← rec t; ps ← to_types rec ts; give (p ∷ ps)

abbrev pub field_of : StructField → ℕ → Field
field_of f p = record {
  name = f.name;
  typ = p;
  index = f.index;
  offset = f.offset;
  anon = f.anonymous;
  tag = f.tag;
}

unfoldable pub to_fields : Rec → List StructField → M (List Field)
to_fields rec [] = give []
to_fields rec (f ∷ fs) = do p ← rec f.typ; ps ← to_fields rec fs; give (field_of f p ∷ ps)

-- The fields of the new StructField, with no package path.
abbrev pub struct_field : Field → ℕ → StructField
struct_field f t = record {
  name = f.name;
  pkg_path = [];
  typ = t;
  tag = f.tag;
  offset = f.offset;
  index = f.index;
  anonymous = f.anon;
}

unfoldable pub struct_fields : Rec → List Field → M (List StructField)
struct_fields rec [] = give []
struct_fields rec (f ∷ fs) = do
  t ← rec f.typ
  ts ← struct_fields rec fs
  give (struct_field f t ∷ ts)

module _ (byte : ℕ) where
  abbrev pub offset_for_type : ℕ → ℕ
  offset_for_type t = (t + (2 ^ 64 - byte)) % 2 ^ 64

  abbrev pub type_for_offset : ℕ → ℕ
  type_for_offset o = (byte + o) % 2 ^ 64

  -- The offset after the loop over the fields.
  abbrev pub field_offset : ℕ → ℕ → List StructField → ℕ
  field_offset t o [] = o
  field_offset t o (f ∷ fs) =
      if not (is_exported f) && o == 0 then offset_for_type t else field_offset t o fs

  -- The switch of ToType on the kind, with the offset of the name. Nothing reads a description
  -- that is being filled, so that it is written at once.
  unfoldable pub fill : Rec → ℕ → ℕ → Shape → M Info
  unfolding to_types to_fields
  fill rec t o (basic k) =
      if k == 0
      then fail invalid_kind
      else if is_basic k
      then give (record (blank o) { kind = type_basic; val = k })
      else fail unsupported_kind
  fill rec t o (array n e) = do
    p ← rec e
    give (record (blank o) { kind = type_array; val = n; elem = p })
  fill rec t o (map_of k e) = do
    q ← rec k
    p ← rec e
    give (record (blank o) { kind = type_map; key = q; elem = p })
  fill rec t o (pointer_to e) = do
    p ← rec e
    give (record (blank o) { kind = type_pointer; elem = p })
  fill rec t o unsafe_pointer = give (record (blank o) { kind = type_pointer; elem = 0 })
  fill rec t o (slice_of e) = do p ← rec e; give (record (blank o) { kind = type_slice; elem = p })
  fill rec t o (struct_of fs) = do
    ps ← to_fields rec fs
    give (record (blank (field_offset t o fs)) { kind = type_struct; fields = ps })
  fill rec t o (func_of ins outs variadic) = do
    ps ← to_types rec ins
    qs ← to_types rec outs
    give (record (blank o) {
      kind = type_func;
      val = 2 * length ins + boolint variadic;
      args = ps ++ qs;
    })
  fill rec t o (chan_of d e) = do
    p ← rec e
    give (record (blank o) { kind = type_chan; elem = p; dir = dir_of d })

  module _ (describe : ℕ → Shape) (named : ℕ → Bool) where
    abbrev pub name_offset : ℕ → ℕ
    name_offset t = if named t then offset_for_type t else 0

    abbrev pub describe_type : Rec → ℕ → M ℕ
    describe_type rec t = do
      p ← add_new t (blank (name_offset t))
      i ← fill rec t (name_offset t) (describe t)
      _ ← write_info p i
      give p

    abbrev pub with_serde : Rec → ℕ → Option Serde → M ℕ
    with_serde rec t (some s) =
        add_new t (record (blank (name_offset t)) { kind = type_custom; val = s.id })
    with_serde rec t none = describe_type rec t

    abbrev pub new_info : Rec → ℕ → M ℕ
    new_info rec t m = if t == 0 then add_new 0 (blank 0) m else with_serde rec t (serde_of t m) m

    unfoldable pub to_type : ℕ → Rec
    unfolding fill
    to_type zero t m = out_of_fuel
    to_type (suc n) t m = cached_or (get_k t m) (new_info (to_type n) t) m

  module _ (make : Shape → Option ℕ) where
    abbrev pub make_type : Shape → M ℕ
    make_type s = expect reflect_panic (make s)

    abbrev pub make_func : ℕ → List ℕ → M ℕ
    make_func v ts =
        if ltb (length ts) (v / 2)
        then fail out_of_range
        else make_type (func_of (take (v / 2) ts) (drop (v / 2) ts) (v % 2 == 1))

    -- The switch of reflectType on the kind.
    unfoldable pub by_kind : Rec → Info → Typekind → M ℕ
    unfolding struct_fields
    by_kind rec i type_none = give 0
    by_kind rec i type_custom = λ m. expect out_of_range (get_elem? m.custom i.val) m
    by_kind rec i type_basic =
        if is_basic i.val then make_type (basic i.val) else fail unknown_basic
    by_kind rec i type_pointer =
        if i.elem == 0
        then make_type unsafe_pointer
        else rec i.elem >>= (λ t. make_type (pointer_to t))
    by_kind rec i type_map = do k ← rec i.key; e ← rec i.elem; make_type (map_of k e)
    by_kind rec i type_array = do e ← rec i.elem; make_type (array i.val e)
    by_kind rec i type_slice = do e ← rec i.elem; make_type (slice_of e)
    by_kind rec i type_struct = do fs ← struct_fields rec i.fields; make_type (struct_of fs)
    by_kind rec i type_func = do ts ← to_types rec i.args; make_func i.val ts
    by_kind rec i type_chan = do e ← rec i.elem; make_type (chan_of (direction i.dir) e)

    unfoldable pub reflect_type : Rec → Info → M ℕ
    unfolding by_kind
    reflect_type rec i =
        if i.offset == 0 then by_kind rec i i.kind else give (type_for_offset i.offset)

    abbrev pub rebuild : Rec → ℕ → M ℕ
    rebuild rec p = do i ← load p; t ← reflect_type rec i; _ ← add t p; give t

    unfoldable pub to_reflect : ℕ → Rec
    unfolding reflect_type
    to_reflect zero p m = out_of_fuel
    to_reflect (suc n) p m = cached_or (get_v p m) (rebuild (to_reflect n) p) m

    -- The end of deserializeType, on the description that was read.
    unfoldable pub deserialize_type : ℕ → ℕ → M ℕ
    deserialize_type n p = do i ← load p; reflect_type (to_reflect n) i
