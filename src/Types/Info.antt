-- ===== src/Types/Info.antt =====
-- The descriptions of types of types/types.go, and what reflect says of a type. A type is the
-- address that its interface points to, and 0 is nil; so is a pointer to a description.
use coroutine_durable_fork.Prelude.{ℕ, Bool, List, []}

pub data Typekind : Type 0 where
  type_none type_custom type_basic type_pointer type_map : Typekind
  type_array type_slice type_struct type_func type_chan : Typekind

-- The zero value, and the directions.
pub data ChanDir : Type 0 where
  no_dir recv_dir send_dir both_dir : ChanDir

pub record Field : Type 0 where
  pub name : List ℕ
  pub typ : ℕ
  pub index : List ℕ
  pub offset : ℕ
  pub anon : Bool
  pub tag : List ℕ

-- typeinfo; an offset is an int by its residue modulo 2 ^ 64.
pub record Info : Type 0 where
  pub kind : Typekind
  pub offset : ℕ
  pub val : ℕ
  pub elem : ℕ
  pub key : ℕ
  pub fields : List Field
  pub args : List ℕ
  pub dir : ChanDir

-- A description with this offset and all else zero.
abbrev pub blank : ℕ → Info
blank o = record {
  kind = type_none;
  offset = o;
  val = 0;
  elem = 0;
  key = 0;
  fields = [];
  args = [];
  dir = no_dir;
}

-- reflect.ChanDir, its zero value first.
pub data Direction : Type 0 where
  unset recv send both : Direction

-- reflect.StructField.
pub record StructField : Type 0 where
  pub name : List ℕ
  pub pkg_path : List ℕ
  pub typ : ℕ
  pub tag : List ℕ
  pub offset : ℕ
  pub index : List ℕ
  pub anonymous : Bool

-- A type by the methods of reflect.Type. A type without parts has the number of its kind.
pub data Shape : Type 0 where
  basic : ℕ → Shape
  array : ℕ → ℕ → Shape
  map_of : ℕ → ℕ → Shape
  pointer_to : ℕ → Shape
  unsafe_pointer : Shape
  slice_of : ℕ → Shape
  struct_of : List StructField → Shape
  func_of : List ℕ → List ℕ → Bool → Shape
  chan_of : Direction → ℕ → Shape
