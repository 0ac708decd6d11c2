-- ===== src/Compiler/TypeExpr/Meaning.antt =====
-- What the expressions of typeExpr mean in the package that they are written in.
use coroutine_durable_fork.Prelude.{
  ℕ, Bool, true, false, not, ◌&&◌, Option, none, some, ◌==◌, if◌then◌else◌,
}
use coroutine_durable_fork.Compiler.TypeExpr.{
  Package, Basic, bool, other_basic, untyped, SourceType, basic, slice, pointer, array, map_of,
  struct, interface, signature, named, chan, other_type, SourceTypes, SourceFields, Ident,
  predeclared, any, object, Expr, ident, selector, slice_type, star_expr, array_type, map_type,
  struct_type, func_type, index_list, chan_type, Exprs, ExprFields, expr_then, typed_basic,
}

-- A type with type arguments.
abbrev instantiate : SourceType → SourceTypes → Option SourceType
instantiate (named n p SourceTypes.nil) ts = some (named n p ts)
instantiate t ts = none

-- The types that the expressions mean, where the package `own` declares these names, and other
-- names are those of the universe.
module _ (own : ℕ) (declares : ℕ → Bool) where
  -- The text of an untyped type names no type.
  abbrev pub basic_named : Basic → Option SourceType
  basic_named bool = some (basic bool)
  basic_named (other_basic i) = some (basic (other_basic i))
  basic_named _ = none

  abbrev pub meaning_of : Ident → Option SourceType
  meaning_of (predeclared b) = basic_named b
  meaning_of any = some (interface true 0)
  meaning_of (object n) = some (named n (if declares n then some own else none) SourceTypes.nil)

  unfoldable mutual
    pub meaning : Expr → Option SourceType
    meaning (ident i) = meaning_of i
    meaning (selector p n) = some (named n (some p) SourceTypes.nil)
    meaning (slice_type e) = expr_then (meaning e) (λ t. some (slice t))
    meaning (star_expr e) = expr_then (meaning e) (λ t. some (pointer t))
    meaning (array_type n e) = expr_then (meaning e) (λ t. some (array n t))
    meaning (map_type d e) =
        expr_then (meaning d) (λ k. expr_then (meaning e) (λ t. some (map_of k t)))
    meaning (struct_type es) = expr_then (fields_meaning es) (λ fs. some (struct fs))
    meaning (func_type ds es) =
        expr_then (meanings ds) (λ ps. expr_then (meanings es) (λ rs. some (signature ps rs false)))
    meaning (index_list e es) =
        expr_then (meaning e) (λ t. expr_then (meanings es) (λ ts. instantiate t ts))
    meaning (chan_type d e) = expr_then (meaning e) (λ t. some (chan d t))

    pub meanings : Exprs → Option SourceTypes
    meanings Exprs.nil = some SourceTypes.nil
    meanings (Exprs.cons e es) =
        expr_then (meaning e) (λ t. expr_then (meanings es) (λ ts. some (SourceTypes.cons t ts)))

    pub fields_meaning : ExprFields → Option SourceFields
    fields_meaning ExprFields.no_fields = some SourceFields.no_fields
    fields_meaning (ExprFields.field n e es) =
        expr_then (meaning e)
          (λ t. expr_then (fields_meaning es) (λ fs. some (SourceFields.field n t false fs)))

  -- A name means the type in its package: names of the package are declared, those of the universe
  -- are not.
  abbrev pub is_visible : ℕ → Package → Bool
  is_visible n none = not (declares n)
  is_visible n (some p) = if own == p then declares n else true

  unfoldable mutual
    pub are_visible : SourceType → Bool
    are_visible (basic b) = true
    are_visible (slice t) = are_visible t
    are_visible (pointer t) = are_visible t
    are_visible (array n t) = are_visible t
    are_visible (map_of k t) = are_visible k && are_visible t
    are_visible (struct fs) = fields_visible fs
    are_visible (interface e i) = true
    are_visible (signature ps rs v) = all_visible ps && all_visible rs
    are_visible (named n p args) = is_visible n p && all_visible args
    are_visible (chan d t) = are_visible t
    are_visible (other_type i) = true

    pub all_visible : SourceTypes → Bool
    all_visible SourceTypes.nil = true
    all_visible (SourceTypes.cons t ts) = are_visible t && all_visible ts

    pub fields_visible : SourceFields → Bool
    fields_visible SourceFields.no_fields = true
    fields_visible (SourceFields.field n t tagged fs) = are_visible t && fields_visible fs

abbrev pub has_name : Basic → Bool
has_name (untyped i) = false
has_name b = true

-- No interface with methods, no tag, no type of another kind, and no untyped one but bool.
unfoldable mutual
  pub is_supported : SourceType → Bool
  is_supported (basic b) = has_name b
  is_supported (slice t) = is_supported t
  is_supported (pointer t) = is_supported t
  is_supported (array n t) = is_supported t
  is_supported (map_of k t) = is_supported k && is_supported t
  is_supported (struct fs) = fields_supported fs
  is_supported (interface e i) = e
  is_supported (signature ps rs v) = all_supported ps && all_supported rs
  is_supported (named n p args) = all_supported args
  is_supported (chan d t) = is_supported t
  is_supported (other_type i) = false

  pub all_supported : SourceTypes → Bool
  all_supported SourceTypes.nil = true
  all_supported (SourceTypes.cons t ts) = is_supported t && all_supported ts

  pub fields_supported : SourceFields → Bool
  fields_supported SourceFields.no_fields = true
  fields_supported (SourceFields.field n t tagged fs) =
      is_supported t && (not tagged && fields_supported fs)

-- The type with an untyped bool args a bool, one empty interface, and without variadics.
unfoldable mutual
  pub typed : SourceType → SourceType
  typed (basic b) = basic (typed_basic b)
  typed (slice t) = slice (typed t)
  typed (pointer t) = pointer (typed t)
  typed (array n t) = array n (typed t)
  typed (map_of k t) = map_of (typed k) (typed t)
  typed (struct fs) = struct (fields_typed fs)
  typed (interface e i) = interface e 0
  typed (signature ps rs v) = signature (all_typed ps) (all_typed rs) false
  typed (named n p args) = named n p (all_typed args)
  typed (chan d t) = chan d (typed t)
  typed (other_type i) = other_type i

  pub all_typed : SourceTypes → SourceTypes
  all_typed SourceTypes.nil = SourceTypes.nil
  all_typed (SourceTypes.cons t ts) = SourceTypes.cons (typed t) (all_typed ts)

  pub fields_typed : SourceFields → SourceFields
  fields_typed SourceFields.no_fields = SourceFields.no_fields
  fields_typed (SourceFields.field n t tagged fs) =
      SourceFields.field n (typed t) tagged (fields_typed fs)
