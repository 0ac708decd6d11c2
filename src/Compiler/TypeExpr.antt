-- ===== src/Compiler/TypeExpr.antt =====
-- typeExpr of compiler/types.go: the expression for a type. A name is a number; the identifier of an
-- imported package carries the package that is recorded for it in Uses. A panic is none.
pub mod Meaning
pub mod Denotes
use coroutine_durable_fork.Prelude.{
  ℕ, Bool, true, false, ◌&&◌, Option, none, some, List, [], ◌∷◌, ◌==◌, if◌then◌else◌,
}

-- types.Basic: an untyped type that is no bool, of a number, a string or nil, is `untyped`.
pub data Basic : Type 0 where
  bool untyped_bool : Basic
  other_basic untyped : ℕ → Basic

pub data Dir : Type 0 where
  send_recv send_only recv_only : Dir

-- A package, or none for a type of the universe.
abbrev pub Package : Type 0
Package = Option ℕ

mutual
  -- The types of go/types; a signature says whether it is variadic, and a type of another kind is
  -- `other_type`. An interface says whether it is empty, and which one it is.
  pub data SourceType : Type 0 where
    basic : Basic → SourceType
    slice pointer : SourceType → SourceType
    array : ℕ → SourceType → SourceType
    map_of : SourceType → SourceType → SourceType
    struct : SourceFields → SourceType
    interface : Bool → ℕ → SourceType
    signature : SourceTypes → SourceTypes → Bool → SourceType
    named : ℕ → Package → SourceTypes → SourceType
    chan : Dir → SourceType → SourceType
    other_type : ℕ → SourceType

  pub data SourceTypes : Type 0 where
    nil : SourceTypes
    cons : SourceType → SourceTypes → SourceTypes

  -- A field with its name, or an embedded one, whether it has a tag, and the fields behind it.
  pub data SourceFields : Type 0 where
    no_fields : SourceFields
    field : Option ℕ → SourceType → Bool → SourceFields → SourceFields

-- An identifier with the text of a basic type, which for an untyped one is as "untyped int".
pub data Ident : Type 0 where
  predeclared : Basic → Ident
  any : Ident
  object : ℕ → Ident

mutual
  -- The expressions of go/ast for types.
  pub data Expr : Type 0 where
    ident : Ident → Expr
    selector : ℕ → ℕ → Expr
    slice_type star_expr : Expr → Expr
    array_type : ℕ → Expr → Expr
    map_type : Expr → Expr → Expr
    struct_type : ExprFields → Expr
    func_type : Exprs → Exprs → Expr
    index_list : Expr → Exprs → Expr
    chan_type : Dir → Expr → Expr

  pub data Exprs : Type 0 where
    nil : Exprs
    cons : Expr → Exprs → Exprs

  pub data ExprFields : Type 0 where
    no_fields : ExprFields
    field : Option ℕ → Expr → ExprFields → ExprFields

abbrev pub expr_then : {A B : Type 0} → Option A → (A → Option B) → Option B
expr_then none f = none
expr_then (some a) f = f a

abbrev pub typed_basic : Basic → Basic
typed_basic untyped_bool = bool
typed_basic b = b

-- The name of a type, qualified if it is of another package.
abbrev pub named_expr : ℕ → ℕ → Package → Expr
named_expr own n none = ident (object n)
named_expr own n (some p) = if own == p then ident (object n) else selector p n

-- Without type arguments, the list is nil.
abbrev pub instance_of : Expr → Exprs → Expr
instance_of e Exprs.nil = e
instance_of e (Exprs.cons a args) = index_list e (Exprs.cons a args)

module _ (own : ℕ) where
  unfoldable mutual
    pub type_expr : SourceType → Option Expr
    type_expr (basic b) = some (ident (predeclared (typed_basic b)))
    type_expr (slice t) = expr_then (type_expr t) (λ e. some (slice_type e))
    type_expr (array n t) = expr_then (type_expr t) (λ e. some (array_type n e))
    type_expr (map_of k t) =
        expr_then (type_expr k) (λ d. expr_then (type_expr t) (λ e. some (map_type d e)))
    type_expr (struct fs) = expr_then (field_exprs fs) (λ es. some (struct_type es))
    type_expr (pointer t) = expr_then (type_expr t) (λ e. some (star_expr e))
    type_expr (interface true i) = some (ident any)
    type_expr (interface false i) = none
    type_expr (signature ps rs variadic) =
        expr_then (new_fields ps) (λ ds. expr_then (new_fields rs) (λ es. some (func_type ds es)))
    type_expr (named n p args) =
        expr_then (new_fields args) (λ es. some (instance_of (named_expr own n p) es))
    type_expr (chan d t) = expr_then (type_expr t) (λ e. some (chan_type d e))
    type_expr (other_type i) = none

    pub new_fields : SourceTypes → Option Exprs
    new_fields SourceTypes.nil = some Exprs.nil
    new_fields (SourceTypes.cons t ts) =
        expr_then (type_expr t) (λ e. expr_then (new_fields ts) (λ es. some (Exprs.cons e es)))

    -- A tag panics after the type of its field.
    pub field_exprs : SourceFields → Option ExprFields
    field_exprs SourceFields.no_fields = some ExprFields.no_fields
    field_exprs (SourceFields.field n t tagged fs) = expr_then (type_expr t) (λ e.
        if tagged then none else expr_then (field_exprs fs) (λ es. some (ExprFields.field n e es)))
