-- ===== src/Compiler/TypeExprExamples.antt =====
-- The expressions of some types.
use coroutine_durable_fork.Prelude.{ℕ, Bool, true, ◌≡◌, refl, none, some, ◌==◌}
use coroutine_durable_fork.Compiler.TypeExpr.{
  bool, untyped_bool, other_basic, untyped, SourceType, basic, slice, pointer, map_of, signature,
  named, struct, SourceTypes, SourceFields, func_type, slice_type, ident, predeclared, Exprs,
  expr_then, type_expr,
}
use coroutine_durable_fork.Compiler.TypeExpr.Meaning.{meaning}

-- In the package 5, which declares 30: map[untyped bool]*7.T40[T30].
abbrev table : SourceType
table = map_of (basic untyped_bool) (
    pointer
      (named 40 (some 7) (SourceTypes.cons (named 30 (some 5) SourceTypes.nil) SourceTypes.nil)))

abbrev has_30 : ℕ → Bool
has_30 n = n == 30

-- func(...int) becomes func([]int).
variadic_lost :
    type_expr 5 (
      signature
        (SourceTypes.cons (slice (basic (other_basic 2))) SourceTypes.nil)
        SourceTypes.nil
        true)
    ≡ some (
        func_type
          (Exprs.cons (slice_type (ident (predeclared (other_basic 2)))) Exprs.nil)
          Exprs.nil)
unfolding type_expr
variadic_lost = refl

tag_panics :
    type_expr 5 (struct (SourceFields.field (some 1) (basic bool) true SourceFields.no_fields))
    ≡ none
unfolding type_expr
tag_panics = refl

-- The identifier "untyped nil" names no type.
untyped_nil_unnamed : expr_then (type_expr 5 (basic (untyped 25))) (meaning 5 has_30) ≡ none
unfolding type_expr meaning
untyped_nil_unnamed = refl
