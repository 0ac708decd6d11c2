-- ===== src/Compiler/TypeExpr/Denotes.antt =====
-- typeExpr makes an expression that means the type.
use coroutine_durable_fork.Prelude.{
  ℕ, Bool, true, false, ◌&&◌, Option, none, some, ◌≡◌, refl, sym, ap, ◌∙◌, ◌==◌, if◌then◌else◌,
  Bool-cases, both_true, not-true, inl, inr, ==_iff,
}
use coroutine_durable_fork.Compiler.TypeExpr.{
  Package, bool, untyped_bool, other_basic, untyped, SourceType, basic, slice, pointer, array,
  map_of, struct, interface, signature, named, chan, other_type, SourceTypes, SourceFields,
  slice_type, star_expr, array_type, map_type, struct_type, func_type, chan_type, Exprs, ExprFields,
  expr_then, named_expr, instance_of, type_expr, new_fields, field_exprs,
}
use coroutine_durable_fork.Compiler.TypeExpr.Meaning.{
  meaning, meanings, fields_meaning, is_visible, are_visible, all_visible, fields_visible,
  is_supported, all_supported, fields_supported, typed, all_typed, fields_typed,
}

abbrev only_if : {A : Type 0} → Bool → A → Option A
only_if c a = if c then some a else none

none_only : {A : Type 0} (c : Bool) (a : A) → none ≡ only_if c a → c ≡ false
none_only true a h = cc
none_only false a h = refl

-- An expression of one part.
one_part :
    {A B X Y : Type 0} (r : Option A) (m : A → Option X) (made : A → B) (m₁ : B → Option Y)
    (of_type : X → Y) (s : Bool) (x : X)
    → ((a : A) → m₁ (made a) ≡ expr_then (m a) (λ t. some (of_type t)))
    → expr_then r m ≡ only_if s x
    → expr_then (expr_then r (λ a. some (made a))) m₁ ≡ only_if s (of_type x)
one_part none m made m₁ of_type s x h k = rw (none_only s x k) refl
one_part (some a) m made m₁ of_type true x h k = h a ∙ rw k refl
one_part (some a) m made m₁ of_type false x h k = h a ∙ rw k refl

-- An expression of two parts.
two_parts :
    {A B C X Y Z : Type 0} (q : Option A) (r : Option B) (m : A → Option X) (m₁ : B → Option Y)
    (made : A → B → C) (m₂ : C → Option Z) (of_types : X → Y → Z) (s u : Bool) (x : X) (y : Y)
    → ((a : A) (b : B)
        → m₂ (made a b) ≡ expr_then (m a) (λ t. expr_then (m₁ b) (λ v. some (of_types t v))))
    → expr_then q m ≡ only_if s x
    → expr_then r m₁ ≡ only_if u y
    → expr_then (expr_then q (λ a. expr_then r (λ b. some (made a b)))) m₂
      ≡ only_if (s && u) (of_types x y)
two_parts none r m m₁ made m₂ of_types s u x y h k l = rw (none_only s x k) refl
two_parts (some a) none m m₁ made m₂ of_types true u x y h k l = rw (none_only u y l) refl
two_parts (some a) none m m₁ made m₂ of_types false u x y h k l = refl
two_parts (some a) (some b) m m₁ made m₂ of_types true true x y h k l = h a b ∙ rw (k, l) refl
two_parts (some a) (some b) m m₁ made m₂ of_types true false x y h k l = h a b ∙ rw (k, l) refl
two_parts (some a) (some b) m m₁ made m₂ of_types false u x y h k l = h a b ∙ rw k refl

-- A struct with a tag.
tagged :
    {A B X : Type 0} (m : B → Option X) (x : X) (r : Option A) (s : Bool)
    → expr_then {A = B} (expr_then r (λ a. none)) m ≡ only_if (s && false) x
tagged m x none true = refl
tagged m x none false = refl
tagged m x (some a) true = refl
tagged m x (some a) false = refl

module _ (own : ℕ) (declares : ℕ → Bool) where
  own_name :
      (n p : ℕ) → (own == p) ≡ true → is_visible own declares n (some p) ≡ true → declares n ≡ true
  own_name n p e h =
      let step : is_visible own declares n (some p) ≡ declares n = rw e refl in sym step ∙ h

  visible_name :
      (n : ℕ) (p : Package)
      → is_visible own declares n p ≡ true
      → meaning own declares (named_expr own n p) ≡ some (named n p SourceTypes.nil)
  unfolding meaning
  visible_name n none h = rw (not-true (declares n) h) refl
  visible_name n (some p) h = elim (Bool-cases (own == p)) [
    | inl e ↦
        let same : own ≡ p = (==_iff own p).0 e in
        let seen : declares n ≡ true = own_name n p e h in
        rw (e, seen) (ap (λ q. some (named n (some q) SourceTypes.nil)) same)
    | inr e ↦ rw e refl
  ]

  instance_meaning :
      (n : ℕ) (p : Package) (es : Exprs)
      → is_visible own declares n p ≡ true
      → meaning own declares (instance_of (named_expr own n p) es)
        ≡ expr_then (meanings own declares es) (λ ts. some (named n p ts))
  unfolding meaning
  instance_meaning n p Exprs.nil h = visible_name n p h
  instance_meaning n p (Exprs.cons e es) h = rw (visible_name n p h) refl

  mutual
    unfolding type_expr meaning are_visible is_supported typed

    means :
        (t : SourceType)
        → are_visible own declares t ≡ true
        → expr_then (type_expr own t) (meaning own declares) ≡ only_if (is_supported t) (typed t)
    means (basic bool) h = refl
    means (basic untyped_bool) h = refl
    means (basic (other_basic i)) h = refl
    means (basic (untyped i)) h = refl
    means (slice t) h =
        one_part (type_expr own t) _ slice_type _ slice (is_supported t) (typed t) (λ e. refl)
          (means t h)
    means (pointer t) h =
        one_part (type_expr own t) _ star_expr _ pointer (is_supported t) (typed t) (λ e. refl)
          (means t h)
    means (array n t) h =
        one_part (type_expr own t) _ (array_type n) _ (array n) (is_supported t) (typed t)
          (λ e. refl) (means t h)
    means (map_of k t) h =
        let (i, j) = both_true (are_visible own declares k) (are_visible own declares t) h in
        two_parts (type_expr own k) (type_expr own t) _ _ map_type _ map_of (is_supported k)
          (is_supported t) (typed k) (typed t) (λ d e. refl) (means k i) (means t j)
    means (struct fs) h =
        one_part (field_exprs own fs) _ struct_type _ struct (fields_supported fs) (fields_typed fs)
          (λ e. refl) (fields_mean fs h)
    means (interface true i) h = refl
    means (interface false i) h = refl
    means (signature ps rs v) h =
        let (i, j) = both_true (all_visible own declares ps) (all_visible own declares rs) h in
        two_parts (new_fields own ps) (new_fields own rs) _ _ func_type _
          (λ qs ss. signature qs ss false) (all_supported ps) (all_supported rs) (all_typed ps)
          (all_typed rs) (λ d e. refl) (all_mean ps i) (all_mean rs j)
    means (named n p args) h =
        let (i, j) = both_true (is_visible own declares n p) (all_visible own declares args) h in
        one_part (new_fields own args) _ (instance_of (named_expr own n p)) _ (named n p)
          (all_supported args) (all_typed args) (λ es. instance_meaning n p es i) (all_mean args j)
    means (chan d t) h =
        one_part (type_expr own t) _ (chan_type d) _ (chan d) (is_supported t) (typed t) (λ e. refl)
          (means t h)
    means (other_type i) h = refl

    all_mean :
        (ts : SourceTypes)
        → all_visible own declares ts ≡ true
        → expr_then (new_fields own ts) (meanings own declares)
          ≡ only_if (all_supported ts) (all_typed ts)
    all_mean SourceTypes.nil h = refl
    all_mean (SourceTypes.cons t ts) h =
        let (i, j) = both_true (are_visible own declares t) (all_visible own declares ts) h in
        two_parts (type_expr own t) (new_fields own ts) _ _ Exprs.cons _ SourceTypes.cons
          (is_supported t) (all_supported ts) (typed t) (all_typed ts) (λ d e. refl) (means t i)
          (all_mean ts j)

    fields_mean :
        (fs : SourceFields)
        → fields_visible own declares fs ≡ true
        → expr_then (field_exprs own fs) (fields_meaning own declares)
          ≡ only_if (fields_supported fs) (fields_typed fs)
    fields_mean SourceFields.no_fields h = refl
    fields_mean (SourceFields.field n t true fs) h = tagged _ _ (type_expr own t) (is_supported t)
    fields_mean (SourceFields.field n t false fs) h =
        let (i, j) = both_true (are_visible own declares t) (fields_visible own declares fs) h in
        two_parts (type_expr own t) (field_exprs own fs) _ _ (ExprFields.field n) _
          (λ x xs. SourceFields.field n x false xs) (is_supported t) (fields_supported fs) (typed t)
          (fields_typed fs) (λ d e. refl) (means t i) (fields_mean fs j)
