-- ===== src/Compiler/Constraint/Laws.antt =====
-- What the build constraints of the compiler's files mean.
use Prim.Native.String.{String}
use text.Mathlib.TextEquality.{eq_iff}
use coroutine_durable_fork.Prelude.{
  Bool, true, not, ◌&&◌, ◌||◌, List, [], ◌∷◌, ◌++◌, Option, none, some, ◌≡◌, refl, arith, ap,
}
use coroutine_durable_fork.Compiler.Constraint.{
  Expr, tag, not_, and, or, deep_equal, contains_expr, with_build_tag, without_build_tag, File,
  comment_groups_of, go_build_in, go_build, plus_build_in, plus_build, parse_build_tags,
  strip_group, strip_groups, doc_groups, strip_doc, strip_build_tags_of,
}

-- Whether a file is built, where `on` says which tags are set. A file with no constraint is.
unfoldable pub holds : (String → Bool) → Expr → Bool
holds on (tag t) = on t
holds on (not_ x) = not (holds on x)
holds on (and x y) = holds on x && holds on y
holds on (or x y) = holds on x || holds on y

abbrev pub built : (String → Bool) → Option Expr → Bool
built on none = true
built on (some x) = holds on x

deep_equal-eq : (x y : Expr) → deep_equal x y ≡ true → x ≡ y
unfolding deep_equal
deep_equal-eq (tag s) (tag t) e = ap tag ((eq_iff s t).0 e)
deep_equal-eq (not_ x) (not_ y) e = ap not_ (deep_equal-eq x y e)
deep_equal-eq (and x y) (and z w) e = ground (arith, deep_equal-eq x z, deep_equal-eq y w)
deep_equal-eq (or x y) (or z w) e = ground (arith, deep_equal-eq x z, deep_equal-eq y w)
deep_equal-eq _ _ e = cc

-- What containsExpr finds follows from the constraint.
contains_implies :
    (on : String → Bool) (x c : Expr)
    → contains_expr x c ≡ true
    → (holds on x && holds on c) ≡ holds on x
unfolding contains_expr holds
contains_implies on (and x y) c e = ground (arith, contains_implies on x c, contains_implies on y c)
contains_implies on (or x y) c e = ground (arith, contains_implies on x c, contains_implies on y c)
contains_implies on (tag s) c e = rw (← deep_equal-eq (tag s) c e) (ground arith)
contains_implies on (not_ x) c e = rw (← deep_equal-eq (not_ x) c e) (ground arith)

-- The constraint of the durable file holds where that of the source file does and the tag is set;
-- the source file is left to the builds without the tag. So a build has exactly one of the two
-- wherever the source file was built before.
pub build_tags_split :
    (on : String → Bool) (x : Option Expr) (t : String)
    → (built on (with_build_tag x (some t)) ≡ (built on x && on t))
      × (built on (without_build_tag x (some t)) ≡ (built on x && not (on t)))
unfolding with_build_tag without_build_tag holds
build_tags_split on none t = (ground arith, ground arith)
build_tags_split on (some x) t = (
  ground (arith, contains_implies on x (tag t)),
  ground (arith, contains_implies on x (not_ (tag t))),
)

module _ (is_go_build is_plus_build : String → Bool) (parse : String → Option Expr) where
  go_build-strip :
      (g : List String) → go_build_in is_go_build (strip_group is_go_build is_plus_build g) ≡ none
  unfolding go_build_in strip_group
  go_build-strip [] = refl
  go_build-strip (c ∷ cs) = ground (arith, go_build-strip cs)

  plus_build-strip :
      (x : Option Expr) (g : List String)
      → plus_build_in is_go_build is_plus_build parse x (strip_group is_go_build is_plus_build g)
        ≡ some x
  unfolding plus_build_in strip_group
  plus_build-strip x [] = refl
  plus_build-strip x (c ∷ cs) = ground (arith, plus_build-strip x cs)

  -- The stripped groups of a file, in the order of commentGroupsOf.
  go_build-strip_all :
      (gs : List (List String))
      → go_build is_go_build (strip_groups is_go_build is_plus_build gs) ≡ none
  unfolding go_build
  go_build-strip_all [] = refl
  go_build-strip_all (g ∷ gs) = rw (go_build-strip g) (go_build-strip_all gs)

  plus_build-strip_all :
      (gs : List (List String))
      → plus_build is_go_build is_plus_build parse none (strip_groups is_go_build is_plus_build gs)
        ≡ some none
  unfolding plus_build
  plus_build-strip_all [] = refl
  plus_build-strip_all (g ∷ gs) = rw (plus_build-strip none g) (plus_build-strip_all gs)

  doc-strip :
      (d : Option (List String))
      → doc_groups (strip_doc is_go_build is_plus_build d)
        ≡ strip_groups is_go_build is_plus_build (doc_groups d)
  doc-strip none = refl
  doc-strip (some g) = refl

  strip_groups-append :
      (gs hs ks : List (List String))
      → ks ≡ strip_groups is_go_build is_plus_build hs
      → strip_groups is_go_build is_plus_build gs ++ ks
        ≡ strip_groups is_go_build is_plus_build (gs ++ hs)
  strip_groups-append [] hs ks e = e
  strip_groups-append (g ∷ gs) hs ks e =
      ap (λ xs. strip_group is_go_build is_plus_build g ∷ xs) (strip_groups-append gs hs ks e)

  groups-strip :
      (f : File)
      → comment_groups_of (strip_build_tags_of is_go_build is_plus_build f)
        ≡ strip_groups is_go_build is_plus_build (comment_groups_of f)
  unfolding strip_build_tags_of
  groups-strip f =
      strip_groups-append f.comments (doc_groups f.doc)
        (doc_groups (strip_doc is_go_build is_plus_build f.doc)) (doc-strip f.doc)

  -- Once a file's build tags are stripped, it has none left to be parsed, also where its comments
  -- hold lines that the parser would reject. So what writeFile puts on top is all there is.
  pub parse-strip :
      (f : File)
      → parse_build_tags is_go_build is_plus_build parse
          (strip_build_tags_of is_go_build is_plus_build f)
        ≡ some none
  unfolding parse_build_tags
  parse-strip f =
      rw (groups-strip f, go_build-strip_all (comment_groups_of f))
        (plus_build-strip_all (comment_groups_of f))
