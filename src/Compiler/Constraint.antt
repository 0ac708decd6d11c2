-- ===== src/Compiler/Constraint.antt =====
-- compiler/constraint.go and commentGroupsOf of compiler/comment.go: the build constraints of the
-- files that the compiler reads and writes. The parser of go/build/constraint and its tests for
-- `//go:build` and `// +build` lines are parameters.
pub mod Laws
use Prim.Native.String.{String}
use text.Mathlib.Text.{◌==◌ as str_eq}
use coroutine_durable_fork.Prelude.{
  Bool, true, false, not, ◌&&◌, ◌||◌, List, [], ◌∷◌, ◌++◌, Option, none, some, if◌then◌else◌,
}

pub data Expr : Type 0 where
  tag : String → Expr
  not_ : Expr → Expr
  and or : Expr → Expr → Expr

-- reflect.DeepEqual
unfoldable pub deep_equal : Expr → Expr → Bool
deep_equal (tag s) (tag t) = str_eq s t
deep_equal (not_ x) (not_ y) = deep_equal x y
deep_equal (and x y) (and z w) = deep_equal x z && deep_equal y w
deep_equal (or x y) (or z w) = deep_equal x z && deep_equal y w
deep_equal _ _ = false

unfoldable pub contains_expr : Expr → Expr → Bool
unfolding deep_equal
contains_expr (and x y) c = contains_expr x c || contains_expr y c
contains_expr (or x y) c = contains_expr x c && contains_expr y c
contains_expr (tag s) c = deep_equal (tag s) c
contains_expr (not_ x) c = deep_equal (not_ x) c

-- A file with no constraint has none; `c` is the constraint to be added.
abbrev pub contained : Option Expr → Expr → Bool
contained none c = false
contained (some x) c = contains_expr x c

abbrev pub conjoined : Option Expr → Expr → Expr
conjoined none c = c
conjoined (some x) c = and x c

unfoldable pub with_build_tag : Option Expr → Option String → Option Expr
unfolding contains_expr
with_build_tag x none = x
with_build_tag x (some t) = if contained x (tag t) then x else some (conjoined x (tag t))

unfoldable pub without_build_tag : Option Expr → Option String → Option Expr
unfolding contains_expr
without_build_tag x none = x
without_build_tag x (some t) =
    if contained x (not_ (tag t)) then x else some (conjoined x (not_ (tag t)))

-- The comments of a file, by groups, and its doc comment.
pub record File : Type 0 where
  pub comments : List (List String)
  pub doc : Option (List String)

abbrev pub doc_groups : Option (List String) → List (List String)
doc_groups none = []
doc_groups (some g) = g ∷ []

abbrev pub comment_groups_of : File → List (List String)
comment_groups_of f = f.comments ++ doc_groups f.doc

abbrev or_else : Option String → Option String → Option String
or_else none y = y
or_else (some x) y = some x

module _ (is_go_build : String → Bool) where
  -- The first `//go:build` line of a group, and of the groups.
  unfoldable pub go_build_in : List String → Option String
  go_build_in [] = none
  go_build_in (c ∷ cs) = if is_go_build c then some c else go_build_in cs

  unfoldable pub go_build : List (List String) → Option String
  unfolding go_build_in
  go_build [] = none
  go_build (g ∷ gs) = or_else (go_build_in g) (go_build gs)

abbrev joined : Option Expr → Option Expr → Option (Option Expr)
joined x none = none
joined x (some y) = some (some (conjoined x y))

abbrev then_on : Option (Option Expr) → (Option Expr → Option (Option Expr)) → Option (Option Expr)
then_on none k = none
then_on (some x) k = k x

-- `none`: the parser's error.
module _ (is_go_build is_plus_build : String → Bool) (parse : String → Option Expr) where
  -- The `// +build` lines so far, joined with those of a group, and of the groups.
  unfoldable pub plus_build_in : Option Expr → List String → Option (Option Expr)
  plus_build_in x [] = some x
  plus_build_in x (c ∷ cs) =
      then_on (if is_plus_build c then joined x (parse c) else some x) (λ y. plus_build_in y cs)

  unfoldable pub plus_build : Option Expr → List (List String) → Option (Option Expr)
  unfolding plus_build_in
  plus_build x [] = some x
  plus_build x (g ∷ gs) = then_on (plus_build_in x g) (λ y. plus_build y gs)

  abbrev parsed : Option Expr → Option (Option Expr)
  parsed none = none
  parsed (some x) = some (some x)

  abbrev choose : Option String → Option (Option Expr) → Option (Option Expr)
  choose (some c) k = parsed (parse c)
  choose none k = k

  unfoldable pub parse_build_tags : File → Option (Option Expr)
  unfolding go_build plus_build
  parse_build_tags f =
      let groups = comment_groups_of f in
      choose (go_build is_go_build groups) (plus_build none groups)

module _ (is_go_build is_plus_build : String → Bool) where
  unfoldable pub strip_group : List String → List String
  strip_group [] = []
  strip_group (c ∷ cs) =
      if is_go_build c || is_plus_build c then strip_group cs else c ∷ strip_group cs

  abbrev pub strip_groups : List (List String) → List (List String)
  strip_groups [] = []
  strip_groups (g ∷ gs) = strip_group g ∷ strip_groups gs

  abbrev pub strip_doc : Option (List String) → Option (List String)
  strip_doc none = none
  strip_doc (some g) = some (strip_group g)

  unfoldable pub strip_build_tags_of : File → File
  unfolding strip_group
  strip_build_tags_of f = record { comments = strip_groups f.comments; doc = strip_doc f.doc }
