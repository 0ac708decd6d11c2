-- ===== src/Compiler/Desugar/State.antt =====
-- The state of the desugarer of compiler/desugar.go: the numbers of its variables and labels, the
-- labels that are not used, and the label for each of the user's. The types that it records are
-- left out. A call gives a result and the new state, panics, or runs out of fuel.
use coroutine_durable_fork.Prelude.{
  ℕ, ◌+◌, List, [], ◌∷◌, Option, none, some, ◌==◌, if◌then◌else◌, Bool,
}
use coroutine_durable_fork.Compiler.Ast.{Expr, ident, tmp}

pub record Desugarer : Type 0 where
  pub vars : ℕ
  pub labels : ℕ
  pub unused_labels : List ℕ
  pub user_labels : List (ℕ × ℕ)

pub data Panic : Type 0 where
  bad_stmt label_not_found not_implemented unexpected_case type_assertion : Panic

pub data Outcome {ℓ} (A : Type ℓ) : Type ℓ where
  done : A → Desugarer → Outcome A
  panic : Panic → Outcome A
  out_of_fuel : Outcome A

abbrev pub M : Type 0 → Type 0
M A = Desugarer → Outcome A

infixl 5 ◌>>=◌
abbrev pub ◌>>=◌ : {A B : Type 0} → M A → (A → M B) → M B
◌>>=◌ m f d = elim (m d) [ done a d₁ ↦ f a d₁ | panic p ↦ panic p | out_of_fuel ↦ out_of_fuel ]

abbrev pub give : {A : Type 0} → A → M A
give a d = done a d

abbrev pub fail : {A : Type 0} → Panic → M A
fail p d = panic p

unfoldable pub new_var : M Expr
new_var d = done (ident (tmp d.vars)) (record d { vars = d.vars + 1 })

unfoldable pub new_label : M ℕ
new_label d =
    done d.labels (record d { labels = d.labels + 1; unused_labels = d.labels ∷ d.unused_labels })

-- addUserLabel, under its test for nil.
unfoldable pub add_user_label : Option ℕ → ℕ → M (Unit {0})
add_user_label none l d = done tt d
add_user_label (some u) l d = done tt (record d { user_labels = (u, l) ∷ d.user_labels })

abbrev pub label_of : ℕ → List (ℕ × ℕ) → Option ℕ
label_of u [] = none
label_of u ((v, l) ∷ m) = if v == u then some l else label_of u m

unfoldable pub get_user_label : ℕ → M (Option ℕ)
get_user_label u d = done (label_of u d.user_labels) d

abbrev pub delete : ℕ → List ℕ → List ℕ
delete l [] = []
delete l (k ∷ ks) = if k == l then delete l ks else k ∷ delete l ks

abbrev pub is_member : ℕ → List ℕ → Bool
is_member l [] = Bool.false
is_member l (k ∷ ks) = if k == l then Bool.true else is_member l ks

-- useLabel; to delete nil changes nothing.
unfoldable pub use_label : Option ℕ → M (Unit {0})
use_label none d = done tt d
use_label (some l) d = done tt (record d { unused_labels = delete l d.unused_labels })
