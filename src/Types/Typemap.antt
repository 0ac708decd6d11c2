-- ===== src/Types/Typemap.antt =====
-- types/typemap.go: the types with custom serializers, and the cache between types and their
-- descriptions, with the descriptions themselves, by their pointers. A map is a list of pairs, its
-- last entry first.
pub mod Registry
use coroutine_durable_fork.Prelude.{
  ℕ, suc, List, [], ◌∷◌, ◌++◌, Option, none, some, length, ◌≡◌, get_elem?,
}
use coroutine_durable_fork.Prelude.Dict.{lookup}
use coroutine_durable_fork.Types.Info.{Info}

-- The functions are numbers.
pub record Serde : Type 0 where
  pub id : ℕ
  pub ser : ℕ
  pub des : ℕ

-- The two maps of doublemap are `from_k` and `from_v`; `count` pointers have been allocated.
pub record Typemap : Type 0 where
  pub custom : List ℕ
  pub from_k : List (ℕ × ℕ)
  pub from_v : List (ℕ × ℕ)
  pub serdes : List (ℕ × Serde)
  pub infos : List (ℕ × Info)
  pub count : ℕ

pub data Failure : Type 0 where
  no_serde invalid_kind unsupported_kind unknown_basic nil_dereference : Failure
  out_of_range reflect_panic : Failure

pub data Outcome (A : Type 0) : Type 0 where
  gives : A → Typemap → Outcome A
  panics : Failure → Outcome A
  out_of_fuel : Outcome A

abbrev pub M : Type 0 → Type 0
M A = Typemap → Outcome A

infixl 5 ◌>>=◌
abbrev pub ◌>>=◌ : {A B : Type 0} → M A → (A → M B) → M B
◌>>=◌ x f m = elim (x m) [ gives a m₁ ↦ f a m₁ | panics e ↦ panics e | out_of_fuel ↦ out_of_fuel ]

abbrev pub give : {A : Type 0} → A → M A
give a m = gives a m

abbrev pub fail : {A : Type 0} → Failure → M A
fail e m = panics e

-- A value that may be missing, which is a panic.
abbrev pub expect : {A : Type 0} → Failure → Option A → M A
expect e none = fail e
expect e (some a) = give a

abbrev pub new_typemap : Typemap
new_typemap = record { custom = []; from_k = []; from_v = []; serdes = []; infos = []; count = 0 }

abbrev pub attach_new : ℕ → ℕ → ℕ → Option Serde → Typemap → Typemap
attach_new t ser des (some s) m = record m {
  serdes = (t, record s { ser = ser; des = des }) ∷ m.serdes;
}
attach_new t ser des none m = record m {
  custom = m.custom ++ t ∷ [];
  serdes = (t, record { id = length m.custom; ser = ser; des = des }) ∷ m.serdes;
}

-- A function that is nil is none.
unfoldable pub attach : ℕ → Option ℕ → Option ℕ → M (Unit {0})
attach t (some ser) (some des) m = gives tt (attach_new t ser des (lookup t m.serdes) m)
attach t none des m = panics no_serde
attach t (some ser) none m = panics no_serde

unfoldable pub serde_of : ℕ → Typemap → Option Serde
serde_of t m = lookup t m.serdes

abbrev pub get_k : ℕ → Typemap → Option ℕ
get_k t m = lookup t m.from_k

abbrev pub get_v : ℕ → Typemap → Option ℕ
get_v p m = lookup p m.from_v

-- doublemap.add.
unfoldable pub add : ℕ → ℕ → M ℕ
add t p m = gives p (record m { from_k = (t, p) ∷ m.from_k; from_v = (p, t) ∷ m.from_v })

-- A new description, at the next pointer.
unfoldable pub allocate : Info → M ℕ
allocate i m =
    gives (suc m.count) (record m { infos = (suc m.count, i) ∷ m.infos; count = suc m.count })

unfoldable pub write_info : ℕ → Info → M (Unit {0})
write_info p i m = gives tt (record m { infos = (p, i) ∷ m.infos })

unfoldable pub load : ℕ → M Info
load p m = expect nil_dereference (lookup p m.infos) m

-- The type of a custom serializer stands at the index of the serializer.
abbrev pub IsRegistry : List (ℕ × Serde) → List ℕ → Type 0
IsRegistry serdes custom =
    (t : ℕ) (s : Serde) → lookup t serdes ≡ some s → get_elem? custom s.id ≡ some t
