-- ===== src/Types/Func.antt =====
-- The tables of functions of types/func.go. A name is a number, a pointer to a Func is its index
-- in the slice of all functions, and a map is a list of pairs, its last entry first. What
-- debug/gosym reads from the executable is a parameter: the names and entries of the functions,
-- and the entry of the sentinel.
pub mod Linked
use coroutine_durable_fork.Prelude.{
  ℕ, zero, suc, ◌+◌, ◌-◌, ◌%◌, ◌^◌, List, [], ◌∷◌, Option, none, some, map, ◌==◌, if◌then◌else◌,
}

-- A reflect.Type is of type `T`; nil is `none`.
pub record Func (T : Type 0) : Type 0 where
  pub addr : ℕ
  pub name : ℕ
  pub typ : Option T
  pub closure : Option T

pub record Tables (T : Type 0) : Type 0 where
  pub functions : List (Func T)
  pub by_name : List (ℕ × ℕ)
  pub by_addr : List (ℕ × ℕ)

abbrev pub index_of : ℕ → List (ℕ × ℕ) → Option ℕ
index_of k [] = none
index_of k ((x, i) ∷ m) = if x == k then some i else index_of k m

abbrev pub func_at : {T : Type 0} → ℕ → List (Func T) → Option (Func T)
func_at i [] = none
func_at zero (f ∷ fs) = some f
func_at (suc i) (f ∷ fs) = func_at i fs

abbrev pub deref : {T : Type 0} → List (Func T) → Option ℕ → Option (Func T)
deref fs none = none
deref fs (some i) = func_at i fs

unfoldable pub func_by_name : {T : Type 0} → Tables T → ℕ → Option (Func T)
func_by_name t n = deref t.functions (index_of n t.by_name)

unfoldable pub func_by_addr : {T : Type 0} → Tables T → ℕ → Option (Func T)
func_by_addr t a = deref t.functions (index_of a t.by_addr)

-- A write through a pointer.
abbrev pub update : {T : Type 0} → (Func T → Func T) → ℕ → List (Func T) → List (Func T)
update g i [] = []
update g zero (f ∷ fs) = g f ∷ fs
update g (suc i) (f ∷ fs) = f ∷ update g i fs

abbrev pub write : {T : Type 0} → (Func T → Func T) → Option ℕ → Tables T → Tables T
write g none t = t
write g (some i) t = record t { functions = update g i t.functions }

unfoldable pub register_func : {T : Type 0} → T → ℕ → Tables T → Tables T
register_func s n t = write (λ f. record f { typ = some s }) (index_of n t.by_name) t

unfoldable pub register_closure : {T : Type 0} → T → T → ℕ → Tables T → Tables T
register_closure s c n t =
    write (λ f. record f { typ = some s; closure = some c }) (index_of n t.by_name) t

-- On uint64: b - a, and a + b.
abbrev pub minus64 : ℕ → ℕ → ℕ
minus64 b a = (b + (2 ^ 64 - a)) % 2 ^ 64

abbrev pub plus64 : ℕ → ℕ → ℕ
plus64 a b = (a + b) % 2 ^ 64

-- A function of the symbol table: its name and its entry.
abbrev pub func_of : {T : Type 0} → ℕ → ℕ × ℕ → Func T
func_of offset (n, entry) = record {
  addr = plus64 entry offset;
  name = n;
  typ = none;
  closure = none;
}

-- The entries of the two maps from index `i` on, over those that are there.
unfoldable pub enter : {T : Type 0} → (Func T → ℕ) → ℕ → List (Func T) → List (ℕ × ℕ) → List (ℕ × ℕ)
enter key i [] m = m
enter key i (f ∷ fs) m = enter key (suc i) fs ((key f, i) ∷ m)

unfoldable pub init_function_tables : {T : Type 0} → List (ℕ × ℕ) → ℕ → ℕ → Tables T
unfolding enter
init_function_tables {T = T} table sentinel_entry sentinel_addr =
    let fs : List (Func T) = map (func_of (minus64 sentinel_addr sentinel_entry)) table in
    record {
      functions = fs;
      by_name = enter (λ f. f.name) 0 fs [];
      by_addr = enter (λ f. f.addr) 0 fs [];
    }
