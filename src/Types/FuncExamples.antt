-- ===== src/Types/FuncExamples.antt =====
-- The tables of two functions.
use coroutine_durable_fork.Prelude.{
  some-inj, ℕ, zero, suc, ◌<◌, ◌^◌, ◌≡◌, ◌≢◌, refl, sym, ap, List, [], ◌∷◌, some, none, get_elem?,
  arith,
}
use coroutine_durable_fork.Types.Func.{
  Func, Tables, func_by_name, func_by_addr, register_func, init_function_tables, plus64, minus64,
  func_of, index_of,
}
use coroutine_durable_fork.Types.Func.Linked.{
  IsLinked, init_function_tables-IsLinked, register_func-func_by_addr,
}

-- The sentinel's address is below its entry.
abbrev table : List (ℕ × ℕ)
table = (5, 100) ∷ (6, 200) ∷ []

entry_of : (i : ℕ) (a : ℕ × ℕ) (x : ℕ × ℕ) → some x ≡ some a → a.1 ≡ x.1
entry_of i a x h = ap (λ y. y.1) (sym (some-inj refl h))

table-small : (i : ℕ) (a : ℕ × ℕ) → get_elem? table i ≡ some a → a.1 < 2 ^ 64
table-small zero a h = omega (arith, entry_of 0 a (5, 100) h)
table-small (suc zero) a h = omega (arith, entry_of 1 a (6, 200) h)
table-small (suc (suc i)) a h = cc

table-apart :
    (i j : ℕ) (a b : ℕ × ℕ)
    → get_elem? table i ≡ some a
    → get_elem? table j ≡ some b
    → a.1 ≡ b.1
    → i ≡ j
table-apart zero zero a b h k e = refl
table-apart zero (suc zero) a b h k e =
    omega (arith, entry_of 0 a (5, 100) h, entry_of 1 b (6, 200) k, e)
table-apart (suc zero) zero a b h k e =
    omega (arith, entry_of 1 a (6, 200) h, entry_of 0 b (5, 100) k, e)
table-apart (suc zero) (suc zero) a b h k e = refl
table-apart (suc (suc i)) j a b h k e = cc
table-apart i (suc (suc j)) a b h k e = cc

abbrev tables : Tables ℕ
tables = init_function_tables table 100 50

init_function_tables-IsLinked_example :
    ((i : ℕ) (e : ℕ × ℕ)
      → get_elem? table i ≡ some e
      → (func_by_addr tables (plus64 e.1 (minus64 50 100)) ≡ some (func_of (minus64 50 100) e))
        × ((j : ℕ) × (index_of e.0 tables.by_name ≡ some j)))
    × IsLinked tables
init_function_tables-IsLinked_example =
    init_function_tables-IsLinked table 100 50 table-apart table-small

abbrev six : Func ℕ
six = record { addr = 150; name = 6; typ = none; closure = none }

finds : func_by_name tables 6 ≡ some six
unfolding func_by_name init_function_tables
finds = refl

register_func-func_by_addr_example :
    (func_by_addr (register_func 9 6 tables) 150
      ≡ some (record { addr = 150; name = 6; typ = some 9; closure = none }))
    × ((m : ℕ) → 6 ≢ m → func_by_name (register_func 9 6 tables) m ≡ func_by_name tables m)
    × IsLinked (register_func 9 6 tables)
register_func-func_by_addr_example =
    register_func-func_by_addr 9 tables 6 six
      (init_function_tables-IsLinked table 100 50 table-apart table-small).1 finds
