-- ===== src/Types/Scan.antt =====
-- scan of types/scan.go: the walk over the values that a serializer will write, which collects their
-- regions of memory. A place is a type at an address, by a number, and 0 one at the nil address;
-- what is seen there is a parameter, which Look defines.
pub mod Growth
pub mod Covers
pub mod Look
pub mod Behind
pub mod Parts
pub mod Reach
use coroutine_durable_fork.Prelude.{
  ℕ, zero, suc, List, [], ◌∷◌, Option, none, some, Bool, ◌==◌, if◌then◌else◌,
}
use coroutine_durable_fork.Prelude.Dict.{lookup}
use coroutine_durable_fork.Types.Container.{GoType, Container, Error, Result, ok, err, add}

-- A region is a type and its address: of an array or a struct itself, of the array behind a slice
-- or a string. An interface leads to its value, a map to its keys and values.
pub data View : Type 0 where
  of_array : GoType → ℕ → List ℕ → View
  nil_slice : View
  of_slice : GoType → ℕ → List ℕ → View
  nil_interface : View
  of_interface : ℕ → View
  of_struct : GoType → ℕ → List ℕ → View
  nil_pointer : View
  of_pointer : ℕ → View
  empty_string : View
  of_string : GoType → ℕ → View
  of_map : List (ℕ × ℕ) → View
  invalid other : View

-- The map scanptrs is a list of its places.
pub record Scanner : Type 0 where
  pub scanned : List (ℕ × Unit {0})
  pub containers : List Container

pub data Walk : Type 0 where
  done : Scanner → Walk
  invalid_type : Walk
  bad_add : Error → Walk
  out_of_fuel : Walk

abbrev pub walk_then : Walk → (Scanner → Walk) → Walk
walk_then (done s) f = f s
walk_then invalid_type f = invalid_type
walk_then (bad_add e) f = bad_add e
walk_then out_of_fuel f = out_of_fuel

unfoldable pub scan_each : (ℕ → Scanner → Walk) → List ℕ → Scanner → Walk
scan_each rec [] s = done s
scan_each rec (x ∷ xs) s = walk_then (rec x s) (λ r. scan_each rec xs r)

-- The keys and values in the order of the iterator.
abbrev pub entries_of : List (ℕ × ℕ) → List ℕ
entries_of [] = []
entries_of ((k, v) ∷ es) = k ∷ v ∷ entries_of es

abbrev pub mark : ℕ → Scanner → Scanner
mark x s = record s { scanned = (x, tt) ∷ s.scanned }

module _ (seek : ℕ → (ℕ → Bool) → ℕ) where
  abbrev pub added : Result (List Container) → Scanner → (Scanner → Walk) → Walk
  added (ok cs) s f = f (record s { containers = cs })
  added (err e) s f = bad_add e

  -- s.containers.add, and what follows it.
  abbrev pub add_then : GoType → ℕ → Scanner → (Scanner → Walk) → Walk
  add_then t p s f = added (add seek t p s.containers) s f

  -- The switch on the kind.
  unfoldable pub by_view : (ℕ → Scanner → Walk) → View → Scanner → Walk
  unfolding scan_each
  by_view rec (of_array t p xs) s = add_then t p s (λ r. scan_each rec xs r)
  by_view rec nil_slice s = done s
  by_view rec (of_slice t p xs) s = add_then t p s (λ r. scan_each rec xs r)
  by_view rec nil_interface s = done s
  by_view rec (of_interface x) s = scan_each rec (x ∷ []) s
  by_view rec (of_struct t p xs) s = add_then t p s (λ r. scan_each rec xs r)
  by_view rec nil_pointer s = done s
  by_view rec (of_pointer x) s = scan_each rec (x ∷ []) s
  by_view rec empty_string s = done s
  by_view rec (of_string t p) s = add_then t p s done
  by_view rec (of_map es) s = scan_each rec (entries_of es) s
  by_view rec invalid s = invalid_type
  by_view rec other s = done s

  module _ (view : ℕ → View) where
    -- A place that was scanned before is left.
    abbrev pub first_time : (ℕ → Scanner → Walk) → ℕ → Option (Unit {0}) → Scanner → Walk
    first_time rec x (some u) s = done s
    first_time rec x none s = by_view rec (view x) (mark x s)

    unfoldable pub scan : ℕ → ℕ → Scanner → Walk
    unfolding by_view
    scan zero x s = out_of_fuel
    scan (suc n) x s = if x == 0 then done s else first_time (scan n) x (lookup x s.scanned) s
