-- ===== src/Types/ScanExamples.antt =====
-- The scan of a list of two structs that point to each other.
use coroutine_durable_fork.Prelude.{ℕ, Bool, false, none, List, [], ◌∷◌, ◌==◌, if◌then◌else◌}
use mathlib.Core.List.{Memᴰ}
use coroutine_durable_fork.Types.Container.{structure}
use coroutine_durable_fork.Types.Scan.{View, Scanner}
use coroutine_durable_fork.Types.Scan.Look.{TypeTable, Heap, struct, pointer_to, other_kind, look}

-- Of the four types, 1 is a struct of one pointer to it, which is of type 2.
abbrev ring_types : TypeTable
ring_types = record {
  number = 4;
  shape = λ t. if t == 1 then struct ((2, 0) ∷ []) else if t == 2 then pointer_to 1 else other_kind;
  go_type = λ t. structure t 8;
  byte = structure 3 1;
  is_inlined = λ t. false;
}

-- The structs at 100 and 200 point to each other.
abbrev ring_heap : Heap
ring_heap = record {
  slice_at = λ p. none;
  interface_at = λ p. none;
  cell_of = λ p. 0;
  pointer_at = λ p. if p == 100 then 200 else 100;
  string_at = λ p. (0, 0);
  entries_at = λ p. [];
}

abbrev ring : ℕ → View
unfolding look
ring = look ring_types ring_heap

abbrev ring_places : List ℕ
ring_places = 401 ∷ 402 ∷ 801 ∷ 802 ∷ []

abbrev linear : ℕ → (ℕ → Bool) → ℕ
linear n f = n

abbrev scanned_ring : Scanner
scanned_ring = record {
  scanned = (802, tt) ∷ (801, tt) ∷ (402, tt) ∷ (401, tt) ∷ [];
  containers =
      record { addr = 100; typ = structure 1 8 } ∷ record { addr = 200; typ = structure 1 8 } ∷ [];
}
