-- ===== src/Runtime/Stack.antt =====
-- The call stack of a coroutine: Stack, Push, Pop and isTop of coroutine_durable.go.
-- A frame is its Go type, a number, and its fields; the pointer to a frame that Push returns is
-- named by the slot of Frames that holds it. FP is a Go int, -1 before the first frame; its
-- wrap-around is left out, since FP stays below the length of a slice.
pub mod Rewind
use coroutine_durable_fork.Prelude.{
  ℕ, ◌+◌, ◌-◌, Bool, true, false, List, [], ◌∷◌, ◌++◌, Option, none, some, ◌==◌, if◌then◌else◌,
  length, get_elem?, take,
}
use coroutine_durable_fork.Prelude.Int.{ℤ, pos, negsuc, ◌+ℤ◌, ◌-ℤ◌, sub_ℕ}
use coroutine_durable_fork.Runtime.Panic.{
  Panic, pop_below_top, index_out_of_range, type_assertion, Result, ok, panic,
}

pub record Frame (V : Type 0) : Type 0 where
  pub tag : ℕ
  pub fields : V

pub record Stack (V : Type 0) : Type 0 where
  pub fp : ℤ
  pub frames : List (Frame V)

-- The Go test on two ints.
abbrev pub eq_ℤ : ℤ → ℤ → Bool
eq_ℤ (pos a) (pos b) = a == b
eq_ℤ (negsuc a) (negsuc b) = a == b
eq_ℤ _ _ = false

abbrev pub slot : ℤ → ℕ
slot (pos i) = i
slot (negsuc i) = 0

module _ {V : Type 0} where
  -- s.Frames[i] for an int i, `none` where Go panics.
  abbrev pub at : List (Frame V) → ℤ → Option (Frame V)
  at fs (pos i) = get_elem? fs i
  at fs (negsuc i) = none

  unfoldable pub is_top : Stack V → Bool
  is_top s = eq_ℤ s.fp (sub_ℕ (length s.frames) 1)

  -- The type assertion `.(*Frame)`.
  abbrev pub assert_type : ℕ → ℕ → Option (Frame V) → Result ℕ
  assert_type t i none = panic index_out_of_range
  assert_type t i (some f) = if f.tag == t then ok i else panic type_assertion

  -- new(Frame) is the frame `fresh`.
  unfoldable pub push : Frame V → Stack V → Result ℕ × Stack V
  unfolding is_top ◌+ℤ◌
  push fresh s =
      let frames = if is_top s then s.frames ++ fresh ∷ [] else s.frames in
      let fp = s.fp +ℤ pos 1 in
      (assert_type fresh.tag (slot fp) (at frames fp), record { fp = fp; frames = frames })

  -- s.Frames[i] = nil; s.Frames = s.Frames[:i]; s.FP--
  abbrev pub truncate : Stack V → ℤ → Result (Unit {0}) × Stack V
  truncate s (negsuc i) = (panic index_out_of_range, s)
  truncate s (pos i) = (ok tt, record { fp = s.fp -ℤ pos 1; frames = take i s.frames })

  unfoldable pub pop : Stack V → Result (Unit {0}) × Stack V
  unfolding is_top ◌-ℤ◌
  pop s = if is_top s then truncate s (sub_ℕ (length s.frames) 1) else (panic pop_below_top, s)
