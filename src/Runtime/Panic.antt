-- ===== src/Runtime/Panic.antt =====
-- What a Go call ends in: a value, or a panic that goes up the stack. The panics are those that
-- coroutine.go and coroutine_durable.go raise, those of the Go runtime, and the user's own.
use coroutine_durable_fork.Prelude.{ℕ}

pub data Panic : Type 0 where
  -- panic(unwind{})
  unwind : Panic
  -- "pop when caller is not on topmost frame"
  pop_below_top : Panic
  -- "cannot yield from a coroutine that has been stopped"
  yield_after_stop : Panic
  -- "coroutine.Yield: not called from a coroutine stack"
  no_coroutine : Panic
  -- "coroutine.Yield: coroutine type mismatch"
  type_mismatch : Panic
  -- the Go runtime's
  index_out_of_range type_assertion nil_function : Panic
  -- raised by the program's own code
  user : ℕ → Panic

pub data Result {ℓ} (A : Type ℓ) : Type ℓ where
  ok : A → Result A
  panic : Panic → Result A
