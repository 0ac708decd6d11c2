-- ===== src/Runtime/Volatile.antt =====
-- The volatile runtime, coroutine_volatile.go: the coroutine runs on a goroutine of its own, and
-- Next and Yield hand control over on the channel `next`, so that one of the two runs at a time.
-- The goroutine is held as the process that it still has to run. A panic of the coroutine ends the
-- program there, and is passed on here.
pub mod Refine
use coroutine_durable_fork.Prelude.{Bool, true, false, if◌then◌else◌}
use coroutine_durable_fork.Runtime.Panic.{Result, ok, panic, yield_after_stop}
use coroutine_durable_fork.Runtime.Context.{Call}
use coroutine_durable_fork.Runtime.Run.{Coroutine}
use coroutine_durable_fork.Runtime.Process.{Process, Event, returned, yielded, advance}

-- Where the goroutine waits for the channel: before its function, or in a Yield.
pub data Waiting (R S W : Type 0) : Type 0 where
  at_start : Process R S W → Waiting R S W
  at_yield : (S → Process R S W) → Waiting R S W

pub record Volatile (R S W : Type 0) : Type 0 where
  pub recv : R
  pub send : S
  pub result : R
  pub done : Bool
  pub stop : Bool
  pub waiting : Waiting R S W
  pub world : W

module _ {R S W : Type 0} (zero_r : R) (zero_s : S) where
  -- NewWithReturn; New is the case of a function that returns the zero value.
  unfoldable pub new_with_return : Process R S W → W → Volatile R S W
  new_with_return p w = record {
    recv = zero_r;
    send = zero_s;
    result = zero_r;
    done = false;
    stop = false;
    waiting = at_start p;
    world = w;
  }

  -- Yield, up to the send on the channel. The deferred function of the goroutine sets done also
  -- when the Yield panics.
  unfoldable pub yield : R → (S → Process R S W) → Call (Volatile R S W) Bool
  yield v k c =
      if c.stop
      then (panic yield_after_stop, record c { done = true })
      else (ok true, record c { send = zero_s; recv = v; waiting = at_yield k })

  -- The goroutine runs until it sends on the channel, or closes it.
  abbrev pub handed_over : Event R S W × W → Call (Volatile R S W) Bool
  handed_over (returned r, w) c = (ok false, record c { result = r; done = true; world = w })
  handed_over (yielded v k, w) c = yield v k (record c { world = w })

  -- `if !c.stop { … }` before the function, `if c.stop { runtime.Goexit() }` in a Yield.
  abbrev woken : Waiting R S W → Call (Volatile R S W) Bool
  woken (at_start p) c =
      if c.stop then (ok false, record c { done = true }) else handed_over (advance p c.world) c
  woken (at_yield k) c =
      if c.stop
      then (ok false, record c { done = true })
      else handed_over (advance (k c.send) c.world) c

  unfoldable pub next : Call (Volatile R S W) Bool
  next c = if c.done then (ok false, c) else woken c.waiting c

  abbrev pub volatile : Coroutine R S (Volatile R S W)
  volatile = record {
    next = next;
    recv = λ c. c.recv;
    send = λ v c. record c { send = v };
    stop = λ c. record c { stop = true };
    done = λ c. c.done;
  }
