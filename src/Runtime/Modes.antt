-- ===== src/Runtime/Modes.antt =====
-- The two builds of the package side by side: with the tag `durable` and without it.
use coroutine_durable_fork.Prelude.{
  ℕ, ◌<◌, true, false, List, [], Option, none, some, ◌≡◌, refl, arith,
}
use coroutine_durable_fork.Runtime.Panic.{yield_after_stop, Result, ok, panic}
use coroutine_durable_fork.Runtime.Stack.{Frame}
use coroutine_durable_fork.Runtime.Context.{
  Goroutine, Call, done, unwinding, result, yield, execute, ◌>>=◌,
}
use coroutine_durable_fork.Runtime.Next.{next, durable, run_entry, recovered}
use coroutine_durable_fork.Runtime.Run.{run}
use coroutine_durable_fork.Runtime.Process.{Process, Callback, drive, rounds}
use coroutine_durable_fork.Runtime.Process.Refine.{
  Kept, IsCompiled, entered, lifted, Ran as DurableRan, run-Ran,
}
use coroutine_durable_fork.Runtime.Volatile.{
  Volatile, volatile, new_with_return, next as volatile_next,
}
use coroutine_durable_fork.Runtime.Volatile.Refine.{
  lifted as volatile_lifted, Ran as VolatileRan, volatile-run-Ran, next_stopped,
}

-- What the caller of Run sees: a panic, or the coroutine's result and the program's state.
abbrev pub told : {R W : Type 0} → Result R × W → Result (R × W)
told (ok v, w) = ok (v, w)
told (panic q, w) = panic q

abbrev pub seen :
    {R W G : Type 0} → (G → R) → (G → W) → Option (Result (Unit {0}) × G) → Option (Result (R × W))
seen result world none = none
seen result world (some (ok _, g)) = some (ok (result g, world g))
seen result world (some (panic q, g)) = some (panic q)

module _ {R S F V W : Type 0} (call : F → Call (Goroutine R S F V W) (Unit {0}))
    (call_r : F → Call (Goroutine R S F V W) R) (e : F)
    (Waits : List (Frame V) → (S → Process R S W) → Type 0) (zero_r : R) (zero_s : S) where
  durable_told :
      (f : Callback R S W) (p : Process R S W) (compiled : IsCompiled call call_r e Waits p)
      (d : Result R × W) (out : Option (Result (Unit {0}) × Goroutine R S F V W))
      → DurableRan call call_r e Waits f p compiled d out
      → seen (λ g. result g.ctx) (λ g. g.world) out ≡ some (told d)
  durable_told f p compiled (ok v, w) none ran = absurd ran
  durable_told f p compiled (panic q, w) none ran = absurd ran
  durable_told f p compiled (ok v, w) (some (r, h)) ran = ground arith
  durable_told f p compiled (panic q, w) (some (r, h)) ran = ground arith

  volatile_told :
      (f : Callback R S W) (d : Result R × W) (out : Option (Result (Unit {0}) × Volatile R S W))
      → VolatileRan zero_r zero_s f d out
      → seen (λ c. c.result) (λ c. c.world) out ≡ some (told d)
  volatile_told f (ok v, w) none ran = absurd ran
  volatile_told f (panic q, w) none ran = absurd ran
  volatile_told f (ok v, w) (some (r, h)) ran = ground arith
  volatile_told f (panic q, w) (some (r, h)) ran = ground arith

  -- Run gives the same in both builds: over a durable coroutine whose entry point is compiled code
  -- of a process, and over a volatile one that runs the process, from the same program state, it
  -- ends in the same panic of the callback, or in the same result and program state; and those are
  -- the process's own. One call of Next more than there are yields is enough for both.
  pub modes_agree :
      (f : Callback R S W) (p : Process R S W) (compiled : IsCompiled call call_r e Waits p) (n : ℕ)
      (g : Goroutine R S F V W)
      → Kept call call_r e Waits g.ctx
      → unwinding g.ctx ≡ false
      → g.ctx.stack.frames ≡ []
      → rounds f p g.world < n
      → let in_durable = run (durable call call_r) (lifted call call_r e Waits f) n g in
        let in_volatile =
          run
            (volatile zero_r zero_s)
            (volatile_lifted zero_r zero_s f)
            n
            (new_with_return zero_r zero_s p g.world) in
        (seen (λ h. result h.ctx) (λ h. h.world) in_durable ≡ some (told (drive f p g.world)))
        × (seen (λ c. c.result) (λ c. c.world) in_volatile ≡ some (told (drive f p g.world)))
  unfolding new_with_return
  modes_agree f p compiled n g kept u empty fits = (
    durable_told f p compiled (drive f p g.world) _
        (run-Ran call call_r e Waits f p compiled n g kept u empty fits),
    volatile_told f (drive f p g.world) _ (
        volatile-run-Ran zero_r zero_s f n (new_with_return zero_r zero_s p g.world) (refl, refl)
          fits),
  )

  -- The builds part where Stop comes before the first Next. An entry point that begins with a
  -- Yield then panics through Next in the durable build, and the coroutine is not done; in the
  -- volatile build Next returns false, the function does not run, and the coroutine is done.
  pub stop_before_start :
      (v : R) (rest : S → Call (Goroutine R S F V W) R) (g : Goroutine R S F V W)
      (p : Process R S W)
      → ((h : Goroutine R S F V W) → call_r e h ≡ (yield zero_s v >>= rest) h)
      → done g.ctx ≡ false
      → g.ctx.entry ≡ none
      → g.ctx.entry_r ≡ some e
      → unwinding g.ctx ≡ false
      → g.ctx.stop ≡ true
      → let c = record (new_with_return zero_r zero_s p g.world) { stop = true } in
        ((next call call_r g).0 ≡ panic yield_after_stop)
        × (done (next call call_r g).1.ctx ≡ false)
        × (volatile_next zero_r zero_s c ≡ (ok false, record c { done = true }))
  unfolding next run_entry recovered execute yield new_with_return
  stop_before_start v rest g p begins alive no_entry has_entry_r u s =
      let h : Goroutine R S F V W = entered call call_r e Waits g in
      (ground (arith, begins h), ground (arith, begins h), next_stopped zero_r zero_s _ refl)
