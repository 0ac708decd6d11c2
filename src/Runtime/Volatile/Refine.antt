-- ===== src/Runtime/Volatile/Refine.antt =====
-- Run over a volatile coroutine does what its process does, as Run over a durable one does.
use coroutine_durable_fork.Prelude.{
  ℕ, zero, suc, ◌<◌, true, false, Option, none, some, ◌≡◌, refl, arith,
}
use coroutine_durable_fork.Runtime.Panic.{Result, ok, panic}
use coroutine_durable_fork.Runtime.Context.{Call}
use coroutine_durable_fork.Runtime.Run.{loop, close, run, after_send, after_next}
use coroutine_durable_fork.Runtime.Process.{
  Process, Event, returned, yielded, advance, Callback, drive, rounds, drive_event, rounds_event,
  drive-advance, rounds-advance, driven, answered,
}
use coroutine_durable_fork.Runtime.Volatile.{
  Waiting, at_start, at_yield, Volatile, next, yield, handed_over, volatile,
}

module _ {R S W : Type 0} (zero_r : R) (zero_s : S) where
  -- What the goroutine runs when it is woken.
  abbrev pub remaining : Waiting R S W → S → Process R S W
  remaining (at_start p) s = p
  remaining (at_yield k) s = k s

  abbrev pub IsLive : Volatile R S W → Type 0
  IsLive c = (c.done ≡ false) × (c.stop ≡ false)

  next_live :
      (c : Volatile R S W)
      → IsLive c
      → next zero_r zero_s c
        ≡ handed_over zero_r zero_s (advance (remaining c.waiting c.send) c.world) c
  unfolding next
  next_live c live = ground arith

  yield_live :
      (v : R) (k : S → Process R S W) (c : Volatile R S W)
      → c.stop ≡ false
      → yield zero_r zero_s v k c
        ≡ (ok true, record c { send = zero_s; recv = v; waiting = at_yield k })
  unfolding yield
  yield_live v k c unstopped = ground arith

  -- Stop before the first Next, or at a yield point: the function does not run on.
  pub next_stopped :
      (c : Volatile R S W)
      → c.stop ≡ true
      → next zero_r zero_s c ≡ (ok false, record c { done = true })
  unfolding next
  next_stopped c s = ground arith

  module _ (f : Callback R S W) where
    pub lifted : R → Call (Volatile R S W) S
    lifted v c = let (s, w) = f v c.world in (s, record c { world = w })

    abbrev Looped : Result R × W → Option (Result (Unit {0}) × Volatile R S W) → Type 0
    Looped d none = ⊥
    Looped (ok v, w) (some (r, c)) = (r ≡ ok tt) × (c.result ≡ v) × (c.done ≡ true) × (c.world ≡ w)
    Looped (panic q, w) (some (r, c)) = (r ≡ panic q) × IsLive c

    module _ (n : ℕ) (again : Volatile R S W → Option (Result (Unit {0}) × Volatile R S W))
        (ih : (c : Volatile R S W)
          → IsLive c
          → rounds f (remaining c.waiting c.send) c.world < n
          → Looped (drive f (remaining c.waiting c.send) c.world) (again c)) where
      answer-Looped :
          (c : Volatile R S W) (k : S → Process R S W) (a : Result S × W)
          → IsLive c
          → c.waiting ≡ at_yield k
          → answered (λ s w₁. rounds f (k s) w₁) 0 a < n
          → Looped
              (driven (λ s w₁. drive f (k s) w₁) a)
              (after_send (volatile zero_r zero_s) lifted again (a.0, record c { world = a.1 }))
      answer-Looped c k (ok s, w) live at fits =
          let c₁ : Volatile R S W = record c { send = s; world = w; waiting = at_yield k } in
          rw at (ih c₁ live fits)
      answer-Looped c k (panic q, w) live at fits = (refl, live)

      event-Looped :
          (ev : Event R S W × W) (c : Volatile R S W)
          → IsLive c
          → rounds_event f ev < suc n
          → Looped
              (drive_event f ev)
              (after_next (volatile zero_r zero_s) lifted again (handed_over zero_r zero_s ev c))
      unfolding drive_event rounds_event lifted
      event-Looped (returned r, w) c live fits = (refl, refl, refl, refl)
      event-Looped (yielded v k, w) c live fits =
          let c₁ : Volatile R S W = record c {
            send = zero_s;
            recv = v;
            waiting = at_yield k;
            world = w;
          } in
          rw (yield_live v k (record c { world = w }) (live.1))
            (answer-Looped c₁ k (f v w) live refl (omega arith))

    loop-Looped :
        (n : ℕ) (c : Volatile R S W)
        → IsLive c
        → rounds f (remaining c.waiting c.send) c.world < n
        → Looped
            (drive f (remaining c.waiting c.send) c.world)
            (loop (volatile zero_r zero_s) lifted n c)
    unfolding loop
    loop-Looped zero c live fits = absurd (omega arith)
    loop-Looped (suc n) c live fits =
        rw (drive-advance f (remaining c.waiting c.send) c.world, next_live c live)
          (event-Looped n (loop (volatile zero_r zero_s) lifted n) (loop-Looped n)
            (advance (remaining c.waiting c.send) c.world) c live
            (rw (← rounds-advance f (remaining c.waiting c.send) c.world) fits))

    abbrev pub Ran : Result R × W → Option (Result (Unit {0}) × Volatile R S W) → Type 0
    Ran d none = ⊥
    Ran (ok v, w) (some (r, c)) = (r ≡ ok tt) × (c.result ≡ v) × (c.done ≡ true) × (c.world ≡ w)
    Ran (panic q, w) (some (r, c)) = (r ≡ panic q) × (c.done ≡ true)

    closed :
        (d : Result R × W) (out : Option (Result (Unit {0}) × Volatile R S W))
        → Looped d out
        → Ran d (elim out [ none ↦ none | some o ↦ some (close (volatile zero_r zero_s) lifted o) ])
    unfolding close next
    closed (ok v, w) none looped = looped
    closed (panic q, w) none looped = looped
    closed (ok v, w) (some (r, c)) (e, got, d, same) = ground arith
    closed (panic q, w) (some (r, c)) (e, live) = ground arith

    -- Run over a volatile coroutine that has not been stopped does what the process does that it
    -- waits to run: each yield is answered by the callback in order, and at the end the coroutine
    -- is done and holds the result. If the callback panics, Run passes the panic on and has
    -- interrupted the coroutine.
    pub volatile-run-Ran :
        (n : ℕ) (c : Volatile R S W)
        → IsLive c
        → rounds f (remaining c.waiting c.send) c.world < n
        → Ran
            (drive f (remaining c.waiting c.send) c.world)
            (run (volatile zero_r zero_s) lifted n c)
    unfolding run
    volatile-run-Ran n c live fits =
        closed (drive f (remaining c.waiting c.send) c.world)
          (loop (volatile zero_r zero_s) lifted n c) (loop-Looped n c live fits)
