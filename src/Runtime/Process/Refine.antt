-- ===== src/Runtime/Process/Refine.antt =====
-- Run over a durable coroutine does what the process does that its entry point was compiled from.
use coroutine_durable_fork.Prelude.{
  ℕ, zero, suc, ◌<◌, Bool, true, false, Option, none, some, ◌≡◌, refl, arith, List, [], sym, subst,
  ap, ◌∙◌,
}
use coroutine_durable_fork.Prelude.Int.{negsuc}
use coroutine_durable_fork.Runtime.Panic.{Panic, unwind, Result, ok, panic}
use coroutine_durable_fork.Runtime.Stack.{Frame}
use coroutine_durable_fork.Runtime.Context.{
  Context, Goroutine, Call, own, execute, recv, send, stop, done, unwinding, result,
}
use coroutine_durable_fork.Runtime.Next.{next, recovered, finish, run_entry, durable}
use coroutine_durable_fork.Runtime.Run.{loop, close, run, after_send, after_next, instead}
use coroutine_durable_fork.Runtime.Process.{
  Process, Event, returned, yielded, advance, Callback, drive, rounds, drive_event, rounds_event,
  drive-advance, rounds-advance, driven, answered,
}

module _ {R S F V W : Type 0} (call : F → Call (Goroutine R S F V W) (Unit {0}))
    (call_r : F → Call (Goroutine R S F V W) R) (e : F)
    (Waits : List (Frame V) → (S → Process R S W) → Type 0) where
  -- A live coroutine of the entry point `e`.
  pub record Kept (c : Context R S F V) : Type 0 where
    pub alive : done c ≡ false
    pub unstopped : c.stop ≡ false
    pub no_entry : c.entry ≡ none
    pub has_entry_r : c.entry_r ≡ some e

  -- A call of the entry point that gets where the process gets.
  abbrev pub Reaches : Event R S W × W → Result R × Goroutine R S F V W → Type 0
  Reaches (returned r, w) (out, h) =
      (out ≡ ok r) × Kept h.ctx × (unwinding h.ctx ≡ false) × (h.world ≡ w)
  Reaches (yielded v k, w) (out, h) =
      (out ≡ panic unwind)
      × Kept h.ctx
      × (unwinding h.ctx ≡ true)
      × (h.world ≡ w)
      × (recv h.ctx ≡ v)
      × Waits h.ctx.stack.frames k

  -- How Next enters the entry point.
  abbrev pub entered : Goroutine R S F V W → Goroutine R S F V W
  entered g = record g {
    loaded = own;
    ctx = record g.ctx { stack = record (g.ctx.stack) { fp = negsuc 0 } };
  }

  -- The entry point is compiled code of the process `p`: it starts as `p` does; with frames that
  -- wait for `k` it goes on as `k` of the value that was sent; and when it is stopped it unwinds.
  pub record IsCompiled (p : Process R S W) : Type 0 where
    pub starts :
        (g : Goroutine R S F V W)
        → Kept g.ctx
        → unwinding g.ctx ≡ false
        → g.ctx.stack.frames ≡ []
        → Reaches (advance p g.world) (call_r e (entered g))
    pub resumes :
        (g : Goroutine R S F V W) (k : S → Process R S W)
        → Kept g.ctx
        → unwinding g.ctx ≡ true
        → Waits g.ctx.stack.frames k
        → Reaches (advance (k g.ctx.send) g.world) (call_r e (entered g))
    pub interrupts :
        (g : Goroutine R S F V W) (k : S → Process R S W)
        → Kept g.ctx
        → unwinding g.ctx ≡ true
        → Waits g.ctx.stack.frames k
        → let out = call_r e (entered (record g { ctx = stop g.ctx })) in
          (out.0 ≡ panic unwind) × (unwinding out.1.ctx ≡ false)

  -- What Next makes of it.
  abbrev Steps : Event R S W × W → Result Bool × Goroutine R S F V W → Type 0
  Steps (returned r, w) (out, h) =
      (out ≡ ok false) × (result h.ctx ≡ r) × (done h.ctx ≡ true) × (h.world ≡ w)
  Steps (yielded v k, w) (out, h) =
      (out ≡ ok true)
      × Kept h.ctx
      × (unwinding h.ctx ≡ true)
      × (h.world ≡ w)
      × (recv h.ctx ≡ v)
      × Waits h.ctx.stack.frames k

  set_result : R → Call (Goroutine R S F V W) (Unit {0})
  set_result r g = (ok tt, record g { ctx = record g.ctx { result = r } })

  ended : Goroutine R S F V W → Result R × Goroutine R S F V W → Result Bool × Goroutine R S F V W
  ended g (ok r, h) =
      let (b, h₁) = recovered call call_r (set_result r h) in (b, record h₁ { loaded = g.loaded })
  ended g (panic p, h) =
      let (b, h₁) = recovered call call_r (panic p, h) in (b, record h₁ { loaded = g.loaded })

  next_entered :
      (g : Goroutine R S F V W)
      → done g.ctx ≡ false
      → g.ctx.entry ≡ none
      → g.ctx.entry_r ≡ some e
      → next call call_r g ≡ ended g (call_r e (entered g))
  unfolding next ended set_result execute run_entry
  next_entered g alive no_entry has_entry_r = ground arith

  finish_suspended :
      (h : Goroutine R S F V W)
      → Kept h.ctx
      → unwinding h.ctx ≡ true
      → finish call call_r h ≡ (ok true, h)
  unfolding finish
  finish_suspended h k u = ground (arith, k.unstopped, k.alive)

  finish_returned :
      (h : Goroutine R S F V W)
      → unwinding h.ctx ≡ false
      → finish call call_r h ≡ (ok false, record h { ctx = record h.ctx { done = true } })
  unfolding finish
  finish_returned h u = ground arith

  ended-Steps :
      (ev : Event R S W × W) (g : Goroutine R S F V W) (out : Result R × Goroutine R S F V W)
      → Reaches ev out
      → Steps ev (ended g out)
  unfolding ended set_result recovered
  ended-Steps (returned r, w) g (ok a, h) (out, k, u, same) =
      rw (finish_returned (record h { ctx = record h.ctx { result = a } }) u) (refl, cc, refl, same)
  ended-Steps (returned r, w) g (panic p, h) reached = cc (reached.0)
  ended-Steps (yielded v k, w) g (ok a, h) reached = cc (reached.0)
  ended-Steps (yielded v k, w) g (panic unwind, h) (out, kept, u, same, got, waits) =
      rw (finish_suspended h kept u) (refl, kept, u, same, got, waits)
  ended-Steps (yielded v k, w) g (panic _, h) reached = cc (reached.0)

  -- A call of Next gets the coroutine where the process gets.
  abbrev Poised : Goroutine R S F V W → Process R S W → Type 0
  Poised g p = Kept g.ctx × Reaches (advance p g.world) (call_r e (entered g))

  next-Steps :
      (g : Goroutine R S F V W) (p : Process R S W)
      → Poised g p
      → Steps (advance p g.world) (next call call_r g)
  next-Steps g p (kept, reached) =
      subst (Steps (advance p g.world))
        (sym (next_entered g kept.alive kept.no_entry kept.has_entry_r)) (ended-Steps _ g _ reached)

  module _ (f : Callback R S W) where
    -- The callback as the program's function: it leaves the coroutine alone.
    pub lifted : R → Call (Goroutine R S F V W) S
    lifted v g = let (s, w) = f v g.world in (s, record g { world = w })

    abbrev Suspended : Goroutine R S F V W → Type 0
    Suspended h =
        Kept h.ctx
        × (unwinding h.ctx ≡ true)
        × ((k : S → Process R S W) × Waits h.ctx.stack.frames k)

    abbrev Looped : Result R × W → Option (Result (Unit {0}) × Goroutine R S F V W) → Type 0
    Looped d none = ⊥
    Looped (ok v, w) (some (r, h)) =
        (r ≡ ok tt) × (result h.ctx ≡ v) × (done h.ctx ≡ true) × (h.world ≡ w)
    Looped (panic q, w) (some (r, h)) = (r ≡ panic q) × Suspended h

    module _
        (compiled : (g : Goroutine R S F V W) (k : S → Process R S W)
          → Kept g.ctx
          → unwinding g.ctx ≡ true
          → Waits g.ctx.stack.frames k
          → Reaches (advance (k g.ctx.send) g.world) (call_r e (entered g)))
        (n : ℕ) (again : Goroutine R S F V W → Option (Result (Unit {0}) × Goroutine R S F V W))
        (ih : (g : Goroutine R S F V W) (p : Process R S W)
          → Poised g p
          → rounds f p g.world < n
          → Looped (drive f p g.world) (again g)) where
      resent : (s : S) (c : Context R S F V) → Kept c → Kept (send s c)
      resent s c k = record {
        alive = k.alive;
        unstopped = k.unstopped;
        no_entry = k.no_entry;
        has_entry_r = k.has_entry_r;
      }

      answer-Looped :
          (h : Goroutine R S F V W) (k : S → Process R S W) (a : Result S × W)
          → Kept h.ctx
          → unwinding h.ctx ≡ true
          → Waits h.ctx.stack.frames k
          → answered (λ s w₁. rounds f (k s) w₁) 0 a < n
          → Looped
              (driven (λ s w₁. drive f (k s) w₁) a)
              (after_send (durable call call_r) lifted again (a.0, record h { world = a.1 }))
      answer-Looped h k (ok s, w) kept u waits fits =
          let g : Goroutine R S F V W = record h { ctx = send s h.ctx; world = w } in
          ih g (k s) (resent s h.ctx kept, compiled g k (resent s h.ctx kept) u waits) fits
      answer-Looped h k (panic q, w) kept u waits fits = (refl, (kept, u, (k, waits)))

      event-Looped :
          (ev : Event R S W × W) (out : Result Bool × Goroutine R S F V W)
          → Steps ev out
          → rounds_event f ev < suc n
          → Looped (drive_event f ev) (after_next (durable call call_r) lifted again out)
      unfolding drive_event rounds_event lifted
      event-Looped (returned r, w) (ok false, h) (out, got, d, same) fits = (refl, got, d, same)
      event-Looped (returned r, w) (ok true, h) stepped fits = cc (stepped.0)
      event-Looped (returned r, w) (panic p, h) stepped fits = cc (stepped.0)
      event-Looped (yielded v k, w) (ok false, h) stepped fits = cc (stepped.0)
      event-Looped (yielded v k, w) (panic p, h) stepped fits = cc (stepped.0)
      event-Looped (yielded v k, w) (ok true, h) (out, kept, u, same, got, waits) fits =
          rw (← got, ← same)
            (answer-Looped h k (f (recv h.ctx) h.world) kept u waits (rw (got, same) (omega arith)))

    module _ (p₀ : Process R S W) (compiled : IsCompiled p₀) where
      loop-Looped :
          (n : ℕ) (g : Goroutine R S F V W) (p : Process R S W)
          → Poised g p
          → rounds f p g.world < n
          → Looped (drive f p g.world) (loop (durable call call_r) lifted n g)
      unfolding loop
      loop-Looped zero g p poised fits = absurd (omega arith)
      loop-Looped (suc n) g p poised fits = rw (drive-advance f p g.world) (
          event-Looped compiled.resumes n (λ g₁. loop (durable call call_r) lifted n g₁)
            (λ g₁ p₁ q₁ fits₁. loop-Looped n g₁ p₁ q₁ fits₁) (advance p g.world)
            (next call call_r g) (next-Steps g p poised) (rw (← rounds-advance f p g.world) fits))

      -- What Run ends in.
      abbrev pub Ran : Result R × W → Option (Result (Unit {0}) × Goroutine R S F V W) → Type 0
      Ran d none = ⊥
      Ran (ok v, w) (some (r, h)) =
          (r ≡ ok tt) × (result h.ctx ≡ v) × (done h.ctx ≡ true) × (h.world ≡ w)
      Ran (panic q, w) (some (r, h)) = (r ≡ panic q) × (done h.ctx ≡ true)

      interrupted :
          (g : Goroutine R S F V W) (q : Panic) (out : Result R × Goroutine R S F V W)
          → (out.0 ≡ panic unwind) × (unwinding out.1.ctx ≡ false)
          → let (r, h) = instead (durable call call_r) lifted (panic q) (ended g out) in
            (r ≡ panic q) × (done h.ctx ≡ true)
      unfolding ended recovered
      interrupted g q (ok a, c) (e, u) = cc
      interrupted g q (panic unwind, c) (e, u) = rw (finish_returned c u) (refl, refl)
      interrupted g q (panic _, c) (e, u) = cc

      abbrev stopped : Goroutine R S F V W → Goroutine R S F V W
      stopped h = record h { ctx = stop h.ctx }

      reopened :
          (r : Result (Unit {0})) (h : Goroutine R S F V W)
          → Kept h.ctx
          → close (durable call call_r) lifted (r, h)
            ≡ instead (durable call call_r) lifted r (next call call_r (stopped h))
      unfolding close
      reopened r h kept = ground (arith, kept.alive)

      close_live :
          (r : Result (Unit {0})) (h : Goroutine R S F V W)
          → Kept h.ctx
          → close (durable call call_r) lifted (r, h)
            ≡ instead
                (durable call call_r)
                lifted
                r
                (ended (stopped h) (call_r e (entered (stopped h))))
      close_live r h kept =
          reopened r h kept
          ∙ ap (instead (durable call call_r) lifted r)
              (next_entered (stopped h) kept.alive kept.no_entry kept.has_entry_r)

      closed :
          (d : Result R × W) (out : Option (Result (Unit {0}) × Goroutine R S F V W))
          → Looped d out
          → Ran d (elim out [ none ↦ none | some o ↦ some (close (durable call call_r) lifted o) ])
      unfolding close
      closed (ok v, w) none looped = looped
      closed (panic q, w) none looped = looped
      closed (ok v, w) (some (r, h)) (e, got, d, same) = ground arith
      closed (panic q, w) (some (r, h)) (broke, (kept, u, (k, waits))) =
          rw (broke, close_live (panic q) h kept)
            (interrupted (stopped h) q _ (compiled.interrupts h k kept u waits))

      -- Run over a fresh coroutine of compiled code does what the process does: the callback is
      -- called for each yield in order, in the program state that the process is in there, its
      -- answer is what the yield returns, and at the end the coroutine is done and holds the
      -- process's result. If the callback panics, Run passes the panic on, and has interrupted the
      -- coroutine, which is done. One call of Next more than there are yields is enough.
      pub run-Ran :
          (n : ℕ) (g : Goroutine R S F V W)
          → Kept g.ctx
          → unwinding g.ctx ≡ false
          → g.ctx.stack.frames ≡ []
          → rounds f p₀ g.world < n
          → Ran (drive f p₀ g.world) (run (durable call call_r) lifted n g)
      unfolding run
      run-Ran n g kept u empty fits =
          closed (drive f p₀ g.world) (loop (durable call call_r) lifted n g)
            (loop-Looped n g p₀ (kept, compiled.starts g kept u empty) fits)
