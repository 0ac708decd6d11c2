-- ===== src/Runtime/Next.antt =====
-- Next of coroutine_durable.go. The program's functions are parameters:
-- `call` and `call_r` say what an entry point of New and one of NewWithReturn do when called.
pub mod Laws
use coroutine_durable_fork.Prelude.{
  ℕ, zero, suc, Bool, true, false, not, Option, none, some, if◌then◌else◌,
}
use coroutine_durable_fork.Prelude.Int.{negsuc}
use coroutine_durable_fork.Runtime.Panic.{Panic, unwind, nil_function, Result, ok, panic}
use coroutine_durable_fork.Runtime.Run.{Coroutine}
use coroutine_durable_fork.Runtime.Context.{
  Context, Goroutine, Call, execute, recv, send, stop, done, unwinding, ◌>>=◌,
}

module _ {R S F V W : Type 0} (call : F → Call (Goroutine R S F V W) (Unit {0}))
    (call_r : F → Call (Goroutine R S F V W) R) where
  abbrev pub set_ctx : Context R S F V → Goroutine R S F V W → Goroutine R S F V W
  set_ctx c g = record g { ctx = c }

  abbrev set_result : R → Call (Goroutine R S F V W) (Unit {0})
  set_result r g = (ok tt, set_ctx (record g.ctx { result = r }) g)

  -- c.ctx.entry() or c.ctx.result = c.ctx.entryR(); a nil function panics.
  abbrev enter : Option F → Option F → Call (Goroutine R S F V W) (Unit {0})
  enter (some f) e = call f
  enter none (some f) = call_r f >>= set_result
  enter none none = λ g. (panic nil_function, g)

  unfoldable pub run_entry : Call (Goroutine R S F V W) (Unit {0})
  run_entry g =
      let c = g.ctx in
      enter c.entry c.entry_r (set_ctx (record c { stack = record (c.stack) { fp = negsuc 0 } }) g)

  -- The end of the deferred function, when it does not panic again.
  unfoldable pub finish : Call (Goroutine R S F V W) Bool
  finish g =
      let c = g.ctx in
      if unwinding c
      then (ok (not c.stop), set_ctx (record c { done = c.stop }) g)
      else (ok false, set_ctx (record c { done = true }) g)

  unfoldable pub recovered :
      Result (Unit {0}) × Goroutine R S F V W → Result Bool × Goroutine R S F V W
  unfolding finish
  recovered (ok _, g) = finish g
  recovered (panic unwind, g) = finish g
  recovered (panic p, g) = (panic p, g)

  unfoldable pub next : Call (Goroutine R S F V W) Bool
  next g = if done g.ctx then (ok false, g) else execute (λ g₁. recovered (run_entry g₁)) g

  abbrev pub durable : Coroutine R S (Goroutine R S F V W)
  durable = record {
    next = next;
    recv = λ g. recv g.ctx;
    send = λ v g. set_ctx (send v g.ctx) g;
    stop = λ g. set_ctx (stop g.ctx) g;
    done = λ g. done g.ctx;
  }
