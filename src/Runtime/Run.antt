-- ===== src/Runtime/Run.antt =====
-- Run of coroutine.go, over the operations of a coroutine, which the durable and the volatile
-- runtime both provide. A call may panic and keeps what it wrote.
use coroutine_durable_fork.Prelude.{
  ℕ, zero, suc, Bool, true, false, Option, none, some, if◌then◌else◌,
}
use coroutine_durable_fork.Runtime.Panic.{Result, ok, panic}
use coroutine_durable_fork.Runtime.Context.{Call}

-- `G` holds the coroutine and the state of the program that drives it.
pub record Coroutine (R S G : Type 0) : Type 0 where
  pub next : Call G Bool
  pub recv : G → R
  pub send : S → G → G
  pub stop : G → G
  pub done : G → Bool

-- The callback is the program's own: it may panic, and it may use the coroutine.
module _ {R S G : Type 0} (c : Coroutine R S G) (f : R → Call G S) where
  abbrev pub after_send :
      (G → Option (Result (Unit {0}) × G)) → Result S × G → Option (Result (Unit {0}) × G)
  after_send again (panic p, g) = some (panic p, g)
  after_send again (ok s, g) = again (c.send s g)

  abbrev pub after_next :
      (G → Option (Result (Unit {0}) × G)) → Result Bool × G → Option (Result (Unit {0}) × G)
  after_next again (panic p, g) = some (panic p, g)
  after_next again (ok false, g) = some (ok tt, g)
  after_next again (ok true, g) = after_send again (f (c.recv g) g)

  -- `for c.Next() { … }`, on fuel; `none` where the fuel runs out.
  unfoldable pub loop : ℕ → G → Option (Result (Unit {0}) × G)
  loop zero g = none
  loop (suc n) g = after_next (λ g₁. loop n g₁) (c.next g)

  -- A panic of the deferred function takes the place of the one before.
  abbrev pub instead : Result (Unit {0}) → Result Bool × G → Result (Unit {0}) × G
  instead r (panic p, g) = (panic p, g)
  instead r (ok _, g) = (r, g)

  -- The deferred function: if !c.Done() { c.Stop(); c.Next() }
  unfoldable pub close : Result (Unit {0}) × G → Result (Unit {0}) × G
  close (r, g) = if c.done g then (r, g) else instead r (c.next (c.stop g))

  unfoldable pub run : ℕ → G → Option (Result (Unit {0}) × G)
  unfolding loop close
  run n g = elim (loop n g) [ none ↦ none | some out ↦ some (close out) ]
