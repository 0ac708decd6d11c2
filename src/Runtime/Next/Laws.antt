-- ===== src/Runtime/Next/Laws.antt =====
-- What a caller may rely on after Next, and how the two halves of a Yield fit together.
use coroutine_durable_fork.Prelude.{
  Bool, true, false, ◌≡◌, ◌≢◌, refl, sym, subst, arith, inl, inr, Bool-cases,
}
use coroutine_durable_fork.Runtime.Panic.{unwind, Result, ok, panic}
use coroutine_durable_fork.Runtime.Context.{
  Goroutine, Call, own, execute, recv, send, done, unwinding, yield,
}
use coroutine_durable_fork.Runtime.Next.{next, recovered, finish, run_entry}

-- How Next may end when it began at `g`: suspended at a yield point, finished, or with a panic of
-- the program, never with the unwinding of its own stack.
abbrev pub Ends :
    {R S F V W : Type 0} → Goroutine R S F V W → Result Bool × Goroutine R S F V W → Type 0
Ends g (ok true, h) =
    (done h.ctx ≡ false) × (unwinding h.ctx ≡ true) × (h.ctx.stop ≡ false) × (h.loaded ≡ g.loaded)
Ends g (ok false, h) = (done h.ctx ≡ true) × (h.loaded ≡ g.loaded)
Ends g (panic p, h) = (p ≢ unwind) × (h.loaded ≡ g.loaded)

module _ {R S F V W : Type 0} (call : F → Call (Goroutine R S F V W) (Unit {0}))
    (call_r : F → Call (Goroutine R S F V W) R) where
  restored :
      Goroutine R S F V W → Result Bool × Goroutine R S F V W → Result Bool × Goroutine R S F V W
  restored g (r, h) = (r, record h { loaded = g.loaded })

  finish-Ends : (g h : Goroutine R S F V W) → Ends g (restored g (finish call call_r h))
  unfolding finish restored
  finish-Ends g h = elim (Bool-cases (unwinding h.ctx)) [
    | inl u ↦ elim (Bool-cases h.ctx.stop) [
      | inl s ↦ rw (u, s) (refl, refl)
      | inr s ↦ rw (u, s) (refl, refl, refl, refl)
    ]
    | inr u ↦ rw u (refl, refl)
  ]

  recovered-Ends :
      (g : Goroutine R S F V W) (out : Result (Unit {0}) × Goroutine R S F V W)
      → Ends g (restored g (recovered call call_r out))
  unfolding recovered restored
  recovered-Ends g (ok a, h) = finish-Ends g h
  recovered-Ends g (panic unwind, h) = finish-Ends g h
  recovered-Ends g (panic _, h) = ((λ e. cc), refl)

  next_running :
      (g : Goroutine R S F V W)
      → done g.ctx ≡ false
      → next call call_r g
        ≡ restored g (recovered call call_r (run_entry call call_r (record g { loaded = own })))
  unfolding next execute restored
  next_running g d = ground arith

  next_over : (g : Goroutine R S F V W) → done g.ctx ≡ true → next call call_r g ≡ (ok false, g)
  unfolding next
  next_over g d = ground arith

  -- Next returns true exactly at a coroutine that has yielded and can be resumed, and false only
  -- at one that is done. A panic that leaves it is never the unwinding of its own stack. On every
  -- path, the panics included, the goroutine gets back the coroutine that was loaded before.
  pub next-Ends : (g : Goroutine R S F V W) → Ends g (next call call_r g)
  next-Ends g = elim (Bool-cases (done g.ctx)) [
    | inl d ↦ subst (Ends g) (sym (next_over g d)) (d, refl)
    | inr d ↦ subst (Ends g) (sym (next_running g d)) (recovered-Ends g _)
  ]

  -- Once Next has returned false, every further call returns false and changes nothing.
  pub next_final :
      (g h : Goroutine R S F V W)
      → next call call_r g ≡ (ok false, h)
      → next call call_r h ≡ (ok false, h)
  next_final g h e = next_over h (subst (Ends g) e (next-Ends g)).0

module _ {R S F V W : Type 0} (zero_s : S) where
  -- A Yield that suspends and the same Yield when the coroutine runs again: the first unwinds and
  -- hands over its value, the second returns what was sent in between, whatever it is called with,
  -- and the coroutine runs on with nothing else changed.
  pub yield_twice :
      (v u : R) (s : S) (g : Goroutine R S F V W)
      → g.loaded ≡ own
      → unwinding g.ctx ≡ false
      → g.ctx.stop ≡ false
      → let out = yield zero_s v g in
        let sent = record out.1 { ctx = send s out.1.ctx } in
        (out.0 ≡ panic unwind)
        × (recv out.1.ctx ≡ v)
        × (unwinding out.1.ctx ≡ true)
        × (yield zero_s u sent ≡ (ok s, record g { ctx = record g.ctx { recv = v; send = s } }))
  unfolding yield
  yield_twice v u s g l r t = ground arith
