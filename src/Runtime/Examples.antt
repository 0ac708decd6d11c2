-- ===== src/Runtime/Examples.antt =====
-- Runs of the runtime: a stack by hand, and the coroutine that
--     func f() int { s := coroutine.Yield[int, int](1); return s + 1 }
-- compiles to.
use coroutine_durable_fork.Prelude.{
  some, ℕ, suc, ◌+◌, ◌≡◌, refl, true, false, List, [], ◌∷◌, arith, if◌then◌else◌,
}
use coroutine_durable_fork.Prelude.Int.{pos, ◌+ℤ◌}
use coroutine_durable_fork.Runtime.Panic.{yield_after_stop, Result, ok, panic, user}
use coroutine_durable_fork.Runtime.Stack.{Frame, Stack, push, pop, is_top}
use coroutine_durable_fork.Runtime.Stack.Rewind.{
  pop-push, rewind, push-pop-IsWithin, replay, slots, entered, IsWithin,
}
use coroutine_durable_fork.Runtime.Context.{
  result, Goroutine, Call, ◌>>=◌, own, nil, recv, unwinding, yield, new_with_return,
}
use coroutine_durable_fork.Runtime.Next.{next, durable}
use coroutine_durable_fork.Runtime.Run.{run}
use coroutine_durable_fork.Runtime.Next.Laws.{Ends, next-Ends, next_final, yield_twice}
use coroutine_durable_fork.Runtime.Process.{
  Process, returns, yields, advance, drive, rounds, Callback,
}
use coroutine_durable_fork.Runtime.Process.Refine.{IsCompiled, Ran, run-Ran, Kept, lifted}
use coroutine_durable_fork.Runtime.Modes.{seen, modes_agree, stop_before_start}
use coroutine_durable_fork.Runtime.Volatile.{
  Volatile, volatile, next as volatile_next, new_with_return as volatile_new,
}
use coroutine_durable_fork.Runtime.Volatile.Refine.{
  lifted as volatile_lifted, Ran as VolatileRan, volatile-run-Ran, next_stopped,
}

abbrev frame : Frame ℕ
frame = record { tag = 7; fields = 0 }

abbrev two_frames : Stack ℕ
two_frames = record { fp = pos 1; frames = frame ∷ frame ∷ [] }

pop-push_example :
    ((push frame two_frames).0 ≡ ok 2) × (pop (push frame two_frames).1 ≡ (ok tt, two_frames))
unfolding is_top
pop-push_example = pop-push frame two_frames refl

rewind_example :
    (replay (frame ∷ frame ∷ []) (entered 0 (frame ∷ frame ∷ []))
      ≡ (slots 0 (frame ∷ frame ∷ []), entered 2 (frame ∷ frame ∷ [])))
    × (is_top (entered 2 (frame ∷ frame ∷ [])) ≡ true)
rewind_example = rewind (frame ∷ frame ∷ []) (frame ∷ frame ∷ []) (omega arith)

push-pop-IsWithin_example : IsWithin (push frame two_frames).1 × IsWithin (pop two_frames).1
unfolding ◌+ℤ◌
push-pop-IsWithin_example = push-pop-IsWithin frame two_frames (omega arith)

-- One goroutine over these types; the world counts the calls of the callback.
abbrev G : Type 0
G = Goroutine ℕ ℕ (Unit {0}) ℕ ℕ

abbrev set_stack : Stack ℕ → G → G
set_stack st g = record g { ctx = record g.ctx { stack = st } }

-- defer func() { if !_c.Unwinding() { coroutine.Pop(&_c.Stack) } }()
unwound : Result ℕ × G → Result ℕ × G
unwound (r, g) = if unwinding g.ctx then (r, g) else (r, set_stack (pop g.ctx.stack).1 g)

plus_one : Result ℕ × G → Result ℕ × G
plus_one (ok s, g) = (ok (s + 1), g)
plus_one (panic p, g) = (panic p, g)

pushed : Result ℕ × Stack ℕ → G → Result ℕ × G
unfolding unwound plus_one
pushed (ok i, st) g = unwound (plus_one (yield 0 1 (set_stack st g)))
pushed (panic p, st) g = (panic p, set_stack st g)

compiled : Unit {0} → Call G ℕ
unfolding pushed
compiled _ g = pushed (push frame g.ctx.stack) g

absent : Unit {0} → Call G (Unit {0})
absent _ g = (ok tt, g)

source : Process ℕ ℕ ℕ
source = yields 1 (λ s. returns (s + 1))

abbrev Waits : List (Frame ℕ) → (ℕ → Process ℕ ℕ ℕ) → Type 0
Waits fs k = (fs ≡ frame ∷ []) × (k ≡ (λ s. returns (s + 1)))

compiled-IsCompiled : IsCompiled absent compiled tt Waits source
unfolding compiled source advance yield push pop
compiled-IsCompiled = record {
  starts = λ g kept u empty. (
    ground arith,
    ground (arith, kept.alive, kept.unstopped, kept.no_entry, kept.has_entry_r),
    ground arith,
    ground arith,
    ground arith,
    ground arith,
  );
  resumes = λ g k kept u waits. rw (waits.1) (
    ground arith,
    ground (arith, kept.alive, kept.unstopped, kept.no_entry, kept.has_entry_r),
    ground arith,
    ground arith,
  );
  interrupts = λ g k kept u waits. (ground arith, ground arith);
}

-- The coroutine before its first Next, in a goroutine that runs no other.
abbrev fresh : G
fresh = record { ctx = new_with_return 0 0 tt; loaded = nil; world = 0 }

fresh-Kept : Kept absent compiled tt Waits fresh.ctx
unfolding new_with_return
fresh-Kept = record { alive = refl; unstopped = refl; no_entry = refl; has_entry_r = refl }

-- Answers 41 and counts the call.
abbrev answer : Callback ℕ ℕ ℕ
answer v w = (ok 41, suc w)

-- Panics.
abbrev refuse : Callback ℕ ℕ ℕ
refuse v w = (panic (user 3), w)

run-Ran_example :
    Ran absent compiled tt Waits answer source compiled-IsCompiled
      (ok 42, 1)
      (run (durable absent compiled) (lifted absent compiled tt Waits answer) 2 fresh)
unfolding new_with_return drive rounds source
run-Ran_example =
    run-Ran absent compiled tt Waits answer source compiled-IsCompiled 2 fresh fresh-Kept refl refl
      (omega arith)

run-Ran_refused :
    Ran absent compiled tt Waits refuse source compiled-IsCompiled
      (panic (user 3), 0)
      (run (durable absent compiled) (lifted absent compiled tt Waits refuse) 2 fresh)
unfolding new_with_return drive rounds source
run-Ran_refused =
    run-Ran absent compiled tt Waits refuse source compiled-IsCompiled 2 fresh fresh-Kept refl refl
      (omega arith)

next-Ends_example : Ends fresh (next absent compiled fresh)
next-Ends_example = next-Ends absent compiled fresh

abbrev over : G
over = record fresh { ctx = record fresh.ctx { done = true } }

still_over : next absent compiled over ≡ (ok false, over)
unfolding next
still_over = next_final absent compiled over over refl

abbrev running : G
running = record fresh { loaded = own }

yield_twice_example : recv (yield 0 5 running).1.ctx ≡ 5
unfolding new_with_return
yield_twice_example = (yield_twice 0 5 6 9 running refl refl refl).1

modes_agree_example :
    let in_durable =
      run (durable absent compiled) (lifted absent compiled tt Waits answer) 2 fresh in
    seen (λ h. result h.ctx) (λ h. h.world) in_durable ≡ some (ok (42, 1))
unfolding new_with_return drive rounds source
modes_agree_example =
    (modes_agree absent compiled tt Waits 0 0 answer source compiled-IsCompiled 2 fresh fresh-Kept
      refl refl (omega arith)).0

-- An entry point that only yields, and the coroutine of it after a Stop that came too early.
abbrev yielder : Unit {0} → Call G ℕ
yielder _ = yield 0 1 >>= λ s g. (ok s, g)

abbrev stopped_early : G
stopped_early = record fresh { ctx = record fresh.ctx { stop = true } }

stop_before_start_example : (next absent yielder stopped_early).0 ≡ panic yield_after_stop
unfolding new_with_return
stop_before_start_example =
    (stop_before_start absent yielder tt Waits 0 0 1 (λ s g. (ok s, g)) stopped_early source
      (λ h. refl) refl refl refl refl refl).0

abbrev live : Volatile ℕ ℕ ℕ
live = volatile_new 0 0 source 0

volatile-run-Ran_example :
    VolatileRan 0 0 answer (ok 42, 1) (run (volatile 0 0) (volatile_lifted 0 0 answer) 2 live)
unfolding volatile_new drive rounds source
volatile-run-Ran_example = volatile-run-Ran 0 0 answer 2 live (refl, refl) (omega arith)

next_stopped_example :
    volatile_next 0 0 (record live { stop = true })
    ≡ (ok false, record live { stop = true; done = true })
next_stopped_example = next_stopped 0 0 (record live { stop = true }) refl
