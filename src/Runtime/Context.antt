-- ===== src/Runtime/Context.antt =====
-- Context, its accessors, LoadContext and Yield: coroutine.go, and the durable Yield of
-- coroutine_durable.go. A call runs in a goroutine, which keeps the context that execute
-- registered; entry points are names of the program's own functions.
use coroutine_durable_fork.Prelude.{Bool, true, false, [], Option, none, some, if◌then◌else◌}
use coroutine_durable_fork.Prelude.Int.{pos}
use coroutine_durable_fork.Runtime.Panic.{
  unwind, yield_after_stop, no_coroutine, type_mismatch, Result, ok, panic,
}
use coroutine_durable_fork.Runtime.Stack.{Stack}

-- `R` and `S` are the types that the coroutine sends and receives, `F` names entry points and `V`
-- is what frames hold.
pub record Context (R S F V : Type 0) : Type 0 where
  pub recv : R
  pub send : S
  pub result : R
  pub done : Bool
  pub stop : Bool
  pub resume : Bool
  pub entry : Option F
  pub entry_r : Option F
  pub stack : Stack V

-- What load returns: nil, this coroutine's context, or a context of other type parameters.
pub data Loaded : Type 0 where
  nil own other : Loaded

-- A goroutine at work on one coroutine. `world` is the rest of the program's state.
pub record Goroutine (R S F V W : Type 0) : Type 0 where
  pub ctx : Context R S F V
  pub loaded : Loaded
  pub world : W

-- A Go call: it may panic, and what it wrote before stays written.
abbrev pub Call : Type 0 → Type 0 → Type 0
Call G A = G → Result A × G

module _ {G A B : Type 0} where
  abbrev and_then : Result A × G → (A → Call G B) → Result B × G
  and_then (ok a, g) f = f a g
  and_then (panic p, g) f = (panic p, g)

  infixl 5 ◌>>=◌
  abbrev pub ◌>>=◌ : Call G A → (A → Call G B) → Call G B
  ◌>>=◌ m f g = and_then (m g) f

module _ {R S F V : Type 0} (zero_r : R) (zero_s : S) where
  abbrev zero_context : Context R S F V
  zero_context = record {
    recv = zero_r;
    send = zero_s;
    result = zero_r;
    done = false;
    stop = false;
    resume = false;
    entry = none;
    entry_r = none;
    stack = record { fp = pos 0; frames = [] };
  }

  unfoldable pub new : F → Context R S F V
  new f = record zero_context { entry = some f }

  unfoldable pub new_with_return : F → Context R S F V
  new_with_return f = record zero_context { entry_r = some f }

-- The methods of Coroutine that read or set one field of the context.
module _ {R S F V : Type 0} where
  abbrev pub recv : Context R S F V → R
  recv c = c.recv

  abbrev pub send : S → Context R S F V → Context R S F V
  send v c = record c { send = v }

  abbrev pub result : Context R S F V → R
  result c = c.result

  abbrev pub stop : Context R S F V → Context R S F V
  stop c = record c { stop = true }

  abbrev pub done : Context R S F V → Bool
  done c = c.done

  abbrev pub unwinding : Context R S F V → Bool
  unwinding c = c.resume

module _ {R S F V : Type 0} where
  abbrev context_of : Loaded → Context R S F V → Result (Context R S F V)
  context_of own c = ok c
  context_of nil c = panic no_coroutine
  context_of other c = panic type_mismatch

-- The goroutine's slot past the end of its g struct: what execute writes and load reads.
module _ {R S F V W : Type 0} where
  -- prevOffset is put back by a deferred call, also when f panics.
  unfoldable pub execute :
      {A : Type 0} → Call (Goroutine R S F V W) A → Call (Goroutine R S F V W) A
  execute f g = let (r, g₁) = f (record g { loaded = own }) in (r, record g₁ { loaded = g.loaded })

  unfoldable pub load_context : Call (Goroutine R S F V W) (Context R S F V)
  load_context g = (context_of g.loaded g.ctx, g)

-- Yield, as a method of the context and as the package's function.
unfoldable pub context_yield : {R S F V : Type 0} → S → R → Call (Context R S F V) S
context_yield zero_s v c =
    if c.resume
    then (let c₁ = record c { resume = false } in
        if c.stop then (panic unwind, c₁) else (ok c.send, c₁))
    else if c.stop
    then (panic yield_after_stop, c)
    else (panic unwind, record c { resume = true; send = zero_s; recv = v })

module _ {R S F V W : Type 0} (zero_s : S) where
  -- A method on the loaded context, which the goroutine shares.
  abbrev on_context : {A : Type 0} → Call (Context R S F V) A → Call (Goroutine R S F V W) A
  on_context m g = let (r, c) = m g.ctx in (r, record g { ctx = c })

  unfoldable pub yield : R → Call (Goroutine R S F V W) S
  unfolding load_context context_yield
  yield v = load_context >>= λ _. on_context (context_yield zero_s v)
