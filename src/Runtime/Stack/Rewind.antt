-- ===== src/Runtime/Stack/Rewind.antt =====
-- Push and Pop on the way down and up: a call that returns leaves the stack as it was, and a
-- resumed coroutine meets its frames again in their order.
use coroutine_durable_fork.Prelude.{
  ℕ, suc, ◌-◌, ◌≡◌, refl, ap, true, List, [], ◌∷◌, ◌++◌, some, arith, length, length-append,
  length-take, get_elem?, take, append_assoc, append-nil,
}
use coroutine_durable_fork.Prelude.Int.{pos, negsuc, ◌+ℤ◌, ◌-ℤ◌, ◌≤ℤ◌, sub_ℕ}
use coroutine_durable_fork.Runtime.Panic.{Result, ok}
use coroutine_durable_fork.Runtime.Stack.{Frame, Stack, is_top, push, pop}

module _ {V : Type 0} where
  -- The frame pointer names a frame, or stands before the first.
  abbrev pub IsWithin : Stack V → Type 0
  IsWithin s = (negsuc 0 ≤ℤ s.fp) × (s.fp +ℤ pos 1 ≤ℤ pos (length s.frames))

  take-length : (fs gs : List (Frame V)) → take (length fs) (fs ++ gs) ≡ fs
  take-length [] gs = refl
  take-length (f ∷ fs) gs = ap (λ xs. f ∷ xs) (take-length fs gs)

  at-length : (fs gs : List (Frame V)) (f : Frame V) → get_elem? (fs ++ f ∷ gs) (length fs) ≡ some f
  at-length [] gs f = refl
  at-length (g ∷ fs) gs f = at-length fs gs f

  next_fp : (s : Stack V) → is_top s ≡ true → s.fp +ℤ pos 1 ≡ pos (length s.frames)
  unfolding is_top ◌+ℤ◌
  next_fp s top = ground arith

  back_fp : (s : Stack V) → is_top s ≡ true → pos (length s.frames) -ℤ pos 1 ≡ s.fp
  unfolding is_top ◌-ℤ◌
  back_fp s top = ground arith

  pushed : Frame V → Stack V → Stack V
  pushed f s = record { fp = pos (length s.frames); frames = s.frames ++ f ∷ [] }

  pushed-top : (f : Frame V) (s : Stack V) → is_top (pushed f s) ≡ true
  unfolding is_top pushed
  pushed-top f s = ground (arith, length-append s.frames (f ∷ []))

  push_top :
      (f : Frame V) (s : Stack V) → is_top s ≡ true → push f s ≡ (ok (length s.frames), pushed f s)
  unfolding push pushed
  push_top f s top = rw (top, next_fp s top, at-length s.frames [] f) (ground arith)

  last_slot :
      (f : Frame V) (fs : List (Frame V)) → sub_ℕ (length (fs ++ f ∷ [])) 1 ≡ pos (length fs)
  last_slot f fs = ground (arith, length-append fs (f ∷ []))

  pop-pushed : (f : Frame V) (s : Stack V) → is_top s ≡ true → pop (pushed f s) ≡ (ok tt, s)
  unfolding pop
  pop-pushed f s top =
      rw (pushed-top f s)
        (unfold pushed in rw (last_slot f s.frames, back_fp s top, take-length s.frames (f ∷ [])))

  -- From the topmost frame, Push makes room for the callee in a new last slot, and Pop then gives
  -- back the stack as it was.
  pub pop-push :
      (f : Frame V) (s : Stack V)
      → is_top s ≡ true
      → ((push f s).0 ≡ ok (length s.frames)) × (pop (push f s).1 ≡ (ok tt, s))
  pop-push f s top = rw (push_top f s top) (refl, pop-pushed f s top)

  -- The calls that a resumed coroutine makes again, outermost first.
  pub replay : List (Frame V) → Stack V → List (Result ℕ) × Stack V
  replay [] s = ([], s)
  replay (f ∷ fs) s = let (r, s₁) = push f s in let (rs, s₂) = replay fs s₁ in (r ∷ rs, s₂)

  pub slots : ℕ → List (Frame V) → List (Result ℕ)
  slots k [] = []
  slots k (f ∷ fs) = ok k ∷ slots (suc k) fs

  -- The stack inside the call of the k-th frame.
  pub entered : ℕ → List (Frame V) → Stack V
  entered k fs = record { fp = sub_ℕ k 1; frames = fs }

  -- Two lists of frames of the same Go types.
  abbrev pub SameTypes : List (Frame V) → List (Frame V) → Type 0
  SameTypes [] [] = Unit
  SameTypes (f ∷ fs) (g ∷ gs) = (f.tag ≡ g.tag) × SameTypes fs gs
  SameTypes _ _ = ⊥

  push_below :
      (f g : Frame V) (before after : List (Frame V))
      → f.tag ≡ g.tag
      → push f (entered (length before) (before ++ g ∷ after))
        ≡ (ok (length before), entered (suc (length before)) (before ++ g ∷ after))
  unfolding push entered is_top ◌+ℤ◌
  push_below f g before after e =
      ground (arith, length-append before (g ∷ after), at-length before after g)

  snoc :
      (before after : List (Frame V)) (g : Frame V)
      → (before ++ g ∷ []) ++ after ≡ before ++ g ∷ after
  snoc before after g = append_assoc before (g ∷ []) after

  length-snoc :
      (before : List (Frame V)) (g : Frame V) → length (before ++ g ∷ []) ≡ suc (length before)
  length-snoc before g = omega (arith, length-append before (g ∷ []))

  rewind_from :
      (fresh before after : List (Frame V))
      → SameTypes fresh after
      → replay fresh (entered (length before) (before ++ after))
        ≡ (slots (length before) after, entered (length (before ++ after)) (before ++ after))
  unfolding replay slots
  rewind_from [] before [] same = rw append-nil
  rewind_from [] before (g ∷ after) same = absurd same
  rewind_from (f ∷ fresh) before [] same = absurd same
  rewind_from (f ∷ fresh) before (g ∷ after) same =
      let next : replay fresh (entered (suc (length before)) (before ++ g ∷ after)) ≡ (
        slots (suc (length before)) after,
        entered (length (before ++ g ∷ after)) (before ++ g ∷ after),
      ) =
        rw (snoc before after g, length-snoc before g) at
          (rewind_from fresh (before ++ g ∷ []) after same.1) in
      rw (push_below f g before after same.0, next) refl

  -- Next sets FP to -1. A resumed coroutine that calls the functions of its frames again, in
  -- their order, gets each frame from its own slot, loses none, and ends on the topmost one.
  pub rewind :
      (fresh frames : List (Frame V))
      → SameTypes fresh frames
      → (replay fresh (entered 0 frames) ≡ (slots 0 frames, entered (length frames) frames))
        × (is_top (entered (length frames) frames) ≡ true)
  unfolding is_top entered
  rewind fresh frames same = (rewind_from fresh [] frames same, ground arith)

  push-IsWithin : (f : Frame V) (s : Stack V) → IsWithin s → IsWithin (push f s).1
  unfolding push is_top ◌+ℤ◌
  push-IsWithin f s w = ground (arith, length-append s.frames (f ∷ []))

  pop-IsWithin : (s : Stack V) → IsWithin s → IsWithin (pop s).1
  unfolding pop is_top ◌-ℤ◌ ◌+ℤ◌
  pop-IsWithin s w = ground (arith, length-take (length s.frames - 1) s.frames)

  -- Whatever they end in, a panic included, Push and Pop leave FP before the first frame or on a
  -- frame of the stack.
  pub push-pop-IsWithin :
      (f : Frame V) (s : Stack V) → IsWithin s → IsWithin (push f s).1 × IsWithin (pop s).1
  push-pop-IsWithin f s w = (push-IsWithin f s w, pop-IsWithin s w)
