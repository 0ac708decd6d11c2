-- ===== src/Runtime/Process.antt =====
-- What a coroutine is meant to be: a process that yields values, is given one back at each yield,
-- and returns. The runtime never holds such a process: it calls the entry point again from the
-- start, and the frames of the stack lead it back to the yield point.
pub mod Refine
use coroutine_durable_fork.Prelude.{ℕ, suc, ◌≡◌, refl}
use coroutine_durable_fork.Runtime.Panic.{Result, ok, panic}

-- `step u k` changes the program's state by `u` and goes on with what it read of it.
pub data Process (R S W : Type 0) : Type 0 where
  returns : R → Process R S W
  yields : R → (S → Process R S W) → Process R S W
  step : (W → W) → (W → Process R S W) → Process R S W

pub data Event (R S W : Type 0) : Type 0 where
  returned : R → Event R S W
  yielded : R → (S → Process R S W) → Event R S W

-- The callback answers, or panics.
abbrev pub Callback : Type 0 → Type 0 → Type 0 → Type 0
Callback R S W = R → W → Result S × W

abbrev pub answered {ℓ} : {S W : Type 0} {A : Type ℓ} → (S → W → A) → A → Result S × W → A
answered go_on stopped (ok s, w) = go_on s w
answered go_on stopped (panic p, w) = stopped

module _ {R S W : Type 0} where
  -- Up to the next yield, or to the end.
  unfoldable pub advance : Process R S W → W → Event R S W × W
  advance (returns r) w = (returned r, w)
  advance (yields v k) w = (yielded v k, w)
  advance (step u k) w = advance (k w) (u w)

  abbrev pub driven : (S → W → Result R × W) → Result S × W → Result R × W
  driven go_on (ok s, w) = go_on s w
  driven go_on (panic p, w) = (panic p, w)

  -- The process run to its end, each yield answered by the callback; the callback's panic ends it.
  unfoldable pub drive : Callback R S W → Process R S W → W → Result R × W
  drive f (returns r) w = (ok r, w)
  drive f (yields v k) w = driven (λ s w₁. drive f (k s) w₁) (f v w)
  drive f (step u k) w = drive f (k w) (u w)

  -- How often it yields on the way.
  unfoldable pub rounds : Callback R S W → Process R S W → W → ℕ
  rounds f (returns r) w = 0
  rounds f (yields v k) w = suc (answered (λ s w₁. rounds f (k s) w₁) 0 (f v w))
  rounds f (step u k) w = rounds f (k w) (u w)

-- One event at a time.
module _ {R S W : Type 0} (f : Callback R S W) where
  unfoldable pub drive_event : Event R S W × W → Result R × W
  drive_event (returned r, w) = (ok r, w)
  drive_event (yielded v k, w) = driven (λ s w₁. drive f (k s) w₁) (f v w)

  unfoldable pub rounds_event : Event R S W × W → ℕ
  rounds_event (returned r, w) = 0
  rounds_event (yielded v k, w) = suc (answered (λ s w₁. rounds f (k s) w₁) 0 (f v w))

  pub drive-advance : (p : Process R S W) (w : W) → drive f p w ≡ drive_event (advance p w)
  unfolding drive drive_event advance
  drive-advance (returns r) w = refl
  drive-advance (yields v k) w = refl
  drive-advance (step u k) w = drive-advance (k w) (u w)

  pub rounds-advance : (p : Process R S W) (w : W) → rounds f p w ≡ rounds_event (advance p w)
  unfolding rounds rounds_event advance
  rounds-advance (returns r) w = refl
  rounds-advance (yields v k) w = refl
  rounds-advance (step u k) w = rounds-advance (k w) (u w)
