-- ===== src/ListenerManager/Thread.antt =====
-- src/EventManager/ListenerManager.cpp: the loop of `run` with the wait that ends each pass, and the
-- destructor, which interrupts the wait and joins the thread. InterruptibleWaiter is another
-- repository's class and is an interface: what its calls do, and that an interrupt ends a wait.
use frc.Prelude.{
  ℕ, ◌≡◌, refl, ap, ◌∙◌, Bool, true, false, List, [], ◌∷◌, ◌++◌, Option, if◌then◌else◌, sym,
  Bool-cases, inl, inr,
}
use mathlib.Core.List.{append-nil}
use frc.LogMacros.{Exception, Severity}
use frc.Double.{Double}
use frc.ListenerManager.{Joystick, ListenerManager}
use frc.ListenerManager.Invocations.{cycle}

-- `wait` returns or, as the flag says, throws ThreadInterruptedException.
pub record InterruptibleWaiter : Type 1 where
  pub W : Type 0
  pub is_interrupted : W → Bool
  pub wait : ℕ → W → Bool × W
  pub interrupt : W → W
  pub is_interrupted-interrupt : (w : W) → is_interrupted (interrupt w) ≡ true
  pub thrown-wait : (n : ℕ) (w : W) → (wait n w).0 ≡ is_interrupted w
  pub is_interrupted-wait :
      (n : ℕ) (w : W) → is_interrupted w ≡ false → is_interrupted (wait n w).1 ≡ false

-- The interface can be met: a flag that stays.
abbrev pub flag_waiter : InterruptibleWaiter
flag_waiter = record {
  W = Bool;
  is_interrupted = λ w. w;
  wait = λ n w. (w, w);
  interrupt = λ w. true;
  is_interrupted-interrupt = λ w. refl;
  thrown-wait = λ n w. refl;
  is_interrupted-wait = λ n w h. h;
}

-- What the controller shows in a pass, and whether the destructor is called before its wait ends.
pub record Pass (D : Type 0) : Type 0 where
  pub joystick : Joystick D
  pub is_last : Bool

-- The polls up to the pass in which the destructor is called.
abbrev pub up_to_last : {D : Type 0} → List (Pass D) → List (Joystick D)
up_to_last [] = []
up_to_last (p ∷ ps) = let rest = up_to_last ps in p.joystick ∷ (if p.is_last then [] else rest)

abbrev pub any_last : {D : Type 0} → List (Pass D) → Bool
any_last [] = false
any_last (p ∷ ps) = let rest = any_last ps in if p.is_last then true else rest

module _ {D S : Type 0} ⦃d : Double D⦄ (order : List ℕ → List ℕ)
    (call : ℕ → ListenerManager D × S → (ListenerManager D × S) × Option Exception)
    (waiter : InterruptibleWaiter) where
  open waiter use {W, wait, interrupt, is_interrupted}

  -- How far the thread is: whether `run` has returned, the waiter, the state, and the messages logged.
  pub record Progress : Type 0 where
    pub has_returned : Bool
    pub waiter_state : W
    pub state : ListenerManager D × S
    pub log : List Severity

  -- `interrupt` in the destructor, where it is called.
  unfoldable pub destroy_if : Bool → W → W
  destroy_if is_last w = if is_last then interrupt w else w

  -- The loop, for the passes that the schedule has.
  unfoldable pub run_thread : List (Pass D) → W → ListenerManager D × S → Progress
  run_thread [] w s = record { has_returned = false; waiter_state = w; state = s; log = [] }
  run_thread (p ∷ ps) w s =
      let (s', log) = cycle order call p.joystick s in
      let (thrown, w') = wait 50 (destroy_if p.is_last w) in
      let rest = run_thread ps w' s' in
      if thrown
      then record { has_returned = true; waiter_state = w'; state = s'; log = log }
      else record rest { log = log ++ rest.log }

  -- Cycles in a row.
  abbrev pub cycles :
      List (Joystick D) → ListenerManager D × S → (ListenerManager D × S) × List Severity
  cycles [] s = (s, [])
  cycles (j ∷ js) s =
      let (s', log) = cycle order call j s in let (s'', more) = cycles js s' in (s'', log ++ more)

  destroy_if-is_interrupted :
      (is_last : Bool) (w : W)
      → is_interrupted w ≡ false
      → is_interrupted (destroy_if is_last w) ≡ is_last
  unfolding destroy_if
  destroy_if-is_interrupted true w h = waiter.is_interrupted-interrupt w
  destroy_if-is_interrupted false w h = h

  -- The thread polls and calls listeners until the wait of the pass in which the destructor is
  -- called, and returns there: the state and the messages are those of the cycles up to that pass,
  -- it included, whatever the controller would show later and whatever exceptions the listeners
  -- throw. It does not return while the destructor is not called.
  pub run_thread_lem :
      (ps : List (Pass D)) (w : W) (s : ListenerManager D × S)
      → is_interrupted w ≡ false
      → ((run_thread ps w s).has_returned ≡ any_last ps)
        × ((run_thread ps w s).state ≡ (cycles (up_to_last ps) s).0)
        × ((run_thread ps w s).log ≡ (cycles (up_to_last ps) s).1)
  unfolding run_thread
  run_thread_lem [] w s h = (refl, refl, refl)
  run_thread_lem (p ∷ ps) w s h =
      let w1 = destroy_if p.is_last w in
      let flag = waiter.thrown-wait 50 w1 ∙ destroy_if-is_interrupted p.is_last w h in
      elim (Bool-cases p.is_last) [
        | inl last ↦ rw (flag, last) (refl, refl, sym (append-nil _))
        | inr going ↦
            let (s', messages) = cycle order call p.joystick s in
            let (returned, same, log) =
              run_thread_lem ps (wait 50 (destroy_if false w)).1 s'
                (waiter.is_interrupted-wait 50 _ (destroy_if-is_interrupted false w h)) in
            rw (flag, going) (returned, same, ap (λ l. messages ++ l) log)
      ]
