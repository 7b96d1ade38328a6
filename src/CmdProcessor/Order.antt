-- ===== src/CmdProcessor/Order.antt =====
-- The order in which a CmdProcessor executes its commands.
use frc.Prelude.{
  none, some, ℕ, zero, suc, ◌+◌, ◌<◌, ◌≡◌, refl, ap, ◌∙◌, true, false, List, [], ◌∷◌, ◌++◌, arith,
  length, length-append,
}
use frc.ThreadSafeQueue.{
  ThreadSafeQueue, Dequeue, Dequeues, item, waits, interrupted, stop, take, wait,
}
use frc.LogMacros.{robo_exception, thread_interrupted, std_exception, other_exception}
use frc.CmdProcessor.{
  terminated, Cmd, Status, waiting, shut_down_done, handle, logged, CmdProcessor, enqueue,
  enqueue_front, shut_down, destroy, loop_pass, run_loop, go_on, execute_dequeued,
}

-- Executing a list of commands, oldest first, as long as the handlers go on: the last status, the
-- messages logged, and the state.
unfoldable pub execute_all : {S : Type 0} → List (Cmd S) → ℕ → S → Status × ℕ × S
execute_all [] n s = (waiting, n, s)
execute_all (c ∷ cs) n s =
    let (s', thrown) = c s in
    let next = execute_all cs n s' in
    let next_logged = execute_all cs (n + 1) s' in
    elim thrown [
      | none ↦ next
      | some robo_exception ↦ next_logged
      | some std_exception ↦ next_logged
      | some thread_interrupted ↦ (shut_down_done, n, s')
      | some other_exception ↦ (terminated, n, s')
    ]

pub execute_all-empty : {S : Type 0} (n : ℕ) (s : S) → execute_all [] n s ≡ (waiting, n, s)
unfolding execute_all
execute_all-empty n s = refl

-- A command that throws nothing is followed by the others.
pub execute_all-next :
    {S : Type 0} (c : Cmd S) (cs : List (Cmd S)) (n : ℕ) (s s' : S)
    → c s ≡ (s', none)
    → execute_all (c ∷ cs) n s ≡ execute_all cs n s'
unfolding execute_all
execute_all-next c cs n s s' e = rw (ap (λ r. r.1) e, ap (λ r. r.0) e) refl

module _ {S : Type 0} (queues : ThreadSafeQueue (Cmd S)) where
  open queues use {items, is_interrupted, dequeue, dequeue_lem}

  -- The run of `cs` from `p` and `s` ends as `execute_all` says.
  abbrev pub Executes :
      List (Cmd S) → CmdProcessor queues → S → Status × CmdProcessor queues × S → Type 0
  Executes cs p s (status, p', s') = execute_all cs p.errors s ≡ (status, p'.errors, s')

  module _ (fuel : ℕ) (p : CmdProcessor queues) (s : S) where
    Executes-go_on :
        (r : Dequeue (Cmd S) queues.Q)
        → Dequeues items is_interrupted p.queue r
        → is_interrupted p.queue ≡ false
        → length (items p.queue) < suc fuel
        → ((p' : CmdProcessor queues) (s' : S)
            → is_interrupted p'.queue ≡ false
            → length (items p'.queue) < fuel
            → Executes (items p'.queue) p' s' (run_loop queues fuel p' s'))
        → Executes
            (items p.queue)
            p
            s
            (go_on queues (execute_dequeued queues p s r) (λ p' s'. run_loop queues fuel p' s'))
    unfolding execute_all handle
    Executes-go_on interrupted (stop e) open_ enough ih = cc
    Executes-go_on waits (wait e none_left) open_ enough ih = rw none_left refl
    Executes-go_on (item c rest) (take e next still) open_ enough ih =
        let p' : CmdProcessor queues = record {
          queue = rest;
          errors = p.errors + logged (c s).1;
        } in
        let fewer : length (items rest) < fuel = omega (arith, ap length next) in
        rw next (ground (arith, ih p' (c s).0 still fewer))

  -- With more passes than queued commands the thread executes the commands in the order of the queue,
  -- each on the state that the last one left. It logs one message for each RoboException and each
  -- other standard exception and goes on; it returns at the first command that throws
  -- ThreadInterruptedException, and the process ends at the first that throws anything else.
  pub run_loop-execute_all :
      (fuel : ℕ) (p : CmdProcessor queues) (s : S)
      → is_interrupted p.queue ≡ false
      → length (items p.queue) < fuel
      → Executes (items p.queue) p s (run_loop queues fuel p s)
  unfolding run_loop loop_pass
  run_loop-execute_all zero p s running enough = absurd (omega arith)
  run_loop-execute_all (suc fuel) p s running enough =
      Executes-go_on fuel p s (dequeue p.queue) (dequeue_lem p.queue) running enough
        (λ p' s' running' enough'. run_loop-execute_all fuel p' s' running' enough')

  stop_lem :
      (p : CmdProcessor queues) (r : Dequeue (Cmd S) queues.Q)
      → Dequeues items is_interrupted p.queue r
      → is_interrupted p.queue ≡ true
      → r ≡ interrupted
  stop_lem p interrupted (stop e) i = refl
  stop_lem p waits (wait e f) i = cc
  stop_lem p (item c rest) (take e f g) i = cc

  -- The destructor returns: after its ShutDown the thread's next pass returns, and none of the
  -- commands still queued is executed.
  pub destroy_lem :
      (fuel : ℕ) (p : CmdProcessor queues) (s : S)
      → destroy queues (suc fuel) p s ≡ (shut_down_done, shut_down queues p, s)
  unfolding destroy run_loop loop_pass shut_down
  destroy_lem fuel p s =
      rw (stop_lem (shut_down queues p) _ (dequeue_lem _) (queues.is_interrupted-interrupt p.queue))
        refl

  -- A command that is enqueued is executed after all those queued before it, and one that is enqueued
  -- at the front before all of them, if as many passes are made as there are commands, and one more.
  pub run_loop-enqueue :
      (fuel : ℕ) (back front : Cmd S) (p : CmdProcessor queues) (s : S)
      → is_interrupted p.queue ≡ false
      → length (items p.queue) + 2 < fuel
      → let q = enqueue_front queues front (enqueue queues back p) in
        Executes (front ∷ (items p.queue ++ back ∷ [])) q s (run_loop queues fuel q s)
  unfolding enqueue enqueue_front
  run_loop-enqueue fuel back front p s running enough =
      let q1 = queues.enqueue back false p.queue in
      let order : items (queues.enqueue front true q1) ≡ front ∷ (items p.queue ++ back ∷ []) =
        queues.items-enqueue_front front q1
        ∙ ap (◌∷◌ front) (queues.items-enqueue_back back p.queue) in
      rw (← order) (
        run_loop-execute_all fuel (enqueue_front queues front (enqueue queues back p)) s
          (rw
            (
              queues.is_interrupted-enqueue front true q1,
              queues.is_interrupted-enqueue back false p.queue,
            )
            running)
          (omega (arith, ap length order, length-append (items p.queue) (back ∷ []))))
