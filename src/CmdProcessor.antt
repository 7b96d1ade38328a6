-- ===== src/CmdProcessor.antt =====
-- src/EventManager/CmdProcessor.h, CmdProcessor.cpp and Cmd.h: an active object that executes commands
-- from a queue on its own thread.
pub mod Order
pub mod Progress
use frc.Prelude.{ℕ, zero, suc, ◌+◌, Bool, true, false, Option, none, some}
use frc.LogMacros.{Exception, robo_exception, thread_interrupted, std_exception, other_exception}
use frc.ThreadSafeQueue.{ThreadSafeQueue, Dequeue, item, waits, interrupted}

-- `Cmd::Functor`: a call changes the program's state, and may end by an exception.
abbrev pub Cmd : Type 0 → Type 0
Cmd S = S → S × Option Exception

-- What a pass of the thread's loop leads to: the next pass, a wait for a command, the thread's return,
-- or the end of the process, by an exception that no handler of the loop takes.
pub data Status : Type 0 where
  looping waiting shut_down_done terminated : Status

-- The handlers of the loop, in their order.
unfoldable pub handle : Option Exception → Status
handle none = looping
handle (some thread_interrupted) = shut_down_done
handle (some robo_exception) = looping
handle (some std_exception) = looping
handle (some other_exception) = terminated

-- The error messages that the handlers log.
abbrev pub logged : Option Exception → ℕ
logged (some robo_exception) = 1
logged (some std_exception) = 1
logged _ = 0

module _ {S : Type 0} (queues : ThreadSafeQueue (Cmd S)) where
  open queues use {Q, empty, interrupt, dequeue}

  pub record CmdProcessor : Type 0 where
    pub queue : Q
    pub errors : ℕ

  unfoldable pub new_processor : CmdProcessor
  new_processor = record { queue = empty; errors = 0 }

  unfoldable pub enqueue : Cmd S → CmdProcessor → CmdProcessor
  enqueue c p = record p { queue = queues.enqueue c false p.queue }

  unfoldable pub enqueue_front : Cmd S → CmdProcessor → CmdProcessor
  enqueue_front c p = record p { queue = queues.enqueue c true p.queue }

  unfoldable pub shut_down : CmdProcessor → CmdProcessor
  shut_down p = record p { queue = interrupt p.queue }

  -- One pass of the loop of `operator()`.
  abbrev pub execute_dequeued : CmdProcessor → S → Dequeue (Cmd S) Q → Status × CmdProcessor × S
  execute_dequeued p s interrupted = (shut_down_done, p, s)
  execute_dequeued p s waits = (waiting, p, s)
  execute_dequeued p s (item c rest) =
      let (s', thrown) = c s in
      (handle thrown, record { queue = rest; errors = p.errors + logged thrown }, s')

  unfoldable pub loop_pass : CmdProcessor → S → Status × CmdProcessor × S
  loop_pass p s = execute_dequeued p s (dequeue p.queue)

  -- Another pass follows a pass that ends in `looping`.
  abbrev pub go_on :
      Status × CmdProcessor × S
      → (CmdProcessor → S → Status × CmdProcessor × S)
      → Status × CmdProcessor × S
  go_on (looping, p, s) k = k p s
  go_on (waiting, p, s) k = (waiting, p, s)
  go_on (shut_down_done, p, s) k = (shut_down_done, p, s)
  go_on (terminated, p, s) k = (terminated, p, s)

  -- The loop, for at most so many passes.
  unfoldable pub run_loop : ℕ → CmdProcessor → S → Status × CmdProcessor × S
  run_loop zero p s = (looping, p, s)
  run_loop (suc fuel) p s = go_on (loop_pass p s) (λ p' s'. run_loop fuel p' s')

  -- The destructor: ShutDown, and the join, which waits for the passes that the thread still makes.
  unfoldable pub destroy : ℕ → CmdProcessor → S → Status × CmdProcessor × S
  destroy fuel p s = run_loop fuel (shut_down p) s
