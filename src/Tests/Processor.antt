-- ===== src/Tests/Processor.antt =====
-- Runs of a CmdProcessor whose state is a number, over a queue that is a list.
use frc.Prelude.{ℕ, ◌≡◌, refl, [], ◌∷◌, ◌*◌, ◌+◌, false, none, some, arith}
use frc.LogMacros.{robo_exception, thread_interrupted}
use frc.ThreadSafeQueue.{list_queue}
use frc.CmdProcessor.{
  Cmd, CmdProcessor, shut_down_done, handle, new_processor, enqueue, enqueue_front, shut_down,
  destroy, loop_pass, run_loop,
}
use frc.CmdProcessor.Order.{
  execute_all, Executes, run_loop-execute_all, destroy_lem, run_loop-enqueue,
}

abbrev double : Cmd ℕ
double n = (n * 2, none)

abbrev fail : Cmd ℕ
fail n = (n + 1, some robo_exception)

abbrev stop : Cmd ℕ
stop n = (n, some thread_interrupted)

abbrev queued : CmdProcessor (list_queue (Cmd ℕ))
queued = record { queue = (fail ∷ double ∷ stop ∷ double ∷ [], false); errors = 0 }

run_loop_test : let (status, p, s) = run_loop (list_queue (Cmd ℕ)) 5 queued 3 in s ≡ 8
unfolding run_loop loop_pass handle
run_loop_test = refl

new_processor_test :
    (enqueue_front
      (list_queue (Cmd ℕ))
      stop
      (enqueue (list_queue (Cmd ℕ)) double (new_processor _))).errors
    ≡ 0
unfolding enqueue enqueue_front new_processor
new_processor_test = refl

execute_all_test : execute_all (fail ∷ double ∷ stop ∷ double ∷ []) 0 3 ≡ (shut_down_done, 1, 8)
unfolding execute_all handle
execute_all_test = refl

run_loop_example :
    Executes
      (list_queue (Cmd ℕ))
      (fail ∷ double ∷ stop ∷ double ∷ [])
      queued
      3
      (run_loop (list_queue (Cmd ℕ)) 5 queued 3)
run_loop_example = run_loop-execute_all (list_queue (Cmd ℕ)) 5 queued 3 refl (omega arith)

shut_down_test :
    destroy (list_queue (Cmd ℕ)) 1 queued 3
    ≡ (shut_down_done, shut_down (list_queue (Cmd ℕ)) queued, 3)
shut_down_test = destroy_lem (list_queue (Cmd ℕ)) 0 queued 3

enqueue_example :
    let q = enqueue_front (list_queue (Cmd ℕ)) fail (enqueue (list_queue (Cmd ℕ)) double queued) in
    Executes
      (list_queue (Cmd ℕ))
      (fail ∷ fail ∷ double ∷ stop ∷ double ∷ double ∷ [])
      q
      3
      (run_loop (list_queue (Cmd ℕ)) 7 q 3)
enqueue_example = run_loop-enqueue (list_queue (Cmd ℕ)) 7 double fail queued 3 refl (omega arith)
