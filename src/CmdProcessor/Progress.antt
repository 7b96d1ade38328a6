-- ===== src/CmdProcessor/Progress.antt =====
-- The thread of src/EventManager/CmdProcessor.cpp while other threads go on enqueueing commands:
-- what it has executed after so many passes.
use mathlib.Core.List.{append-nil, append_assoc}
use frc.Prelude.{ℕ, ◌+◌, ◌≡◌, refl, ap, ◌∙◌, sym, false, List, [], ◌∷◌, ◌++◌, arith, length}
use frc.ThreadSafeQueue.{
  ThreadSafeQueue, Dequeue, Dequeues, item, waits, interrupted, stop, take, wait,
}
use frc.CmdProcessor.{
  Cmd, Status, looping, waiting, handle, logged, CmdProcessor, enqueue, loop_pass, go_on,
  execute_dequeued,
}
use frc.CmdProcessor.Order.{execute_all}

-- Where a list of commands is at its end, the loop goes on.
abbrev pub resume : Status → Status
resume waiting = looping
resume status = status

module _ {S : Type 0} (queues : ThreadSafeQueue (Cmd S)) where
  open queues use {items, is_interrupted, dequeue, dequeue_lem}

  unfoldable pub enqueue_all : List (Cmd S) → CmdProcessor queues → CmdProcessor queues
  enqueue_all [] p = p
  enqueue_all (c ∷ cs) p = enqueue_all cs (enqueue queues c p)

  -- Passes of the loop; before each, other threads enqueue commands.
  unfoldable pub run_shared :
      List (List (Cmd S)) → CmdProcessor queues → S → Status × CmdProcessor queues × S
  run_shared [] p s = (looping, p, s)
  run_shared (new ∷ rest) p s =
      go_on queues (loop_pass queues (enqueue_all new p) s) (λ p' s'. run_shared rest p' s')

  -- The run ends as the execution of `cs` does, or goes on after it.
  abbrev pub Reaches : List (Cmd S) → ℕ → S → Status × CmdProcessor queues × S → Type 0
  Reaches cs errors s (status, p', s') =
      let expected = execute_all cs errors s in
      (status ≡ resume expected.0) × (p'.errors ≡ expected.1) × (s' ≡ expected.2)

  pub items-enqueue_all :
      (cs : List (Cmd S)) (p : CmdProcessor queues)
      → items (enqueue_all cs p).queue ≡ items p.queue ++ cs
  unfolding enqueue_all enqueue
  items-enqueue_all [] p = sym (append-nil (items p.queue))
  items-enqueue_all (c ∷ cs) p =
      items-enqueue_all cs (enqueue queues c p)
      ∙ ap (λ xs. xs ++ cs) (queues.items-enqueue_back c p.queue)
      ∙ append_assoc (items p.queue) (c ∷ []) cs

  pub kept_by_enqueue_all :
      (cs : List (Cmd S)) (p : CmdProcessor queues)
      → ((enqueue_all cs p).errors ≡ p.errors)
        × (is_interrupted (enqueue_all cs p).queue ≡ is_interrupted p.queue)
  unfolding enqueue_all enqueue
  kept_by_enqueue_all [] p = (refl, refl)
  kept_by_enqueue_all (c ∷ cs) p =
      let (errors, open_) = kept_by_enqueue_all cs (enqueue queues c p) in
      (errors, open_ ∙ queues.is_interrupted-enqueue c false p.queue)

  module _ (c : Cmd S) (cs : List (Cmd S)) (rest : List (List (Cmd S))) (p : CmdProcessor queues)
      (s : S) where
    Reaches-go_on :
        (errors : ℕ) (later : List (Cmd S)) (r : Dequeue (Cmd S) queues.Q)
        → p.errors ≡ errors
        → Dequeues items is_interrupted p.queue r
        → is_interrupted p.queue ≡ false
        → items p.queue ≡ c ∷ (cs ++ later)
        → ((p' : CmdProcessor queues) (s' : S)
            → is_interrupted p'.queue ≡ false
            → items p'.queue ≡ cs ++ later
            → Reaches cs p'.errors s' (run_shared rest p' s'))
        → Reaches
            (c ∷ cs)
            errors
            s
            (go_on queues (execute_dequeued queues p s r) (λ p' s'. run_shared rest p' s'))
    unfolding execute_all handle
    Reaches-go_on errors later interrupted before (stop e) open_ queued ih = cc
    Reaches-go_on errors later waits before (wait e none_left) open_ queued ih = cc
    Reaches-go_on errors later (item a q) before (take e next still) open_ queued ih =
        let first : a ≡ c = cc in
        let others : items q ≡ cs ++ later = cc in
        let p' : CmdProcessor queues = record { queue = q; errors = p.errors + logged (c s).1 } in
        rw (← before, first) (ground (arith, ih p' (c s).0 still others))

  -- The thread is never overtaken: whatever commands other threads enqueue before each pass, after
  -- as many passes as there are commands in the queue up to some place, it has executed these
  -- commands, in their order and no other, or has ended at one of them that ends it.
  pub run_shared-Reaches :
      (arrivals : List (List (Cmd S))) (cs later : List (Cmd S)) (p : CmdProcessor queues) (s : S)
      → is_interrupted p.queue ≡ false
      → items p.queue ≡ cs ++ later
      → length arrivals ≡ length cs
      → Reaches cs p.errors s (run_shared arrivals p s)
  unfolding run_shared loop_pass execute_all
  run_shared-Reaches [] [] later p s open_ queued many = (refl, refl, refl)
  run_shared-Reaches [] (c ∷ cs) later p s open_ queued many = absurd (omega (arith, many))
  run_shared-Reaches (new ∷ rest) [] later p s open_ queued many = absurd (omega (arith, many))
  run_shared-Reaches (new ∷ rest) (c ∷ cs) later p s open_ queued many =
      let q = enqueue_all new p in
      let (errors, still) = kept_by_enqueue_all new p in
      Reaches-go_on c cs rest q s p.errors (later ++ new) (dequeue q.queue) errors
        (dequeue_lem q.queue) (still ∙ open_)
        (items-enqueue_all new p ∙ ap (λ xs. xs ++ new) queued ∙ append_assoc (c ∷ cs) later new)
        (λ p' s' open' queued'.
          run_shared-Reaches rest cs (later ++ new) p' s' open' queued' (omega (arith, many)))
