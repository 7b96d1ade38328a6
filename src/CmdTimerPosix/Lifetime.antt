-- ===== src/CmdTimerPosix/Lifetime.antt =====
-- The lives of POSIX timers, from their constructors to their destructors: what they own of the
-- system.
use frc.Prelude.{
  ℕ, ◌≡◌, refl, ◌∙◌, Bool, true, not, ◌&&◌, List, [], ◌∷◌, ◌==◌, arith, ap, if_both, ◌*◌,
}
use frc.LogMacros.{Outcome, returns, throws, exits, null_access, ◌>>=◌}
use frc.CmdTimerPosix.{
  PosixOs, Times, PosixImpl, IsPosixOs, IsTimes, HasRoom, set_cmd, new_impl, timer_set_time, cancel,
  destroy, start_relative, start_absolute,
}
use frc.CmdTimerPosix.Running.{is_refused, start_relative_lem}
use frc.CmdTimerPosix.Events.{
  Event, create, sets_cmd, starts, starts_at, cancels, destroys, after_throw, behind, at_timer,
  destroy_timer, step, run, ids, Owns,
}
use frc.CmdTimerPosix.Owned.{
  Safe, value, thrown, Safe-then, Safe-map, Owns-Same, Owns-added, fresh_of_missing, Keeps,
  KeepsAll, at_timer-KeepsAll, Loses, Leaves, Leaves-head, Leaves-behind, is_other, is_other-added,
}

module _ {O : Type 0} (has : ℕ → O → Bool) where
  module _ {T P : Type 0} (calls : PosixOs O) (times : Times T P) (os : IsPosixOs calls has) where
    destroy-Loses :
        (x : PosixImpl) (o : O)
        → has x.timer_id o ≡ true
        → (o' : O) × (destroy calls x o ≡ returns o') × Loses has x.timer_id o o'
    unfolding destroy cancel timer_set_time
    destroy-Loses x o there =
        let (o1, e1, same, stopped, others) = os.settime_lem x.timer_id 0 0 o there (omega arith) in
        let (o2, e2, lost) = os.delete_lem x.timer_id o1 (same x.timer_id ∙ there) in
        (o2, rw (e1, e2) refl, λ k. lost k ∙ ap (λ b. not (k == x.timer_id) && b) (same k))

    destroy_timer-Leaves :
        (a : ℕ) (xs : List PosixImpl) (o : O)
        → Owns has (ids xs) o
        → Safe (Leaves has xs o) (destroy_timer calls times a xs o)
    unfolding destroy_timer
    destroy_timer-Leaves a [] o v = value (tt, λ k h. h, λ k h. refl, λ k. refl)
    destroy_timer-Leaves a (x ∷ xs) o (there, fresh, v) =
        let (o', e, lost) = destroy-Loses x o there in
        if_both (Safe (Leaves has (x ∷ xs) o)) (x.address == a) _ _
          (rw e (value (Leaves-head has x xs o o' lost fresh v)))
          (Safe-then (Leaves has xs o) (Leaves has (x ∷ xs) o) (behind x)
            (destroy_timer calls times a xs o) (destroy_timer-Leaves a xs o v)
            λ w good. Leaves-behind has x xs o w there fresh good)

    module _ (laws : IsTimes times) where
      start-Keeps :
          (delay : T) (x : PosixImpl) (o : O)
          → has x.timer_id o ≡ true
          → Safe (Keeps has x o) (start_relative calls times delay x o)
      unfolding start_relative timer_set_time
      start-Keeps delay x o there =
          let n = times.fractional_seconds delay in
          let (o', e, same, armed, others) =
            os.settime_lem x.timer_id (times.total_seconds delay) (n * 1000) o there
              (omega (arith, laws.fraction_small delay)) in
          rw (start_relative_lem calls has os times laws delay x o, e)
            (if_both (Safe (Keeps has x o)) (is_refused calls has os times laws delay x) _ _ thrown
              (value (refl, same)))

      cancel-Keeps :
          (x : PosixImpl) (o : O)
          → has x.timer_id o ≡ true
          → Safe (Keeps has x o) (cancel calls x o)
      unfolding cancel timer_set_time
      cancel-Keeps x o there =
          let (o', e, same, stopped, others) =
            os.settime_lem x.timer_id 0 0 o there (omega arith) in
          rw e (value (refl, same))

      module _ (base : ℕ → Bool) where
        -- Each timer has a timer of the system, no two the same, and the system has no others than
        -- `base`.
        abbrev pub Holds : List PosixImpl × O → Type 0
        Holds (xs, o) = Owns has (ids xs) o × ((k : ℕ) → is_other has xs o k ≡ base k)

        -- The operations that act on one timer.
        at_timer-Holds :
            (a : ℕ) (f : PosixImpl → O → Outcome (PosixImpl × O)) (xs : List PosixImpl) (o : O)
            → ((x : PosixImpl) → has x.timer_id o ≡ true → Safe (Keeps has x o) (f x o))
            → Holds (xs, o)
            → Safe Holds (at_timer a f xs o)
        at_timer-Holds a f xs o keeps (v, others) =
            Safe-map (KeepsAll has xs o) Holds (at_timer a f xs o)
              (at_timer-KeepsAll has a f xs o keeps v)
              λ (xs', o') (same_ids, same). (
                rw same_ids (Owns-Same has (ids xs) o o' same v),
                λ k. rw (same_ids, same k) (others k),
              )

        pub step-Holds :
            (room : HasRoom calls) (w : List PosixImpl × O) (e : Event T P)
            → Holds w
            → Safe Holds (step calls times w e)
        unfolding step new_impl set_cmd start_absolute
        step-Holds room (xs, o) (create a c m) (v, others) =
            let (id, o', e) = room.created a o in
            let (missing, added) = os.create_lem a id o o' e in
            let there : has id o' ≡ true = ground (arith, added id) in
            let x : PosixImpl = record {
              address = a;
              multiplex = m;
              cmd_to_invoke = c;
              timer_id = id;
            } in
            rw e (
              value (
                (
                  there,
                  fresh_of_missing has id (ids xs) o missing v,
                  Owns-added has id (ids xs) o o' added v,
                ),
                λ k. is_other-added has x xs o o' k missing (added k) ∙ others k,
              ))
        step-Holds room (xs, o) (sets_cmd a c) v =
            at_timer-Holds a _ xs o (λ x there. value (refl, λ k. refl)) v
        step-Holds room (xs, o) (starts a delay) v =
            at_timer-Holds a _ xs o (λ x there. start-Keeps delay x o there) v
        step-Holds room (xs, o) (starts_at now a t) v =
            at_timer-Holds a _ xs o (λ x there. start-Keeps (times.difference t now) x o there) v
        step-Holds room (xs, o) (cancels a) v =
            at_timer-Holds a _ xs o (λ x there. cancel-Keeps x o there) v
        step-Holds room (xs, o) (destroys a) (v, others) =
            Safe-map (Leaves has xs o) Holds (destroy_timer calls times a xs o)
              (destroy_timer-Leaves a xs o v)
              λ w' (left, fewer, same, kept). (left, λ k. kept k ∙ others k)

        -- What a run comes to.
        abbrev pub Ends : Outcome (List PosixImpl × O) → Type 0
        Ends r = (xs : List PosixImpl) × (o : O) × (r ≡ returns (xs, o)) × Holds (xs, o)

        after_step :
            (w : List PosixImpl × O) (r : Outcome (List PosixImpl × O))
            (k : List PosixImpl × O → Outcome (List PosixImpl × O))
            → Holds w
            → Safe Holds r
            → ((w' : List PosixImpl × O) → Holds w' → Ends (k w'))
            → Ends (after_throw w r >>= k)
        after_step w (returns w') k v (value good) next = next w' good
        after_step w (throws e) k v thrown next = next w v
        after_step w (exits n) k v never next = elim never [ ]
        after_step w null_access k v never next = elim never [ ]

        run-Holds :
            (room : HasRoom calls) (es : List (Event T P)) (w : List PosixImpl × O)
            → Holds w
            → Ends (run calls times w es)
        unfolding run
        run-Holds room [] (xs, o) v = (xs, o, refl, v)
        run-Holds room (e ∷ es) w v =
            after_step w (step calls times w e) (λ w'. run calls times w' es) v
              (step-Holds room w e v) λ w' v'. run-Holds room es w' v'

      -- Where the system does what POSIX documents and does not run out of timers: whatever timers are
      -- constructed, started, cancelled and destroyed, in whatever order, no call ends the process,
      -- every timer has a timer of the system until its destructor runs, no two have the same, and
      -- nothing is left over: the timers of the system that belong to no timer are those that belonged
      -- to none at the start.
      pub run-Owns :
          (room : HasRoom calls) (es : List (Event T P)) (xs : List PosixImpl) (o : O)
          → Owns has (ids xs) o
          → (xs' : List PosixImpl) × (o' : O) × (run calls times (xs, o) es ≡ returns (xs', o'))
            × Owns has (ids xs') o'
            × ((k : ℕ) → is_other has xs' o' k ≡ is_other has xs o k)
      run-Owns room es xs o v =
          let (xs', o', e, (owned, others)) =
            run-Holds (is_other has xs o) room es (xs, o) (v, λ k. refl) in
          (xs', o', e, owned, others)
