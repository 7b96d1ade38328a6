-- ===== src/CmdTimerWin32/Dispatch.antt =====
-- Which timer the system's callback reaches, and how Cancel ends.
use frc.Prelude.{ℕ, ◌≡◌, Bool, true, false, ◌↔◌, Option, arith, ◌==◌, if◌then◌else◌, contains, List}
use frc.LogMacros.{Outcome, returns, exits}
use frc.CmdTimerWin32.{
  TimerOs, Timers, Impl, Call, register, timer_set_time, cancel, timer_is_running, fire,
  timer_handler,
}
use frc.CmdTimerWin32.Ids.{
  Inv, find_timer_unknown, find_timer-insert_timer, find_timer-erase_timer, cancel_parts,
}

module _ {O S : Type 0} (calls : TimerOs O) (interrupt_is_std : Bool) (call : Call S)
    (on_timer_fire : ℕ → ℕ → Option ℕ → S → Outcome S) (t : Timers O) (self : Impl)
    (impl : ℕ → Impl) where
  abbrev pub handle : List (ℕ × ℕ) → ℕ → S → Outcome S
  handle = timer_handler interrupt_is_std call on_timer_fire impl

  -- Where a timer that is not running is started and the system gives an identifier that no timer
  -- uses, the callback with that identifier fires this timer, and with any other it does what it did
  -- before.
  pub timer_handler-timer_set_time :
      (milliseconds id k : ℕ) (s : S)
      → Inv t
      → self.timer_id ≡ 0
      → (calls.set_timer t.guaranteed_unused_id milliseconds t.os).0 ≡ id
      → contains t.used_ids id ≡ false
      → let started = timer_set_time calls t self milliseconds in
        (started.1.timer_id ≡ id)
        × (handle started.0.id_to_timer_map k s ≡ (
            if k == id
            then fire interrupt_is_std call on_timer_fire (impl self.address) s
            else handle t.id_to_timer_map k s))
  unfolding timer_handler timer_set_time register
  timer_handler-timer_set_time milliseconds id k s v idle given unused =
      let missing = find_timer_unknown t id v unused in
      (ground arith, ground (arith, find_timer-insert_timer id self.address k t.id_to_timer_map))

  -- After a call of Cancel that returns the timer is not running, the callback with its identifier is
  -- ignored, and with any other identifier it does what it did before.
  pub timer_handler-cancel :
      (t' : Timers O) (self' : Impl) (k : ℕ) (s : S)
      → cancel calls t self ≡ returns (t', self')
      → (timer_is_running self' ≡ false)
        × (handle t'.id_to_timer_map k s
            ≡ (if k == self.timer_id then returns s else handle t.id_to_timer_map k s))
  unfolding timer_handler timer_is_running
  timer_handler-cancel t' self' k s h =
      let (same, used, timers, off) = cancel_parts calls t t' self self' h in
      (ground arith, ground (arith, find_timer-erase_timer self.timer_id k t.id_to_timer_map))

-- Cancel ends the process, with status 2, exactly when the system did delete the timer.
pub cancel-exits :
    {O : Type 0} (calls : TimerOs O) (t : Timers O) (self : Impl)
    → (cancel calls t self ≡ exits 2) ↔ ((calls.kill_timer self.timer_id t.os).0 ≡ true)
unfolding cancel
cancel-exits calls t self = (λ h. ground arith, λ h. ground arith)
