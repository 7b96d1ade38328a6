-- ===== src/ListenerManager/History.antt =====
-- Listener managers over a history of polls and registrations, and what a release of buttons does.
use frc.Prelude.{
  ℕ, zero, suc, ◌+◌, ◌-◌, ◌≤◌, ◌<◌, ◌≡◌, refl, List, [], ◌∷◌, true, false, ◌&&◌, ◌≢◌, arith,
  if◌then◌else◌, ◌==◌, contains, length, get_or, set, leb, ltb, length-set, replicate,
}
use frc.Double.{Double, lit}
use frc.ListenerManager.Keys.{Listenable, code}
use frc.ListenerManager.{
  ListenerMap, Joystick, ListenerManager, find_listeners, erase_listeners, is_pressed, has_moved,
  new_manager, fill, add_listener, remove_all_listeners, remove_all_listeners_for_control,
  poll_controls, listeners_to_invoke, run_cycle,
}
use frc.ListenerManager.Invoke.{is_triggered, listeners_to_invoke_iff}
use frc.ListenerManager.Readings.{IsSized}

-- What other threads do between two polls.
pub data Event (D : Type 0) : Type 0 where
  poll : Joystick D → Event D
  add : Listenable → ℕ → Event D
  remove : Listenable → Event D
  clear : Event D

find_listeners-erase_listeners :
    (k j : ℕ) (m : ListenerMap)
    → find_listeners j (erase_listeners k m) ≡ (if k == j then [] else find_listeners j m)
unfolding find_listeners erase_listeners
find_listeners-erase_listeners k j [] = ground arith
find_listeners-erase_listeners k j ((i, l) ∷ m) =
    ground (arith, find_listeners-erase_listeners k j m)

empty_of_contains : (s : List ℕ) → ((l : ℕ) → contains s l ≢ true) → s ≡ []
unfolding contains
empty_of_contains [] h = refl
empty_of_contains (x ∷ s) h = absurd (h x (ground arith))

get_or-set :
    {A : Type 0} (xs : List A) (i k : ℕ) (v z : A)
    → i < length xs
    → get_or (set xs i v) k z ≡ (if i == k then v else get_or xs k z)
get_or-set [] i k v z h = absurd (omega arith)
get_or-set (x ∷ xs) zero zero v z h = refl
get_or-set (x ∷ xs) zero (suc k) v z h = ground arith
get_or-set (x ∷ xs) (suc i) zero v z h = ground arith
get_or-set (x ∷ xs) (suc i) (suc k) v z h = ground (arith, get_or-set xs i k v z (omega arith))

-- The polling loops write each place of their range once.
get_or-fill :
    {A : Type 0} (n i k : ℕ) (f : ℕ → A) (xs : List A) (z : A)
    → i + n ≤ length xs
    → get_or (fill n i f xs) k z ≡ (if leb i k && ltb k (i + n) then f k else get_or xs k z)
unfolding fill
get_or-fill zero i k f xs z h = ground arith
get_or-fill (suc n) i k f xs z h = ground (
  arith,
  length-set xs i (f i),
  get_or-fill n (i + 1) k f (set xs i (f i)) z,
  get_or-set xs i k (f i) z,
)

sub_ten : (k : ℕ) → 11 ≤ k → k - 10 + 10 ≡ k
sub_ten k h = omega arith

module _ {D : Type 0} ⦃d : Double D⦄ where
  button_polled :
      (j : Joystick D) (k : ℕ)
      → 1 ≤ k
      → k ≤ 10
      → get_or (poll_controls j).0 k false ≡ j.raw_button k
  unfolding poll_controls
  button_polled j k low high =
      ground (arith, get_or-fill 10 1 k j.raw_button (replicate 11 false) false)

  axis_polled :
      (j : Joystick D) (k : ℕ)
      → 11 ≤ k
      → k ≤ 15
      → get_or (poll_controls j).1 k (lit 0) ≡ j.raw_axis (k - 10)
  unfolding poll_controls
  axis_polled j k low high =
      ground
        (arith, get_or-fill 5 11 k (λ (c : ℕ). j.raw_axis (c - 10)) (replicate 16 (lit 0)) (lit 0))

  pub step : ListenerManager D → Event D → ListenerManager D
  step m (poll j) = (run_cycle m j).0
  step m (add key l) = add_listener m key l
  step m (remove key) = remove_all_listeners_for_control m key
  step m clear = remove_all_listeners m

  pub run : ListenerManager D → List (Event D) → ListenerManager D
  run m [] = m
  run m (e ∷ es) = run (step m e) es

  step-IsSized : (m : ListenerManager D) (e : Event D) → IsSized m → IsSized (step m e)
  unfolding step run_cycle poll_controls add_listener remove_all_listeners_for_control
      remove_all_listeners
  step-IsSized m (poll j) v = ground arith
  step-IsSized m (add key l) v = record { buttons = v.buttons; axes = v.axes }
  step-IsSized m (remove key) v = record { buttons = v.buttons; axes = v.axes }
  step-IsSized m clear v = record { buttons = v.buttons; axes = v.axes }

  run-IsSized : (m : ListenerManager D) (es : List (Event D)) → IsSized m → IsSized (run m es)
  unfolding run
  run-IsSized m [] v = v
  run-IsSized m (e ∷ es) v = run-IsSized (step m e) es (step-IsSized m e v)

  -- From the constructor on, whatever happens, the vectors keep the sizes that the polling loops and
  -- the getters index: 11 buttons and 16 axes.
  pub run-new_manager-IsSized : (es : List (Event D)) → IsSized (run (new_manager {D = D}) es)
  unfolding new_manager
  run-new_manager-IsSized es = run-IsSized new_manager es (record { buttons = refl; axes = refl })

  -- Removing the listeners of a control removes all of them, and leaves those of every other control,
  -- also of the same button's other edge.
  pub find-remove_all_listeners_for_control :
      (m : ListenerManager D) (key other : Listenable)
      → find_listeners (code other) (remove_all_listeners_for_control m key).listeners
        ≡ (if code key == code other then [] else find_listeners (code other) m.listeners)
  unfolding remove_all_listeners_for_control
  find-remove_all_listeners_for_control m key other =
      find_listeners-erase_listeners (code key) (code other) m.listeners

  module _ (m : ListenerManager D) (j : Joystick D)
      (held : (b : ℕ)
        → 1 ≤ b
        → b ≤ 10
        → j.raw_button b ≡ true
        → get_or m.button_values b false ≡ true)
      (still : (a : ℕ)
        → 1 ≤ a
        → a ≤ 5
        → d.eq (get_or m.joystick_values (a + 10) (lit 0)) (j.raw_axis a) ≡ true) where
    not-is_triggered : (k : ℕ) → is_triggered m (poll_controls j).0 (poll_controls j).1 k ≢ true
    unfolding is_pressed has_moved
    not-is_triggered k h = ground (
      arith,
      held k,
      held (k - 20),
      still (k - 10),
      button_polled j k,
      button_polled j (k - 20),
      axis_polled j k,
      sub_ten k,
    )

    -- Where a poll finds buttons released and none newly pressed, and no axis moved, the cycle
    -- invokes nothing: the listeners of a release do not run when a button is released.
    pub release_invokes_nothing : (run_cycle m j).1 ≡ []
    unfolding run_cycle
    release_invokes_nothing =
        let (buttons, axes) = poll_controls j in
        let silent : listeners_to_invoke m (buttons, axes) ≡ [] =
          empty_of_contains (listeners_to_invoke m (buttons, axes)) λ l h.
            let (k, trigger, registered) = (listeners_to_invoke_iff m buttons axes l).0 h in
            not-is_triggered k trigger in
        ground (arith, silent)
