-- ===== src/ListenerManager.antt =====
-- src/EventManager/ListenerManager.h and .cpp: which listeners a change of the controller invokes.
-- A listener is the identity of a shared pointer to a function. The controller is the library's
-- `Joystick`: each cycle of the polling thread gets what it reads there.
pub mod Keys
pub mod Invoke
pub mod Readings
pub mod History
pub mod Invocations
pub mod Thread
use frc.Prelude.{
  ℕ, zero, suc, ◌+◌, ◌-◌, List, [], ◌∷◌, ◌++◌, Bool, true, false, not, ◌&&◌, ◌||◌, Option, none,
  some, if◌then◌else◌, leb, ◌==◌, get_elem?, get_or, set, replicate, contains,
}
use frc.Double.{Double, lit}
use frc.LogMacros.{Severity, recoverable, Outcome, returns, throws, robo_exception}
use Keys.{Listenable, code}

-- What one poll reads from the controller.
pub record Joystick (D : Type 0) : Type 0 where
  pub raw_button : ℕ → Bool
  pub raw_axis : ℕ → D

abbrev pub ListenerMap : Type 0
ListenerMap = List (ℕ × ℕ)

pub record ListenerManager (D : Type 0) : Type 0 where
  pub listeners : ListenerMap
  pub joystick_values : List D
  pub button_values : List Bool

-- `equal_range`: the listeners under a key.
unfoldable pub find_listeners : ℕ → ListenerMap → List ℕ
find_listeners k [] = []
find_listeners k ((j, l) ∷ m) = let rest = find_listeners k m in if j == k then l ∷ rest else rest

-- `erase` of a key.
unfoldable pub erase_listeners : ℕ → ListenerMap → ListenerMap
erase_listeners k [] = []
erase_listeners k ((j, l) ∷ m) =
    let rest = erase_listeners k m in if j == k then rest else (j, l) ∷ rest

-- `insert` of a range into an `unordered_set`.
unfoldable pub insert_all : List ℕ → List ℕ → List ℕ
insert_all [] s = s
insert_all (l ∷ ls) s = insert_all ls (if contains s l then s else l ∷ s)

-- `for(counter = i; counter < i + n; counter++) xs[counter] = f(counter);`
unfoldable pub fill : {A : Type 0} → ℕ → ℕ → (ℕ → A) → List A → List A
fill zero i f xs = xs
fill (suc n) i f xs = fill n (i + 1) f (set xs i (f i))

unfoldable pub is_pressed : List Bool → List Bool → ℕ → Bool
is_pressed old new counter = not (get_or old counter false) && get_or new counter false

-- The loop over the buttons. The source tests for a release by the same condition as for a press.
unfoldable pub collect_buttons : ListenerMap → List Bool → List Bool → ℕ → ℕ → List ℕ → List ℕ
collect_buttons m old new zero counter s = s
collect_buttons m old new (suc n) counter s =
    let pressed = is_pressed old new counter in
    let s1 = if pressed then insert_all (find_listeners counter m) s else s in
    let s2 = if pressed then insert_all (find_listeners (counter + 20) m) s1 else s1 in
    collect_buttons m old new n (counter + 1) s2

unfoldable pub bools_ne : List Bool → List Bool → Bool
bools_ne [] [] = false
bools_ne (true ∷ xs) (true ∷ ys) = bools_ne xs ys
bools_ne (false ∷ xs) (false ∷ ys) = bools_ne xs ys
bools_ne _ _ = true

-- `at`, with the handler of `std::out_of_range`: a log message and a default.
unfoldable pub at_or_log : {A : Type 0} → List A → ℕ → A → Outcome (A × List Severity)
at_or_log xs i default = elim (get_elem? xs i) [
  | some x ↦ returns (x, [])
  | none ↦ returns (default, recoverable ∷ [])
]

module _ {D : Type 0} ⦃d : Double D⦄ where
  unfoldable pub new_manager : ListenerManager D
  new_manager = record {
    listeners = [];
    joystick_values = replicate 16 (lit 0);
    button_values = replicate 11 false;
  }

  unfoldable pub add_listener : ListenerManager D → Listenable → ℕ → ListenerManager D
  add_listener m key listener = record m { listeners = (code key, listener) ∷ m.listeners }

  unfoldable pub remove_all_listeners : ListenerManager D → ListenerManager D
  remove_all_listeners m = record m { listeners = [] }

  unfoldable pub remove_all_listeners_for_control :
      ListenerManager D → Listenable → ListenerManager D
  remove_all_listeners_for_control m key = record m {
    listeners = erase_listeners (code key) m.listeners;
  }

  unfoldable pub get_raw_bool : ListenerManager D → Listenable → Outcome (Bool × List Severity)
  get_raw_bool m key =
      if leb 1 (code key) && leb (code key) 10
      then at_or_log m.button_values (code key) false
      else if leb 21 (code key) && leb (code key) 30
      then at_or_log m.button_values (code key - 20) false
      else throws robo_exception

  unfoldable pub get_raw_double : ListenerManager D → Listenable → Outcome (D × List Severity)
  get_raw_double m key =
      if leb 11 (code key) && leb (code key) 15
      then at_or_log m.joystick_values (code key) (lit 0)
      else throws robo_exception

  unfoldable pub poll_controls : Joystick D → List Bool × List D
  unfolding fill
  poll_controls j = (
    fill 10 1 j.raw_button (replicate 11 false),
    fill 5 11 (λ counter. j.raw_axis (counter - 10)) (replicate 16 (lit 0)),
  )

  unfoldable pub doubles_ne : List D → List D → Bool
  doubles_ne [] [] = false
  doubles_ne (x ∷ xs) (y ∷ ys) = not (d.eq x y) || doubles_ne xs ys
  doubles_ne _ _ = true

  unfoldable pub has_moved : List D → List D → ℕ → Bool
  has_moved old new counter = not (d.eq (get_or old counter (lit 0)) (get_or new counter (lit 0)))

  -- The loop over the axes.
  unfoldable pub collect_axes : ListenerMap → List D → List D → ℕ → ℕ → List ℕ → List ℕ
  collect_axes m old new zero counter s = s
  collect_axes m old new (suc n) counter s =
      let s1 = if has_moved old new counter then insert_all (find_listeners counter m) s else s in
      collect_axes m old new n (counter + 1) s1

  -- The listeners that one cycle invokes.
  unfoldable pub listeners_to_invoke : ListenerManager D → List Bool × List D → List ℕ
  listeners_to_invoke m (buttons, axes) =
      collect_axes m.listeners m.joystick_values axes 5 11
        (collect_buttons m.listeners m.button_values buttons 10 1 [])

  -- One cycle of `run` up to the invocations: the new state and the listeners to invoke.
  unfoldable pub run_cycle : ListenerManager D → Joystick D → ListenerManager D × List ℕ
  run_cycle m j =
      let new = poll_controls j in
      if bools_ne new.0 m.button_values || doubles_ne new.1 m.joystick_values
      then (record m { button_values = new.0; joystick_values = new.1 }, listeners_to_invoke m new)
      else (m, [])
