-- ===== src/ListenerManager/Invoke.antt =====
-- Which listeners a cycle of the polling thread invokes, and how often.
use frc.Prelude.{
  not, get_or, ℕ, zero, suc, ◌+◌, ◌-◌, ◌≤◌, ◌<◌, ◌≡◌, refl, ap, sym, ◌∙◌, List, [], ◌∷◌, Bool, true,
  false, ◌&&◌, ◌||◌, ◌↔◌, arith, leb, ◌==◌, contains, Distinct, Bool-cases, inl, inr,
}
use native.Mathlib.Decide.{ℕ_discrete}
use frc.Double.{Double, lit}
use frc.ListenerManager.{
  ListenerMap, ListenerManager, find_listeners, insert_all, is_pressed, has_moved, collect_buttons,
  collect_axes, listeners_to_invoke,
}

-- Equal numbers are contained alike.
contains_of_eq : (s : List ℕ) (k l : ℕ) → (k == l) ≡ true → contains s k ≡ contains s l
contains_of_eq s k l h = ap (contains s) (ground arith)

contains-insert_all :
    (ls s : List ℕ) (l : ℕ) → contains (insert_all ls s) l ≡ (contains ls l || contains s l)
unfolding contains insert_all
contains-insert_all [] s l = refl
contains-insert_all (k ∷ ls) s l =
    ground
      (arith, contains-insert_all ls s l, contains-insert_all ls (k ∷ s) l, contains_of_eq s k l)

Distinct-insert_all : (ls s : List ℕ) → Distinct s → Distinct (insert_all ls s)
unfolding insert_all
Distinct-insert_all [] s h = h
Distinct-insert_all (k ∷ ls) s h = elim (Bool-cases (contains s k)) [
  | inl old ↦ rw old (Distinct-insert_all ls s h)
  | inr new ↦ rw new (Distinct-insert_all ls (k ∷ s) (new, h))
]

-- Some key from `i` on, for `n` keys, passes the test and has the listener.
any_key : (ℕ → Bool) → ℕ → ℕ → Bool
any_key p zero i = false
any_key p (suc n) i = p i || any_key p n (i + 1)

module _ (m : ListenerMap) (old new : List Bool) (l : ℕ) where
  -- A press of the button brings its listener in, under either key.
  abbrev press_hits : ℕ → Bool
  press_hits c =
      is_pressed old new c
      && (contains (find_listeners c m) l || contains (find_listeners (c + 20) m) l)

  contains-collect_buttons :
      (n c : ℕ) (s : List ℕ)
      → contains (collect_buttons m old new n c s) l ≡ (any_key press_hits n c || contains s l)
  unfolding collect_buttons any_key
  contains-collect_buttons zero c s = refl
  contains-collect_buttons (suc n) c s =
      let low = find_listeners c m in
      let high = find_listeners (c + 20) m in
      ground (
        arith,
        contains-collect_buttons n (c + 1) s,
        contains-collect_buttons n (c + 1) (insert_all high (insert_all low s)),
        contains-insert_all high (insert_all low s) l,
        contains-insert_all low s l,
      )

Distinct-collect_buttons :
    (m : ListenerMap) (old new : List Bool) (n c : ℕ) (s : List ℕ)
    → Distinct s
    → Distinct (collect_buttons m old new n c s)
unfolding collect_buttons
Distinct-collect_buttons m old new zero c s h = h
Distinct-collect_buttons m old new (suc n) c s h = Distinct-collect_buttons m old new n (c + 1) _ (
    ground (
      arith,
      Distinct-insert_all (find_listeners c m) s,
      Distinct-insert_all (find_listeners (c + 20) m) (insert_all (find_listeners c m) s),
    ))

module _ {D : Type 0} ⦃d : Double D⦄ (m : ListenerMap) (old new : List D) where
  module _ (l : ℕ) where
    abbrev move_hits : ℕ → Bool
    move_hits c = has_moved old new c && contains (find_listeners c m) l

    contains-collect_axes :
        (n c : ℕ) (s : List ℕ)
        → contains (collect_axes m old new n c s) l ≡ (any_key move_hits n c || contains s l)
    unfolding collect_axes any_key
    contains-collect_axes zero c s = refl
    contains-collect_axes (suc n) c s =
        let found = find_listeners c m in
        ground (
          arith,
          contains-collect_axes n (c + 1) s,
          contains-collect_axes n (c + 1) (insert_all found s),
          contains-insert_all found s l,
        )

  Distinct-collect_axes :
      (n c : ℕ) (s : List ℕ) → Distinct s → Distinct (collect_axes m old new n c s)
  unfolding collect_axes
  Distinct-collect_axes zero c s h = h
  Distinct-collect_axes (suc n) c s h =
      Distinct-collect_axes n (c + 1) _ (ground (arith, Distinct-insert_all (find_listeners c m) s))

any_key-some :
    (p : ℕ → Bool) (n i : ℕ) → any_key p n i ≡ true → (k : ℕ) × (i ≤ k) × (k < i + n) × (p k ≡ true)
unfolding any_key
any_key-some p zero i h = absurd (ground arith)
any_key-some p (suc n) i h = elim (Bool-cases (p i)) [
  | inl hit ↦ (i, omega arith, omega arith, hit)
  | inr miss ↦
      let (k, low, high, hit) = any_key-some p n (i + 1) (rw miss at h) in
      (k, omega arith, omega arith, hit)
]

any_key_of_key : (p : ℕ → Bool) (n i k : ℕ) → i ≤ k → k < i + n → p k ≡ true → any_key p n i ≡ true
unfolding any_key
any_key_of_key p zero i k low high hit = absurd (omega arith)
any_key_of_key p (suc n) i k low high hit = elim (ℕ_discrete i k) [
  | yes e ↦ rw (e, hit)
  | no ne ↦ ground (arith, any_key_of_key p n (i + 1) k)
]

any_key_iff :
    (p : ℕ → Bool) (n i : ℕ)
    → (any_key p n i ≡ true) ↔ ((k : ℕ) × (i ≤ k) × (k < i + n) × (p k ≡ true))
any_key_iff p n i = (any_key-some p n i, λ (k, low, high, hit). any_key_of_key p n i k low high hit)

sub_add : (k : ℕ) → 21 ≤ k → k - 20 + 20 ≡ k
sub_add k h = omega arith

-- What triggers a key: a press triggers both the key of the button's press (1 to 10) and the key of
-- its release (21 to 30), and a change of an axis its own key (11 to 15).
module _ {D : Type 0} ⦃d : Double D⦄ (m : ListenerManager D) (buttons : List Bool)
    (axes : List D) where
  -- A button that is down and was not; an axis whose value differs.
  abbrev pub goes_down : ℕ → Bool
  goes_down b = not (get_or m.button_values b false) && get_or buttons b false

  abbrev pub differs : ℕ → Bool
  differs a = not (d.eq (get_or m.joystick_values a (lit 0)) (get_or axes a (lit 0)))

  abbrev pub is_triggered : ℕ → Bool
  is_triggered k =
      (leb 1 k && leb k 10 && goes_down k)
      || (leb 21 k && leb k 30 && goes_down (k - 20))
      || (leb 11 k && leb k 15 && differs k)

  contains-listeners_to_invoke :
      (l : ℕ)
      → contains (listeners_to_invoke m (buttons, axes)) l ≡ (
          any_key (move_hits m.listeners m.joystick_values axes l) 5 11
          || any_key (press_hits m.listeners m.button_values buttons l) 10 1)
  unfolding listeners_to_invoke contains
  contains-listeners_to_invoke l = ground (
    arith,
    contains-collect_axes m.listeners m.joystick_values axes l 5 11
        (collect_buttons m.listeners m.button_values buttons 10 1 []),
    contains-collect_buttons m.listeners m.button_values buttons l 10 1 [],
  )

  abbrev Cause : ℕ → Type 0
  Cause l = (k : ℕ) × (is_triggered k ≡ true) × (contains (find_listeners k m.listeners) l ≡ true)

  Cause-move :
      (l : ℕ) → any_key (move_hits m.listeners m.joystick_values axes l) 5 11 ≡ true → Cause l
  unfolding has_moved
  Cause-move l h =
      let (k, low, high, hit) = any_key-some _ 5 11 h in (k, ground arith, ground arith)

  Cause-press :
      (l : ℕ) → any_key (press_hits m.listeners m.button_values buttons l) 10 1 ≡ true → Cause l
  unfolding is_pressed
  Cause-press l h =
      let (k, low, high, hit) = any_key-some _ 10 1 h in
      let back : k + 20 - 20 ≡ k = omega arith in
      elim (Bool-cases (contains (find_listeners k m.listeners) l)) [
        | inl own ↦ (k, ground arith, own)
        | inr other ↦ (k + 20, ground arith, ground arith)
      ]

  triggered_of_invoked :
      (l : ℕ) → contains (listeners_to_invoke m (buttons, axes)) l ≡ true → Cause l
  triggered_of_invoked l h =
      let e = sym (contains-listeners_to_invoke l) ∙ h in
      elim (Bool-cases (any_key (move_hits m.listeners m.joystick_values axes l) 5 11)) [
        | inl moved ↦ Cause-move l moved
        | inr still ↦ Cause-press l (ground arith)
      ]

  invoked_of_triggered :
      (l : ℕ) → Cause l → contains (listeners_to_invoke m (buttons, axes)) l ≡ true
  unfolding is_pressed has_moved
  invoked_of_triggered l (k, trigger, registered) =
      let press = press_hits m.listeners m.button_values buttons l in
      let move = move_hits m.listeners m.joystick_values axes l in
      ground (
        arith,
        contains-listeners_to_invoke l,
        any_key_of_key press 10 1 k,
        any_key_of_key press 10 1 (k - 20),
        any_key_of_key move 5 11 k,
        sub_add k,
      )

  -- The listeners that a cycle collects hold a listener exactly if it is registered under a key that
  -- the poll triggers: the key of the press or of the release of a button that is down and was not,
  -- or the key of an axis whose value differs.
  pub listeners_to_invoke_iff :
      (l : ℕ)
      → (contains (listeners_to_invoke m (buttons, axes)) l ≡ true)
        ↔ ((k : ℕ) × (is_triggered k ≡ true) × (contains (find_listeners k m.listeners) l ≡ true))
  listeners_to_invoke_iff l = (triggered_of_invoked l, invoked_of_triggered l)

  -- A cycle invokes no listener twice, however often it is registered and triggered.
  pub listeners_to_invoke-Distinct : Distinct (listeners_to_invoke m (buttons, axes))
  unfolding listeners_to_invoke
  listeners_to_invoke-Distinct =
      Distinct-collect_axes m.listeners m.joystick_values axes 5 11 _
        (Distinct-collect_buttons m.listeners m.button_values buttons 10 1 [] tt)
