-- ===== src/ListenerManager/Readings.antt =====
-- What getRawBool and getRawDouble return after a cycle, and what a release does.
use frc.Prelude.{
  ℕ, zero, suc, ◌<◌, ◌≡◌, refl, ap, List, [], ◌∷◌, Bool, true, false, ◌⊎◌, Option, none, some,
  arith, length, get_or, get_elem?, Bool-cases, inl, inr,
}
use frc.Double.{Double, lit}
use frc.LogMacros.{Severity, Outcome, returns, throws, robo_exception}
use frc.ListenerManager.Keys.{
  Listenable, adown, bdown, xdown, ydown, lbdown, rbdown, backdown, startdown, l3down, r3down,
  joy1x, joy2x, triggers, joy1y, joy2y, aup, bup, xup, yup, lbup, rbup, backup, startup, l3up, r3up,
}
use frc.ListenerManager.{
  Joystick, ListenerManager, bools_ne, doubles_ne, at_or_log, get_raw_bool, get_raw_double,
  poll_controls, run_cycle,
}

-- The button that a listenable reads, whether it stands for its press or its release.
abbrev pub button_of : Listenable → Option ℕ
button_of adown = some 1
button_of bdown = some 2
button_of xdown = some 3
button_of ydown = some 4
button_of lbdown = some 5
button_of rbdown = some 6
button_of backdown = some 7
button_of startdown = some 8
button_of l3down = some 9
button_of r3down = some 10
button_of aup = some 1
button_of bup = some 2
button_of xup = some 3
button_of yup = some 4
button_of lbup = some 5
button_of rbup = some 6
button_of backup = some 7
button_of startup = some 8
button_of l3up = some 9
button_of r3up = some 10
button_of _ = none

-- The controller's axis that a listenable reads.
abbrev pub axis_of : Listenable → Option ℕ
axis_of joy1x = some 1
axis_of joy2x = some 2
axis_of triggers = some 3
axis_of joy1y = some 4
axis_of joy2y = some 5
axis_of _ = none

pub bools_ne-eq : (xs ys : List Bool) → bools_ne xs ys ≡ false → xs ≡ ys
unfolding bools_ne
bools_ne-eq [] [] h = refl
bools_ne-eq [] (y ∷ ys) h = cc
bools_ne-eq (x ∷ xs) [] h = ground arith
bools_ne-eq (true ∷ xs) (true ∷ ys) h = ap (◌∷◌ true) (bools_ne-eq xs ys h)
bools_ne-eq (true ∷ xs) (false ∷ ys) h = cc
bools_ne-eq (false ∷ xs) (true ∷ ys) h = cc
bools_ne-eq (false ∷ xs) (false ∷ ys) h = ap (◌∷◌ false) (bools_ne-eq xs ys h)

at_or_log-some :
    {A : Type 0} (xs : List A) (i : ℕ) (z : A) {x : A}
    → get_elem? xs i ≡ some x
    → at_or_log xs i z ≡ returns (x, [])
unfolding at_or_log
at_or_log-some xs i z e = ground arith

module _ {D : Type 0} ⦃d : Double D⦄ where
  -- The vectors that `[]` and `at` index have room for every listenable.
  pub record IsSized (m : ListenerManager D) : Type 0 where
    pub buttons : length m.button_values ≡ 11
    pub axes : length m.joystick_values ≡ 16

  buttons_after :
      (m : ListenerManager D) (j : Joystick D)
      → (run_cycle m j).0.button_values ≡ (poll_controls j).0
  unfolding run_cycle
  buttons_after m j =
      let (buttons, axes) = poll_controls j in ground (arith, bools_ne-eq buttons m.button_values)

  -- After a cycle getRawBool returns, for the press and the release of a button alike, what the poll
  -- read for it, with no message, and throws for every other listenable.
  pub get_raw_bool-run_cycle :
      (m : ListenerManager D) (j : Joystick D) (key : Listenable)
      → get_raw_bool (run_cycle m j).0 key ≡ elim (button_of key) [
        | some b ↦ returns (j.raw_button b, [])
        | none ↦ throws robo_exception
      ]
  unfolding get_raw_bool poll_controls at_or_log
  get_raw_bool-run_cycle m j joy1x = refl
  get_raw_bool-run_cycle m j joy2x = refl
  get_raw_bool-run_cycle m j triggers = refl
  get_raw_bool-run_cycle m j joy1y = refl
  get_raw_bool-run_cycle m j joy2y = refl
  get_raw_bool-run_cycle m j _ = rw (buttons_after m j)

  pub doubles_ne-get_or :
      (xs ys : List D) (i : ℕ) (z : D)
      → doubles_ne xs ys ≡ false
      → i < length xs
      → d.eq (get_or xs i z) (get_or ys i z) ≡ true
  unfolding doubles_ne
  doubles_ne-get_or [] ys i z h lt = absurd (omega arith)
  doubles_ne-get_or (x ∷ xs) [] i z h lt = cc
  doubles_ne-get_or (x ∷ xs) (y ∷ ys) zero z h lt = ground arith
  doubles_ne-get_or (x ∷ xs) (y ∷ ys) (suc i) z h lt =
      doubles_ne-get_or xs ys i z (ground arith) (omega arith)

  get_elem?-get_or :
      (xs : List D) (i : ℕ) (z : D) → i < length xs → get_elem? xs i ≡ some (get_or xs i z)
  get_elem?-get_or [] i z h = absurd (omega arith)
  get_elem?-get_or (x ∷ xs) zero z h = refl
  get_elem?-get_or (x ∷ xs) (suc i) z h = get_elem?-get_or xs i z (omega arith)

  -- A value that a poll read, or one that compares equal to it.
  abbrev pub Reads : D → D → Type 0
  Reads polled x = (x ≡ polled) ⊎ (d.eq polled x ≡ true)

  axes_after :
      (m : ListenerManager D) (j : Joystick D)
      → ((run_cycle m j).0.joystick_values ≡ (poll_controls j).1)
        ⊎ (((run_cycle m j).0.joystick_values ≡ m.joystick_values)
            × (doubles_ne (poll_controls j).1 m.joystick_values ≡ false))
  unfolding run_cycle
  axes_after m j =
      let (buttons, axes) = poll_controls j in
      ground (arith, Bool-cases (doubles_ne axes m.joystick_values))

  pub length-poll_controls : (j : Joystick D) → length (poll_controls j).1 ≡ 16
  unfolding poll_controls
  length-poll_controls j = refl

  axis_after :
      (m : ListenerManager D) (j : Joystick D) (i : ℕ)
      → length m.joystick_values ≡ 16
      → i < 16
      → (x : D) × (get_elem? (run_cycle m j).0.joystick_values i ≡ some x)
        × Reads (get_or (poll_controls j).1 i (lit 0)) x
  axis_after m j i sized h =
      let polled = (poll_controls j).1 in
      let room : i < length polled = omega (arith, length-poll_controls j) in
      elim (axes_after m j) [
        | inl new ↦
            (get_or polled i (lit 0), rw new (get_elem?-get_or polled i (lit 0) room), inl refl)
        | inr (old, same) ↦ (
          get_or m.joystick_values i (lit 0),
          rw old (get_elem?-get_or m.joystick_values i (lit 0) (omega arith)),
          inr (doubles_ne-get_or polled m.joystick_values i (lit 0) same room),
        )
      ]

  -- What getRawDouble returns for an axis: with no message, the polled value or one equal to it.
  abbrev pub ReadsAxis : Joystick D → Outcome (D × List Severity) → Option ℕ → Type 0
  ReadsAxis j r (some a) = (x : D) × (r ≡ returns (x, [])) × Reads (j.raw_axis a) x
  ReadsAxis j r none = r ≡ throws robo_exception

  -- After a cycle over vectors of the constructor's sizes getRawDouble returns for each axis, with no
  -- message, the value that the poll read or one that compares equal to it, and it throws for every
  -- other listenable.
  pub get_raw_double-run_cycle :
      (m : ListenerManager D) (j : Joystick D) (key : Listenable)
      → IsSized m
      → ReadsAxis j (get_raw_double (run_cycle m j).0 key) (axis_of key)
  unfolding get_raw_double poll_controls
  get_raw_double-run_cycle m j joy1x v =
      let (x, e, r) = axis_after m j 11 v.axes (omega arith) in (x, at_or_log-some _ _ _ e, r)
  get_raw_double-run_cycle m j joy2x v =
      let (x, e, r) = axis_after m j 12 v.axes (omega arith) in (x, at_or_log-some _ _ _ e, r)
  get_raw_double-run_cycle m j triggers v =
      let (x, e, r) = axis_after m j 13 v.axes (omega arith) in (x, at_or_log-some _ _ _ e, r)
  get_raw_double-run_cycle m j joy1y v =
      let (x, e, r) = axis_after m j 14 v.axes (omega arith) in (x, at_or_log-some _ _ _ e, r)
  get_raw_double-run_cycle m j joy2y v =
      let (x, e, r) = axis_after m j 15 v.axes (omega arith) in (x, at_or_log-some _ _ _ e, r)
  get_raw_double-run_cycle m j _ v = refl
