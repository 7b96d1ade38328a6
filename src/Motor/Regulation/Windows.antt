-- ===== src/Motor/Regulation/Windows.antt =====
-- The runs of a speed controller (LinearSpeedTarget): they fall into windows, and the last run of each
-- computes a new power.
use frc.Prelude.{Bool-cases, inl, inr, ap, ◌≡◌, refl, ◌∙◌, Bool, true, false, List, [], ◌∷◌, ◌++◌}
use frc.Double.{Double, lit}
use frc.Motor.Regulation.{Round}

-- Runs that only hold the power, and the one that computes it.
pub record Window (D : Type 0) : Type 0 where
  pub held : List (Round D)
  pub last : Round D

abbrev pub rounds : {D : Type 0} → List (Window D) → List (Round D)
rounds [] = []
rounds (w ∷ ws) = w.held ++ w.last ∷ rounds ws

module _ {D : Type 0} ⦃d : Double D⦄ where
  open d use {add, sub, mul, div, lt}

  -- The milliseconds accumulated.
  abbrev pub total : D → List (Round D) → D
  total acc [] = acc
  total acc (x ∷ xs) = total (add acc x.dt) xs

  -- No run of these reaches the refresh time.
  abbrev pub IsShort : (refresh acc : D) → List (Round D) → Type 0
  IsShort refresh acc [] = Bool.true ≡ true
  IsShort refresh acc (x ∷ xs) =
      (lt (add acc x.dt) refresh ≡ true) × IsShort refresh (add acc x.dt) xs

  -- Runs fall into windows and runs after the last one. Each window ends with the first of its runs
  -- that reaches the refresh time, and no run after the last one does.
  abbrev pub Splits : (refresh acc : D) → List (Window D) → List (Round D) → Type 0
  Splits refresh acc [] later = IsShort refresh acc later
  Splits refresh acc (w ∷ ws) later =
      IsShort refresh acc w.held
      × (lt (add (total acc w.held) w.last.dt) refresh ≡ false)
      × Splits refresh (lit 0) ws later

  -- A run that does not reach the refresh time joins the first window.
  with_short :
      (refresh acc : D) (x : Round D) (ws : List (Window D)) (later : List (Round D))
      → lt (add acc x.dt) refresh ≡ true
      → Splits refresh (add acc x.dt) ws later
      → (vs : List (Window D)) × (rest : List (Round D)) × (x ∷ rounds ws ++ later
          ≡ rounds vs ++ rest)
        × Splits refresh acc vs rest
  with_short refresh acc x [] later h splits = ([], x ∷ later, refl, (h, splits))
  with_short refresh acc x (w ∷ ws) later h (short, reached, splits) =
      (record { held = x ∷ w.held; last = w.last } ∷ ws, later, refl, ((h, short), reached, splits))

  pub splits :
      (refresh acc : D) (xs : List (Round D))
      → (ws : List (Window D)) × (later : List (Round D)) × (xs ≡ rounds ws ++ later)
        × Splits refresh acc ws later
  splits refresh acc [] = ([], [], refl, refl)
  splits refresh acc (x ∷ xs) = elim (Bool-cases (lt (add acc x.dt) refresh)) [
    | inl h ↦
        let (ws, later, e, split) = splits refresh (add acc x.dt) xs in
        let (vs, rest, e', split') = with_short refresh acc x ws later h split in
        (vs, rest, ap (λ ys. x ∷ ys) e ∙ e', split')
    | inr h ↦
        let (ws, later, e, split) = splits refresh (lit 0) xs in
        (record { held = []; last = x } ∷ ws, later, ap (λ ys. x ∷ ys) e, (refl, h, split))
  ]
