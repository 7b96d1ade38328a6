-- ===== src/Tests/Modes.antt =====
-- Runs of the robot's modes and of the autonomous sequence.
use frc.Prelude.{ℕ, ◌≡◌, ◌+◌, ◌≤◌, ◌++◌, List, [], ◌∷◌, true, some, arith}
use frc.Prelude.Int.{pos}
use frc.Double.{lit}
use frc.Double.Grid.{Grid, grid}
use frc.Options.{red, blue}
use frc.Global.{Motor, new_robot}
use frc.Global.Modes.{
  robot, disabled, autonomous, teleop, run, IsConsistent, run-new_robot-IsConsistent,
}
use frc.AutoConfig.{Auto, AutoCall, initialize, drive, light_change}
use frc.AutoConfig.Finish.{initialize_lem}

robot_run_example :
    IsConsistent (run (new_robot {D = Grid}) (robot ∷ disabled ∷ autonomous ∷ teleop ∷ teleop ∷ []))
robot_run_example =
    run-new_robot-IsConsistent (robot ∷ disabled ∷ autonomous ∷ teleop ∷ teleop ∷ [])

-- A clock on which a sleep takes exactly its time, and a gyroscope at rest.
abbrev sleep : ℕ → ℕ → ℕ
sleep n now = now + n

abbrev still : Motor → ℕ → Grid
still m now = some (pos 0)

abbrev start : Auto Grid
start = record { now = 0; calls = [] }

initialize_example :
    (b : Auto Grid) × (earlier : List (AutoCall Grid)) × (initialize sleep still 26 true start
      ≡ some b)
    × (b.calls ≡ light_change red ∷ light_change blue ∷ (drive (lit 0) ++ earlier))
    × (6500 ≤ b.now)
initialize_example = initialize_lem sleep still (λ n now. omega arith) start
