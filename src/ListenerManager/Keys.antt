-- ===== src/ListenerManager/Keys.antt =====
-- `enum Listenable` of src/EventManager/ListenerManager.h, with its numbers.
use frc.Prelude.{ℕ}

pub data Listenable : Type 0 where
  adown bdown xdown ydown lbdown rbdown backdown startdown l3down r3down : Listenable
  joy1x joy2x triggers joy1y joy2y : Listenable
  aup bup xup yup lbup rbup backup startup l3up r3up : Listenable

abbrev pub code : Listenable → ℕ
code adown = 1
code bdown = 2
code xdown = 3
code ydown = 4
code lbdown = 5
code rbdown = 6
code backdown = 7
code startdown = 8
code l3down = 9
code r3down = 10
code joy1x = 11
code joy2x = 12
code triggers = 13
code joy1y = 14
code joy2y = 15
code aup = 21
code bup = 22
code xup = 23
code yup = 24
code lbup = 25
code rbup = 26
code backup = 27
code startup = 28
code l3up = 29
code r3up = 30
