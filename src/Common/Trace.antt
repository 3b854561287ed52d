-- ===== src/Common/Trace.antt =====
-- Logs of calls, the newest first, read without regard to the code that made them: a thing is up if the
-- newest call about it is the one that sets it up.
use mathlib.Core.Bool.{Bool, true, false}
use mathlib.Core.Option.{Option, none, some}
use mathlib.Core.List.{List, [], ◌∷◌}

module _ {ℓ} {C : Type ℓ} where
  -- An effect says what a call does to one thing: set it up (true), take it down, or neither.
  abbrev pub up : (C → Option Bool) → List C → Bool
  up e [] = false
  up e (c ∷ log) = elim (e c) [ none ↦ up e log | some b ↦ b ]

abbrev pub when : Bool → Bool → Option Bool
when true b = some b
when false b = none
