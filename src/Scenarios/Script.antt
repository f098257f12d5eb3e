-- ===== src/Scenarios/Script.antt =====
-- How the scenarios of sim/scenario_runner.py are written: lines noted on the way, calls that may
-- raise, and assertions. A scenario that fails has noted the lines up to there.
use sec_oc.Base.{String, Bool, List, [], ◌∷◌, if◌then◌else◌}
use sec_oc.Base.{Outcome, ok, raised, assertion_error}

-- The lines noted from here on, and how the scenario ends.
abbrev pub Script : Type 0
Script = List String × Outcome (Unit {0})

abbrev pub done : Script
done = ([], ok tt)

-- `steps.append(text)`, and then the rest.
abbrev pub note : String → Script → Script
note text (steps, ended) = (text ∷ steps, ended)

-- `assert`, without a message.
abbrev pub check : Bool → Script → Script
check holds rest = if holds then rest else ([], raised (assertion_error ""))

-- A call, whose exception ends the scenario.
abbrev pub call : {S A : Type 0} → S × Outcome A → (A → S → Script) → Script
call (s, ok a) rest = rest a s
call (s, raised e) rest = ([], raised e)
