-- ===== src/Scenarios/Results.antt =====
-- What `run_scenario` and `get_result` of sim/scenario_runner.py promise.
use sec_oc.Base.{◌≡◌, ◌↔◌, refl, String, none, some, List, if◌then◌else◌, str_eq, arith}
use sec_oc.Base.{Outcome, ok, raised, assertion_error, unknown_scenario_error}
use sec_oc.Base.Dict.{Dict, insert, lookup, lookup-insert}
use sec_oc.Scenarios.{
  Runner, Scenario, ScenarioResult, passed, run_scenario, get_result, record_result, result_of,
  reset_environment,
}

pub passed_iff :
    (vtc : String) (steps : List String) (ended : Outcome (Unit {0}))
    → ((result_of vtc steps ended).status ≡ passed) ↔ (ended ≡ ok tt)
unfolding result_of
passed_iff vtc steps (ok done) = (λ _. refl, λ _. refl)
passed_iff vtc steps (raised (assertion_error text)) = ground arith
passed_iff vtc steps (raised e) = ground arith

result_steps :
    (vtc : String) (steps : List String) (ended : Outcome (Unit {0}))
    → (result_of vtc steps ended).steps ≡ steps
unfolding result_of
result_steps vtc steps (ok done) = refl
result_steps vtc steps (raised (assertion_error text)) = refl
result_steps vtc steps (raised e) = ground arith

-- Running a scenario that is in the table runs it on an empty bus and an empty profiler and returns
-- a result, whatever the scenario raises; the result is the one that `get_result` gives for it from
-- then on, the results that the scenario left for the others are kept, its lines are those that the
-- scenario noted, and it has passed exactly when the scenario raised nothing.
pub run_scenario_lem :
    {F : Type 0} (scenarios : Dict (Scenario F)) (vtc : String) (scenario : Scenario F)
    (r : Runner F)
    → lookup vtc scenarios ≡ some scenario
    → let (r1, steps, ended) = scenario (reset_environment r) in
      (result : ScenarioResult) × ((run_scenario scenarios vtc r).1 ≡ ok result)
      × ((other : String)
          → get_result other (run_scenario scenarios vtc r).0
            ≡ (if str_eq vtc other then some result else get_result other r1))
      × (result.steps ≡ steps)
      × ((result.status ≡ passed) ↔ (ended ≡ ok tt))
unfolding run_scenario get_result record_result
run_scenario_lem scenarios vtc scenario r known =
    let (r1, steps, ended) = scenario (reset_environment r) in
    (
      result_of vtc steps ended,
      rw known refl,
      λ other. rw known (lookup-insert vtc other (result_of vtc steps ended) r1.results),
      result_steps vtc steps ended,
      passed_iff vtc steps ended,
    )

-- The whole of a run, for a name in the table and for one that is not.
pub run_scenario_known :
    {F : Type 0} (scenarios : Dict (Scenario F)) (vtc : String) (scenario : Scenario F)
    (r : Runner F)
    → lookup vtc scenarios ≡ some scenario
    → let (r1, steps, ended) = scenario (reset_environment r) in
      let result = result_of vtc steps ended in
      run_scenario scenarios vtc r
      ≡ (record r1 { results = insert vtc result r1.results }, ok result)
unfolding run_scenario record_result
run_scenario_known scenarios vtc scenario r known = rw known refl

pub run_scenario_unknown :
    {F : Type 0} (scenarios : Dict (Scenario F)) (vtc : String) (r : Runner F)
    → lookup vtc scenarios ≡ none
    → run_scenario scenarios vtc r ≡ (r, raised unknown_scenario_error)
unfolding run_scenario
run_scenario_unknown scenarios vtc r unknown = rw unknown refl
