-- ===== src/Scenarios.antt =====
-- sim/scenario_runner.py: running the validation scenarios by name and keeping their results. A
-- scenario is a step of the shared state, with the lines that it has noted and how it ended; the
-- exception of a failed one stands for its message.
pub mod Script
pub mod Bodies
pub mod KeyBodies
pub mod BootCheck
pub mod Provided
pub mod MacCheck
pub mod Passing
pub mod Results
use Prim.Native.String.{◌++◌}
use sec_oc.Base.{
  ℕ, suc, zero, ◌+◌, ◌/◌, ◌%◌, String, Bool, true, false, Option, none, some, List, [], ◌∷◌, ◌==◌,
  if◌then◌else◌,
}
use sec_oc.Base.{Method, Outcome, Exception, ok, raised, unknown_scenario_error, assertion_error}
use sec_oc.Base.Dict.{Dict, lookup, insert}
use sec_oc.Bus.{CanBus}
use sec_oc.Profiler.{PerformanceProfiler}
use sec_oc.Profiler

-- `ScenarioStatus`
pub data ScenarioStatus : Type 0 where
  passed failed error : ScenarioStatus

-- `ScenarioResult`
pub record ScenarioResult : Type 0 where
  pub vtc_id : String
  pub status : ScenarioStatus
  pub steps : List String
  pub error_message : Option Exception

-- What scenarios share: the bus, the default profiler and the module's `_results`.
pub record Runner (F : Type 0) : Type 0 where
  pub bus : CanBus
  pub profiler : PerformanceProfiler F
  pub results : Dict ScenarioResult

-- `Callable[[list[str]], None]`
abbrev pub Scenario : Type 0 → Type 0
Scenario F = Runner F → Runner F × List String × Outcome (Unit {0})

digit : ℕ → String
digit n =
    if n == 0
    then "0"
    else if n == 1
    then "1"
    else if n == 2
    then "2"
    else if n == 3
    then "3"
    else if n == 4
    then "4"
    else if n == 5
    then "5"
    else if n == 6
    then "6"
    else if n == 7
    then "7"
    else if n == 8
    then "8"
    else "9"

-- `f"VTC-SR-{n:02d}"`
vtc_id : ℕ → String
unfolding digit
vtc_id n = "VTC-SR-" ++ (digit (n / 10 % 10) ++ digit (n % 10))

ids_from : ℕ → ℕ → List String
unfolding vtc_id
ids_from n zero = []
ids_from n (suc count) = vtc_id n ∷ ids_from (n + 1) count

-- `_VTC_IDS`, and `list_scenarios`, which copies it.
unfoldable pub list_scenarios : List String
unfolding ids_from
list_scenarios = ids_from 1 20

-- `reset_environment`
unfoldable pub reset_environment : {F : Type 0} → Runner F → Runner F
reset_environment r = record r {
  bus = record { running = false; last_frames = []; queue = [] };
  profiler = Profiler.reset r.profiler;
}

-- `get_result`
unfoldable pub get_result : {F : Type 0} → String → Runner F → Option ScenarioResult
get_result vtc_id r = lookup vtc_id r.results

-- The three ways that `run_scenario` builds a result.
unfoldable pub result_of : String → List String → Outcome (Unit {0}) → ScenarioResult
result_of vtc_id steps (ok done) = record {
  vtc_id = vtc_id;
  status = passed;
  steps = steps;
  error_message = none;
}
result_of vtc_id steps (raised (assertion_error text)) = record {
  vtc_id = vtc_id;
  status = failed;
  steps = steps;
  error_message = some (assertion_error text);
}
result_of vtc_id steps (raised e) = record {
  vtc_id = vtc_id;
  status = error;
  steps = steps;
  error_message = some e;
}

unfoldable pub record_result :
    {F : Type 0}
    → String
    → Runner F × List String × Outcome (Unit {0})
    → Runner F × Outcome ScenarioResult
unfolding result_of
record_result vtc_id (r, steps, ended) =
    let result = result_of vtc_id steps ended in
    (record r { results = insert vtc_id result r.results }, ok result)

-- `run_scenario`, for the scenario that is found under the name.
unfoldable pub run_found :
    {F : Type 0} → Option (Scenario F) → String → Method (Runner F) ScenarioResult
unfolding record_result reset_environment
run_found none vtc_id r = (r, raised unknown_scenario_error)
run_found (some scenario) vtc_id r = record_result vtc_id (scenario (reset_environment r))

-- `run_scenario`; `scenarios` is the table `_SCENARIOS`.
unfoldable pub run_scenario :
    {F : Type 0} → Dict (Scenario F) → String → Method (Runner F) ScenarioResult
unfolding run_found
run_scenario scenarios vtc_id r = run_found (lookup vtc_id scenarios) vtc_id r
