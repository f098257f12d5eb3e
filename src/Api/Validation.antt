-- ===== src/Api/Validation.antt =====
-- api/routers/test_scenarios.py: listing, running and looking up the validation scenarios. The
-- scenarios work on the bus of the application, which is the one of the process.
use sec_oc.Base.{
  ℕ, String, Bool, true, false, Option, none, some, List, [], ◌∷◌, str_eq, if◌then◌else◌,
}
use sec_oc.Base.{Method, Outcome, Exception, ok, raised, unknown_scenario_error, http_exception}
use sec_oc.Base.Dict.{Dict}
use sec_oc.Profiler.{PerformanceProfiler}
use sec_oc.Scenarios
use sec_oc.Scenarios.{Runner, Scenario, ScenarioResult}
use sec_oc.Api.State.{AppState, broadcast_updates}

-- The application, and what the scenario runner keeps beside it.
pub record Validation (F : Type 0) : Type 0 where
  pub app : AppState
  pub profiler : PerformanceProfiler F
  pub results : Dict ScenarioResult

-- What the scenario runner sees.
abbrev pub runner_of : {F : Type 0} → Validation F → Runner F
runner_of v = record { bus = v.app.stack.bus; profiler = v.profiler; results = v.results }

-- The application after a run, with `state.can_bus._running = True`.
unfoldable pub after_run : {F : Type 0} → Runner F → Validation F → Validation F
after_run r v = record {
  app = record v.app { stack = record v.app.stack { bus = record r.bus { running = true } } };
  profiler = r.profiler;
  results = r.results;
}

-- `except UnknownScenarioError`
unfoldable pub scenario_status : Exception → Exception
scenario_status unknown_scenario_error = http_exception 404
scenario_status e = e

-- The end of `run_scenario`.
unfoldable pub finish_run :
    {F : Type 0}
    → (ℕ → ℕ → Bool)
    → Validation F
    → Outcome ScenarioResult
    → Validation F × Outcome ScenarioResult
unfolding scenario_status
finish_run online v (ok result) = (record v { app = broadcast_updates online v.app }, ok result)
finish_run online v (raised e) = (v, raised (scenario_status e))

-- `run_scenario`
unfoldable pub run_scenario :
    {F : Type 0}
    → (ℕ → ℕ → Bool)
    → Dict (Scenario F)
    → String
    → Method (Validation F) ScenarioResult
unfolding after_run finish_run
run_scenario online scenarios vtc_id v =
    let (r, ran) = Scenarios.run_scenario scenarios vtc_id (runner_of v) in
    finish_run online (after_run r v) ran

-- `vtc_id in scenario_runner.list_scenarios()`
unfoldable pub is_listed : String → List String → Bool
is_listed vtc_id [] = false
is_listed vtc_id (name ∷ names) =
    let rest = is_listed vtc_id names in if str_eq name vtc_id then true else rest

unfoldable pub or_not_run : Option ScenarioResult → Outcome ScenarioResult
or_not_run none = raised (http_exception 404)
or_not_run (some result) = ok result

-- `get_result`
unfoldable pub get_result : {F : Type 0} → String → Method (Validation F) ScenarioResult
unfolding is_listed or_not_run
get_result vtc_id v =
    if is_listed vtc_id Scenarios.list_scenarios
    then (v, or_not_run (Scenarios.get_result vtc_id (runner_of v)))
    else (v, raised (http_exception 404))
