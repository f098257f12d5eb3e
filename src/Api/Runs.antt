-- ===== src/Api/Runs.antt =====
-- What a run of a scenario by api/routers/test_scenarios.py answers, and what it does to the live
-- application.
use sec_oc.Base.{◌≡◌, ◌↔◌, refl, ap, ◌∙◌, ℕ, String, Bool, true, false, none, some, []}
use sec_oc.Base.{ok, raised, http_exception}
use sec_oc.Base.Dict.{Dict, insert, lookup, lookup-insert_self}
use sec_oc.Profiler
use sec_oc.Scenarios
use sec_oc.Scenarios.{Runner, Scenario, ScenarioResult, passed, reset_environment, result_of}
use sec_oc.Scenarios.Results.{passed_iff, run_scenario_known, run_scenario_unknown}
use sec_oc.Api.State.{broadcast_updates}
use sec_oc.Api.Validation.{
  Validation, runner_of, after_run, finish_run, run_scenario, is_listed, get_result,
}

module _ {F : Type 0} (online : ℕ → ℕ → Bool) (scenarios : Dict (Scenario F)) (vtc : String)
    (v : Validation F) where
  -- The state after a run that left `r` and the result.
  after : Runner F → ScenarioResult → Validation F
  after r result = record {
    app =
        broadcast_updates online
          (record v.app { stack = record v.app.stack { bus = record r.bus { running = true } } });
    profiler = r.profiler;
    results = insert vtc result r.results;
  }

  ran :
      (scenario : Scenario F)
      → lookup vtc scenarios ≡ some scenario
      → let (r, steps, ended) = scenario (reset_environment (runner_of v)) in
        let result = result_of vtc steps ended in
        run_scenario online scenarios vtc v ≡ (after r result, ok result)
  unfolding run_scenario after
  ran scenario known =
      ap (λ x. finish_run online (after_run x.0 v) x.1)
        (run_scenario_known scenarios vtc scenario (runner_of v) known)

  refused :
      lookup vtc scenarios ≡ none
      → run_scenario online scenarios vtc v ≡ (
        record v {
          app = record v.app {
            stack = record v.app.stack { bus = record v.app.stack.bus { running = true } };
          };
        },
        raised (http_exception 404),
      )
  unfolding run_scenario
  refused unknown =
      ap (λ x. finish_run online (after_run x.0 v) x.1)
        (run_scenario_unknown scenarios vtc (runner_of v) unknown)

  found :
      (result : ScenarioResult) (r : Runner F)
      → is_listed vtc Scenarios.list_scenarios ≡ true
      → (get_result vtc (after r result)).1 ≡ ok result
  unfolding get_result Scenarios.get_result after
  found result r listed = rw (listed, lookup-insert_self vtc result r.results) refl

  -- Running a scenario of the table that is listed is answered with a result, whatever the scenario
  -- raises: it has passed exactly when the scenario raised nothing, and the result endpoint then
  -- answers the same. The scenario starts from an empty bus that is not running and a profiler
  -- without samples, whatever the live ones were. The live node, of which a scenario is given no more,
  -- then has the bus that the scenario left, but running. A name that is not in the table is answered with the status 404, and
  -- the bus is left running.
  pub run_scenario-get_result :
      ((scenario : Scenario F)
        → lookup vtc scenarios ≡ some scenario
        → is_listed vtc Scenarios.list_scenarios ≡ true
        → let (v', answer) = run_scenario online scenarios vtc v in
          let (r, steps, ended) = scenario (record {
            bus = record { running = false; last_frames = []; queue = [] };
            profiler = record v.profiler { starts = []; samples = [] };
            results = v.results;
          }) in
          (result : ScenarioResult) × (answer ≡ ok result)
          × ((result.status ≡ passed) ↔ (ended ≡ ok tt))
          × ((get_result vtc v').1 ≡ ok result)
          × (v'.app.stack ≡ record v.app.stack { bus = record r.bus { running = true } }))
      × (lookup vtc scenarios ≡ none
          → let (v', answer) = run_scenario online scenarios vtc v in
            (answer ≡ raised (http_exception 404))
            × (v' ≡ record v {
              app = record v.app {
                stack = record v.app.stack { bus = record v.app.stack.bus { running = true } };
              };
            }))
  unfolding after broadcast_updates reset_environment Profiler.reset
  run_scenario-get_result = (
    λ scenario known listed.
        let (r, steps, ended) = scenario (record {
          bus = record { running = false; last_frames = []; queue = [] };
          profiler = record v.profiler { starts = []; samples = [] };
          results = v.results;
        }) in
        let result = result_of vtc steps ended in
        (
          result,
          ap (λ x. x.1) (ran scenario known),
          passed_iff vtc steps ended,
          ap (λ x. (get_result vtc x.0).1) (ran scenario known) ∙ found result r listed,
          ap (λ x. x.0.app.stack) (ran scenario known),
        ),
    λ unknown. let e = refused unknown in (ap (λ x. x.1) e, ap (λ x. x.0) e),
  )
