-- ===== src/Examples/Dashboard.antt =====
-- The application with one PDU, one frame on its bus and two clients.
use sec_oc.Base.{
  ℕ, zero, suc, ltb, ◌-◌, ◌/◌, ◌+◌, ◌*◌, ◌%◌, ◌≤◌, ◌<◌, ◌≡◌, ◌↔◌, refl, String, Bool, true, false,
  none, some, List, [], ◌∷◌, ◌++◌, arith, replicate,
}
use sec_oc.Base.{raised, ok, http_exception, assertion_error}
use sec_oc.Base.Bytes.{Bytes}
use sec_oc.Base.Dict.{Dict, lookup}
use sec_oc.Bus.{publish}
use sec_oc.Monitor.{normal_operation}
use sec_oc.Monitor.Lockout.{record_failures, occurrences}
use sec_oc.Nvm.Hex.{AllBytes, from_hex, hex}
use sec_oc.Profile.{can_fd}
use sec_oc.Profiler.{Floats, new_profiler, get_summary}
use sec_oc.Profiler.Totals.{Call, starts, stops, run, late, stops_from, IsOrdered, get_summary_lem}
use sec_oc.Api.State.{AppState, reset_ecu}
use sec_oc.Api.Endpoints.{receive_secured, transmit_secured, replay_replay, parse_transport}
use sec_oc.Api.Requests.{Request, serve_all, receives, captures, arrives, leaves, resets, runs}
use sec_oc.Api.Clients
use sec_oc.Scenarios.{Scenario, ScenarioResult, passed, list_scenarios}
use sec_oc.Api.Validation.{Validation, run_scenario, get_result, is_listed}
use sec_oc.Api.Runs.{run_scenario-get_result}
use sec_oc.Api.Told.{IsTold, serve_all-IsTold}
use sec_oc.Api.Answers.{IsBad, no_profile, bad_request, reset_ecu-lockout_iff, replay_replay-head}
use sec_oc.Api.Texts.{HasBytes}
use sec_oc.Examples.Node.{checksum, toy_library, brake, setup, node}

abbrev pub all_online : ℕ → ℕ → Bool
all_online t ws = true

abbrev app : ℕ → AppState
app last = record {
  stack = node last;
  config_file = [];
  replay_attack = record { captured = (brake, some (9 ∷ 9 ∷ [])) ∷ [] };
  boot_integrity_ok = some true;
  failed_component = none;
  broadcast_index = 0;
  manager = record { connections = 4 ∷ 3 ∷ []; received = []; broadcasts = 0 };
}

AllBytes-replicate : (n b : ℕ) → b < 256 → AllBytes (replicate n b)
AllBytes-replicate zero b h = tt
AllBytes-replicate (suc n) b h = (h, AllBytes-replicate n b h)

pub toy_library-HasBytes : HasBytes toy_library
toy_library-HasBytes = record {
  hmac_bytes =
      λ key text. AllBytes-replicate 32 ((checksum key + checksum text) % 256) (omega arith);
}

-- A scenario that fails after a frame has gone to the bus.
abbrev failing : Scenario ℕ
failing r =
    (record r { bus = publish brake (1 ∷ []) r.bus }, "inject" ∷ [], raised (assertion_error ""))

abbrev table : Dict (Scenario ℕ)
table = ("VTC-SR-01", failing) ∷ []

abbrev validation : Validation ℕ
validation = record {
  app = app 5;
  profiler = record { budget_ms = 5000; starts = []; samples = [] };
  results = [];
}

abbrev requests : List Request
requests =
    receives brake "00" "CAN_FD"
    ∷ leaves 4
    ∷ captures brake
    ∷ resets
    ∷ runs "VTC-SR-01"
    ∷ arrives 5
    ∷ receives "PDU_UNKNOWN" "0" "LIN"
    ∷ []

IsTold-at_first : IsTold 3 [] (app 5)
unfolding Clients.occurrences Clients.seen
IsTold-at_first = record { once = refl; bounded = omega arith; in_order = refl }

serve_all-IsTold_example : IsTold 3 [] (serve_all setup all_online table requests validation).app
serve_all-IsTold_example =
    serve_all-IsTold setup all_online 3 (λ t. refl) [] table requests validation (omega arith)
      IsTold-at_first

unknown : IsBad "PDU_UNKNOWN" "0102" "CAN_FD" (app 5) 404
unfolding from_hex parse_transport lookup
unknown = no_profile {bytes = 1 ∷ 2 ∷ []} {t = can_fd} refl refl refl refl

bad_request_example :
    (receive_secured setup all_online "PDU_UNKNOWN" "0102" "CAN_FD" (app 5)
      ≡ (app 5, raised (http_exception 404)))
    × (transmit_secured setup all_online "PDU_UNKNOWN" "0102" "CAN_FD" (app 5)
        ≡ (app 5, raised (http_exception 404)))
bad_request_example = bad_request setup all_online "PDU_UNKNOWN" (app 5) "0102" "CAN_FD" unknown

reset_ecu-lockout_iff_example :
    ((reset_ecu (app 5)).stack.monitor.ecu_state ≡ normal_operation)
    × (((record_failures (brake ∷ brake ∷ []) (reset_ecu (app 5)).stack.monitor).locked_out ≡ true)
        ↔ ((p : String) × (5 ≤ occurrences p (brake ∷ brake ∷ []))))
reset_ecu-lockout_iff_example = reset_ecu-lockout_iff (app 5) (brake ∷ brake ∷ [])

captured : lookup brake (app 5).replay_attack.captured ≡ some (some (9 ∷ 9 ∷ []))
unfolding lookup
captured = refl

replay_replay-head_example :
    ((app 5).stack.bus.queue ≡ []
      → replay_replay setup all_online brake "CAN_FD" (app 5)
        ≡ receive_secured setup all_online brake (hex (9 ∷ 9 ∷ [])) "CAN_FD" (record (app 5) {
          stack = record (node 5) {
            bus = record (publish brake (9 ∷ 9 ∷ []) (node 5).bus) { queue = [] };
          };
        }))
    × ((q : String) (head : Bytes) (rest : List (String × Bytes))
        → (app 5).stack.bus.queue ≡ (q, head) ∷ rest
        → replay_replay setup all_online brake "CAN_FD" (app 5)
          ≡ receive_secured setup all_online brake (hex head) "CAN_FD" (record (app 5) {
            stack = record (node 5) {
              bus = record (publish brake (9 ∷ 9 ∷ []) (node 5).bus) {
                queue = rest ++ (brake, 9 ∷ 9 ∷ []) ∷ [];
              };
            };
          }))
replay_replay-head_example =
    replay_replay-head setup all_online brake "CAN_FD" (app 5) (9 ∷ 9 ∷ []) captured

total : List ℕ → ℕ
total [] = 0
total (n ∷ ns) = n + total ns

-- A stand-in for floats.
abbrev toy_floats : Floats ℕ
toy_floats = record {
  zero_ms = 0;
  thousand = 1;
  sub = λ a b. a - b;
  mul = λ a b. a * b;
  exceeds = λ a b. ltb b a;
  sum = total;
  div_length = λ a n. a / n;
}

toy_floats-IsOrdered : IsOrdered toy_floats
toy_floats-IsOrdered = record { up = λ a b c h k. ground arith; down = λ a b c h k. ground arith }

abbrev timings : List (Call ℕ)
timings = starts "mac" 100 ∷ stops "mac" 0 5400 ∷ stops "other" 7000 7020 ∷ []

get_summary_lem_example :
    let p = run toy_floats timings (new_profiler 5000) in
    let summary = get_summary toy_floats p in
    (summary.count ≡ stops_from 0 timings)
    × (summary.exceeded_count ≡ late toy_floats 5000 p.samples)
    × ((summary.exceeded_count ≡ 0) ↔ (ltb 5000 summary.max_ms ≡ false))
get_summary_lem_example = get_summary_lem toy_floats 5000 timings toy_floats-IsOrdered refl

in_table : lookup "VTC-SR-01" table ≡ some failing
unfolding lookup
in_table = refl

in_list : is_listed "VTC-SR-01" list_scenarios ≡ true
unfolding is_listed list_scenarios
in_list = refl

run_scenario-get_result_example :
    let (v', answer) = run_scenario all_online table "VTC-SR-01" validation in
    let (r, steps, ended) = failing (record {
      bus = record { running = false; last_frames = []; queue = [] };
      profiler = record validation.profiler { starts = []; samples = [] };
      results = validation.results;
    }) in
    (result : ScenarioResult) × (answer ≡ ok result)
    × ((result.status ≡ passed) ↔ (ended ≡ ok tt))
    × ((get_result "VTC-SR-01" v').1 ≡ ok result)
    × (v'.app.stack ≡ record (node 5) { bus = record r.bus { running = true } })
run_scenario-get_result_example =
    (run_scenario-get_result all_online table "VTC-SR-01" validation).0 failing in_table in_list
