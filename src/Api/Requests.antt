-- ===== src/Api/Requests.antt =====
-- The requests that the back end serves one after the other: the endpoints of api/routers that change
-- something (`secoc/validate` is `secoc/receive`), and the websocket of api/main.py.
use sec_oc.Base.{ℕ, Bool, String, List, [], ◌∷◌}
use sec_oc.Base.Dict.{Dict}
use sec_oc.Scenarios.{Scenario}
use sec_oc.Api.Validation.{Validation, run_scenario}
use sec_oc.Secoc.Objects.{Setup}
use sec_oc.Api.Sockets.{ecu_state, connect, disconnect, broadcast}
use sec_oc.Api.State.{AppState, get_status}
use sec_oc.Api.Endpoints.{
  transmit_secured, receive_secured, can_send, replay_capture, replay_replay, mitm_tamper,
  forge_inject,
}
use sec_oc.Api.Management.{update_profile_version, provision, rotate, reset_ecu}

pub data Request : Type 0 where
  transmits receives : String → String → String → Request
  sends : String → String → Request
  captures : String → Request
  replays : String → String → Request
  tampers : String → String → String → ℕ → Request
  forges : String → String → Request
  updates provisions rotates : String → String → Request
  resets : Request
  runs : String → Request
  arrives leaves : ℕ → Request

module _ (env : Setup) (online : ℕ → ℕ → Bool) where
  -- The start of `ws_events`: the new client is connected, and all are told the state.
  unfoldable pub arrive : ℕ → AppState → AppState
  arrive ws a = record a {
    manager = broadcast online (ecu_state (get_status a)) (connect ws a.manager);
  }

  -- Its end.
  unfoldable pub leave : ℕ → AppState → AppState
  leave ws a = record a { manager = disconnect ws a.manager }

  -- A request that does not look at the scenario runner.
  unfoldable pub on_app : {F : Type 0} → (AppState → AppState) → Validation F → Validation F
  on_app change v = record v { app = change v.app }

  -- The application and the scenario runner after a request, whether it was answered or raised;
  -- `scenarios` is the table `_SCENARIOS`.
  module _ {F : Type 0} (scenarios : Dict (Scenario F)) where
    unfoldable pub serve : Request → Validation F → Validation F
    unfolding arrive leave on_app
    serve (transmits pdu_id payload_hex transport) =
        on_app λ a. (transmit_secured env online pdu_id payload_hex transport a).0
    serve (receives pdu_id secured_pdu_hex transport) =
        on_app λ a. (receive_secured env online pdu_id secured_pdu_hex transport a).0
    serve (sends pdu_id data_hex) = on_app λ a. (can_send env online pdu_id data_hex a).0
    serve (captures pdu_id) = on_app λ a. (replay_capture env online pdu_id a).0
    serve (replays pdu_id transport) = on_app λ a. (replay_replay env online pdu_id transport a).0
    serve (tampers pdu_id payload_hex transport now) =
        on_app λ a. (mitm_tamper env online pdu_id payload_hex transport now a).0
    serve (forges pdu_id mode) = on_app λ a. (forge_inject env online pdu_id mode a).0
    serve (updates pdu_id version) =
        on_app λ a. (update_profile_version env online pdu_id version a).0
    serve (provisions pdu_id key_id) = on_app λ a. (provision env online pdu_id key_id a).0
    serve (rotates pdu_id new_key_id) = on_app λ a. (rotate env online pdu_id new_key_id a).0
    serve resets = on_app λ a. (reset_ecu env online a).0
    serve (runs vtc_id) = λ v. (run_scenario online scenarios vtc_id v).0
    serve (arrives ws) = on_app (arrive ws)
    serve (leaves ws) = on_app (leave ws)

    unfoldable pub serve_all : List Request → Validation F → Validation F
    unfolding serve
    serve_all [] v = v
    serve_all (r ∷ requests) v = serve_all requests (serve r v)
