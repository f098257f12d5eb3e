-- ===== src/Api/Answers.antt =====
-- What the endpoints under api/routers refuse, what a reset clears, and which frame a replay hands
-- to the node.
use sec_oc.Base.{
  ℕ, ◌≤◌, ◌≡◌, ◌≢◌, ◌↔◌, refl, ap, ◌∙◌, String, Bool, true, false, none, some, List, [], ◌∷◌, ◌++◌,
  arith, eq_iff,
}
use sec_oc.Base.{Exception, ok, raised, secoc_config_error, http_exception}
use sec_oc.Base.Bytes.{Bytes}
use sec_oc.Base.Dict.{Dict, get_or, lookup, get_or_missing}
use sec_oc.Attack.Defence.{replay_found}
use sec_oc.Bus.Queue.{consume-publish_empty, consume-publish_behind}
use sec_oc.Bus.{publish}
use sec_oc.Monitor.{normal_operation, get_failure_count, transition}
use sec_oc.Monitor.Events.{info}
use sec_oc.Monitor.Growth.{log_event_others, transition_others}
use sec_oc.Monitor.Lockout.{record_failures, occurrences, lockout_iff}
use sec_oc.Nvm.Hex.{hex, from_hex}
use sec_oc.Profile.{Transport, SecurityProfileEntry, get_profile}
use sec_oc.Secoc
use sec_oc.Secoc.Objects.{Setup}
use sec_oc.Api.State.{AppState, reset_ecu}
use sec_oc.Api.Endpoints.{
  receive_secured, transmit_secured, parse_hex, parse_transport, receive_bytes, transmit_bytes,
  replay_replay, receive_consumed,
}

-- Why a transmit or a receive request is refused before the node has done anything.
pub data IsBad (p text transport : String) (a : AppState) (status : ℕ) : Type 0 where
  not_hex :
      {e : Exception} → from_hex text ≡ raised e → status ≡ 400 → IsBad p text transport a status
  no_transport :
      {bytes : Bytes}
      → from_hex text ≡ ok bytes
      → transport ≢ "CLASSIC_CAN"
      → transport ≢ "CAN_FD"
      → status ≡ 400
      → IsBad p text transport a status
  no_profile :
      {bytes : Bytes} {t : Transport}
      → from_hex text ≡ ok bytes
      → parse_transport transport ≡ ok t
      → lookup p a.stack.profiles ≡ none
      → status ≡ 404
      → IsBad p text transport a status

parse_transport_unknown :
    (transport : String)
    → transport ≢ "CLASSIC_CAN"
    → transport ≢ "CAN_FD"
    → parse_transport transport ≡ raised (http_exception 400)
unfolding parse_transport
parse_transport_unknown t not_can not_fd = ground (arith, eq_iff t "CLASSIC_CAN", eq_iff t "CAN_FD")

get_profile_missing :
    (p : String) (profiles : Dict SecurityProfileEntry)
    → lookup p profiles ≡ none
    → get_profile p profiles ≡ raised secoc_config_error
unfolding get_profile
get_profile_missing p profiles missing = ground arith

module _ (env : Setup) (online : ℕ → ℕ → Bool) (p : String) (a : AppState) where
  receive_bytes_unknown :
      (frame : Bytes) (t : Transport)
      → lookup p a.stack.profiles ≡ none
      → receive_bytes env online p frame t a ≡ (a, raised (http_exception 404))
  unfolding receive_bytes Secoc.receive_secured
  receive_bytes_unknown frame t missing = rw (get_profile_missing p a.stack.profiles missing) refl

  transmit_bytes_unknown :
      (payload : Bytes) (t : Transport)
      → lookup p a.stack.profiles ≡ none
      → transmit_bytes env online p payload t a ≡ (a, raised (http_exception 404))
  unfolding transmit_bytes Secoc.transmit_secured
  transmit_bytes_unknown payload t missing =
      rw (get_profile_missing p a.stack.profiles missing) refl

  -- A request to transmit or to receive whose text is no hexadecimal or whose transport is unknown
  -- is answered with the status 400, one for a PDU without a profile with 404; either way the
  -- application is as it was: no event, no failure, nothing on the bus and nothing broadcast.
  pub bad_request :
      (text transport : String) {status : ℕ}
      → IsBad p text transport a status
      → (receive_secured env online p text transport a ≡ (a, raised (http_exception status)))
        × (transmit_secured env online p text transport a ≡ (a, raised (http_exception status)))
  unfolding receive_secured transmit_secured parse_hex
  bad_request text transport (not_hex bad status) = rw (bad, status) (refl, refl)
  bad_request text transport (no_transport fine not_can not_fd status) =
      rw (fine, status) (rw (parse_transport_unknown transport not_can not_fd) (refl, refl))
  bad_request text transport (no_profile {bytes = bytes} {t = t} fine known missing status) =
      rw (fine, status)
        (rw known
          (receive_bytes_unknown bytes t missing, rw (transmit_bytes_unknown bytes t missing) refl))

-- The reset of the application clears the lockout and all failure counts, unlike the one of the
-- node: the ECU is in normal operation, and a run of authentication failures after the reset ends
-- in the lockout exactly when some one PDU has failed five times in that run, whatever came before.
pub reset_ecu-lockout_iff :
    (a : AppState) (ps : List String)
    → ((reset_ecu a).stack.monitor.ecu_state ≡ normal_operation)
      × (((record_failures ps (reset_ecu a).stack.monitor).locked_out ≡ true)
          ↔ ((p : String) × (5 ≤ occurrences p ps)))
unfolding reset_ecu get_failure_count lookup
reset_ecu-lockout_iff a ps =
    let m = record (transition normal_operation a.stack.monitor) {
      locked_out = false;
      counts = [];
    } in
    let (unlocked, cleared, state) = log_event_others info "ECU_RESET" "SecOC-RESET" m in
    (
      state ∙ transition_others normal_operation a.stack.monitor,
      lockout_iff ps (reset_ecu a).stack.monitor unlocked
          (λ p. ap (λ counts. get_or p 0 counts) cleared ∙ get_or_missing p 0 [] refl),
    )

module _ (env : Setup) (online : ℕ → ℕ → Bool) (p transport : String) (a : AppState) where
  -- The replay endpoint puts the captured frame at the end of the queue of the bus and hands the
  -- node the frame at its head. If the queue is empty that is the captured frame, and the queue is
  -- empty again; if it is not, the node receives the frame at the head, of whatever PDU that is,
  -- under the PDU of the request, and the captured frame stays in the queue.
  pub replay_replay-head :
      (raw_bytes : Bytes)
      → lookup p a.replay_attack.captured ≡ some (some raw_bytes)
      → (a.stack.bus.queue ≡ []
          → replay_replay env online p transport a
            ≡ receive_secured env online p (hex raw_bytes) transport (record a {
              stack = record a.stack {
                bus = record (publish p raw_bytes a.stack.bus) { queue = [] };
              };
            }))
        × ((q : String) (head : Bytes) (rest : List (String × Bytes))
            → a.stack.bus.queue ≡ (q, head) ∷ rest
            → replay_replay env online p transport a
              ≡ receive_secured env online p (hex head) transport (record a {
                stack = record a.stack {
                  bus = record (publish p raw_bytes a.stack.bus) {
                    queue = rest ++ (p, raw_bytes) ∷ [];
                  };
                };
              }))
  unfolding replay_replay receive_consumed
  replay_replay-head raw_bytes captured = (
    λ empty.
        rw (replay_found p raw_bytes a.replay_attack a.stack.bus captured)
          (rw (consume-publish_empty p raw_bytes a.stack.bus empty) refl),
    λ q head rest behind.
        rw (replay_found p raw_bytes a.replay_attack a.stack.bus captured)
          (rw (consume-publish_behind p q raw_bytes head rest a.stack.bus behind) refl),
  )
