-- ===== src/Api/Endpoints.antt =====
-- api/routers/secoc.py: transmission, reception and the attack endpoints. An HTTP error is an
-- exception with its status code; its text is left out, and so is the encoding of a response in
-- JSON. `Default` arguments of the request models are filled in by the caller.
use sec_oc.Base.{ℕ, String, Bool, true, false, Option, none, some, str_eq, if◌then◌else◌}
use sec_oc.Base.{
  Method, Outcome, Exception, ok, raised, and_then, secoc_config_error, secoc_transport_error,
  http_exception,
}
use sec_oc.Base.Bytes.{Bytes}
use sec_oc.Attack.{
  inject, capture, replay, ForgeMode, malformed_structure, invalid_mac, wrong_freshness,
  generate_forged_pdu, intercept,
}
use sec_oc.Bus.{consume}
use sec_oc.Nvm.Hex.{hex, from_hex}
use sec_oc.Monitor.{EcuStateValue}
use sec_oc.Profile.{Transport, classic_can, can_fd}
use sec_oc.Secoc
use sec_oc.Secoc.Objects.{Setup}
use sec_oc.Api.Sockets.{Status}
use sec_oc.Api.State.{AppState, on_stack, get_status, broadcast_updates}

-- `TransmitResponse`
pub record TransmitResponse : Type 0 where
  pub pdu_id : String
  pub secured_pdu_hex : String

-- `ReceiveResponse`
pub record ReceiveResponse : Type 0 where
  pub pdu_id : String
  pub accepted : Bool
  pub authentic_pdu_hex : Option String
  pub ecu_state : EcuStateValue
  pub locked_out : Bool

-- `_parse_transport`
unfoldable pub parse_transport : String → Outcome Transport
parse_transport value =
    if str_eq value "CLASSIC_CAN"
    then ok classic_can
    else if str_eq value "CAN_FD"
    then ok can_fd
    else raised (http_exception 400)

-- `ForgeMode(body.mode)`
unfoldable pub parse_mode : String → Outcome ForgeMode
parse_mode value =
    if str_eq value "MALFORMED_STRUCTURE"
    then ok malformed_structure
    else if str_eq value "INVALID_MAC"
    then ok invalid_mac
    else if str_eq value "WRONG_FRESHNESS"
    then ok wrong_freshness
    else raised (http_exception 400)

-- `bytes.fromhex`, with its `ValueError` as the status 400.
unfoldable pub or_bad_request : Outcome Bytes → Outcome Bytes
or_bad_request (ok bytes) = ok bytes
or_bad_request (raised e) = raised (http_exception 400)

unfoldable pub parse_hex : String → Outcome Bytes
unfolding or_bad_request
parse_hex text = or_bad_request (from_hex text)

-- The `except` clauses round `transmit_secured`.
unfoldable pub transmit_status : Exception → Exception
transmit_status secoc_config_error = http_exception 404
transmit_status secoc_transport_error = http_exception 400
transmit_status e = e

-- The `except` clause round `receive_secured`.
unfoldable pub receive_status : Exception → Exception
receive_status secoc_config_error = http_exception 404
receive_status e = e

-- `try: ... except`: what was written before the exception stays.
abbrev pub excepting : {S A : Type 0} → (Exception → Exception) → S × Outcome A → S × Outcome A
excepting status (s, ok a) = (s, ok a)
excepting status (s, raised e) = (s, raised (status e))

unfoldable pub hex_of : Option Bytes → Option String
hex_of none = none
hex_of (some bytes) = some (hex bytes)

unfoldable pub is_some : Option Bytes → Bool
is_some none = false
is_some (some bytes) = true

-- The response to a reception, with the status of the node after it.
unfoldable pub receive_response : String → Option Bytes → Status → ReceiveResponse
unfolding hex_of is_some
receive_response pdu_id authentic_pdu status = record {
  pdu_id = pdu_id;
  accepted = is_some authentic_pdu;
  authentic_pdu_hex = hex_of authentic_pdu;
  ecu_state = status.ecu_state;
  locked_out = status.locked_out;
}

module _ (env : Setup) (online : ℕ → ℕ → Bool) where
  -- The transmission that `transmit_secured` and `mitm_tamper` share, from the decoded payload on.
  unfoldable pub transmit_bytes : String → Bytes → Transport → Method AppState Bytes
  unfolding transmit_status
  transmit_bytes pdu_id authentic_pdu transport a =
      excepting transmit_status
        (on_stack (Secoc.transmit_secured env pdu_id authentic_pdu transport) a)

  -- `transmit_secured`
  unfoldable pub transmit_secured : String → String → String → Method AppState TransmitResponse
  unfolding parse_hex parse_transport transmit_bytes
  transmit_secured pdu_id payload_hex transport_name a =
      and_then (a, parse_hex payload_hex)
        λ authentic_pdu a1.
          and_then (a1, parse_transport transport_name)
            λ transport a2.
              and_then (transmit_bytes pdu_id authentic_pdu transport a2) λ secured_pdu a3. (
                broadcast_updates online a3,
                ok (record { pdu_id = pdu_id; secured_pdu_hex = hex secured_pdu }),
              )

  -- The reception, from the decoded frame on.
  unfoldable pub receive_bytes : String → Bytes → Transport → Method AppState ReceiveResponse
  unfolding receive_status receive_response
  receive_bytes pdu_id secured_pdu transport a =
      and_then
        (excepting receive_status
          (on_stack (Secoc.receive_secured env pdu_id secured_pdu transport) a))
        λ authentic_pdu a1.
          (broadcast_updates online a1, ok (receive_response pdu_id authentic_pdu (get_status a1)))

  -- `receive_secured`
  unfoldable pub receive_secured : String → String → String → Method AppState ReceiveResponse
  unfolding parse_hex parse_transport receive_bytes
  receive_secured pdu_id secured_pdu_hex transport_name a =
      and_then (a, parse_hex secured_pdu_hex)
        λ secured_pdu a1.
          and_then (a1, parse_transport transport_name)
            λ transport a2. receive_bytes pdu_id secured_pdu transport a2

  -- `validate_secured`
  pub validate_secured : String → String → String → Method AppState ReceiveResponse
  validate_secured pdu_id secured_pdu_hex transport_name =
      receive_secured pdu_id secured_pdu_hex transport_name

  -- `can_send`
  unfoldable pub can_send : String → String → Method AppState (String × Bool)
  unfolding parse_hex
  can_send pdu_id data_hex a =
      and_then (a, parse_hex data_hex)
        λ bytes a1. (
          broadcast_updates online
              (record a1 { stack = record a1.stack { bus = inject pdu_id bytes a1.stack.bus } }),
          ok (pdu_id, true),
        )

  captured_hex : String → Option Bytes → Outcome (String × String)
  captured_hex pdu_id none = raised (http_exception 404)
  captured_hex pdu_id (some raw_bytes) = ok (pdu_id, hex raw_bytes)

  -- `replay_capture`
  unfoldable pub replay_capture : String → Method AppState (String × String)
  unfolding captured_hex
  replay_capture pdu_id a =
      let (attack, frame) = capture pdu_id a.stack.bus a.replay_attack in
      (record a { replay_attack = attack }, captured_hex pdu_id frame.raw_bytes)

  -- The end of `replay_replay`, for the frame that `consume` gives.
  unfoldable pub receive_consumed :
      String → String → Option (String × Bytes) → Method AppState ReceiveResponse
  receive_consumed pdu_id transport_name none a = (a, raised (http_exception 404))
  receive_consumed pdu_id transport_name (some (_, secured_pdu)) a =
      receive_secured pdu_id (hex secured_pdu) transport_name a

  -- `replay_replay`
  unfoldable pub replay_replay : String → String → Method AppState ReceiveResponse
  unfolding receive_consumed
  replay_replay pdu_id transport_name a =
      let (bus, frame) = consume (replay pdu_id a.replay_attack a.stack.bus) in
      receive_consumed pdu_id transport_name frame
        (record a { stack = record a.stack { bus = bus } })

  -- `mitm_tamper`; `now` is `time.time()`, and the mask is the default of `MitmAttack`.
  unfoldable pub mitm_tamper : String → String → String → ℕ → Method AppState ReceiveResponse
  unfolding parse_hex parse_transport transmit_bytes
  mitm_tamper pdu_id payload_hex transport_name now a =
      and_then (a, parse_hex payload_hex)
        λ authentic_pdu a1.
          and_then (a1, parse_transport transport_name)
            λ transport a2.
              and_then (transmit_bytes pdu_id authentic_pdu transport a2) λ secured_pdu a3.
                let tampered =
                  intercept 1
                    (record { pdu_id = pdu_id; data_bytes = secured_pdu; timestamp = now }) in
                receive_secured pdu_id (hex tampered.tampered_raw_bytes) transport_name a3

  -- `forge_inject`
  unfoldable pub forge_inject : String → String → Method AppState ReceiveResponse
  unfolding parse_mode
  forge_inject pdu_id mode_name a =
      and_then (a, parse_mode mode_name)
        λ mode a1. receive_secured pdu_id (hex (generate_forged_pdu mode)) "CAN_FD" a1
