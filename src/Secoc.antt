-- ===== src/Secoc.antt =====
-- sim/secoc.py: building and checking Secured I-PDUs.
pub mod Objects
pub mod Authenticator
pub mod Macs
pub mod Reception
pub mod Receive
pub mod Delivery
pub mod Answers
pub mod Traces
pub mod Replay
pub mod Transmit
pub mod Exchange
pub mod Stall
pub mod Logging
use sec_oc.Base.{ℕ, ◌+◌, String, Bool, true, false, Option, none, some, ltb, if◌then◌else◌, length}
use sec_oc.Base.{
  Method, Outcome, Exception, ok, raised, is_value_error, secoc_transport_error, and_then,
}
use sec_oc.Base.Bytes.{Bytes, ljust}
use sec_oc.Bus.{publish}
use sec_oc.Freshness.{load_last_valid_freshness, validate_freshness, commit_freshness}
use sec_oc.Monitor.{Monitor, EcuStateValue, log_rejection, record_failure, auth}
use sec_oc.Monitor
use sec_oc.Monitor.Events.{
  RejectionReason, mac_mismatch, freshness_out_of_window, malformed_structure,
}
use sec_oc.Nvm.Values.{as_int}
use sec_oc.Pdu.{Parts, build_secured_pdu, parse_secured_pdu}
use sec_oc.Profile.{Transport, classic_can, can_fd, get_profile}
use Authenticator.{generate_mac, verify_mac}
use Objects.{Setup, Stack}

-- `reset`
pub reset : Stack → Stack
reset s = record s { monitor = Monitor.reset s.monitor }

-- `get_status`
pub get_status : Stack → EcuStateValue × Bool
get_status s = (s.monitor.ecu_state, s.monitor.locked_out)

abbrev classic_can_payload_bytes : ℕ
classic_can_payload_bytes = 4

-- The first test of `transmit_secured`, and the padding of a Classic CAN payload.
unfoldable pub fit_payload : Transport → Bytes → Outcome Bytes
fit_payload classic_can authentic_pdu =
    if ltb classic_can_payload_bytes (length authentic_pdu)
    then raised secoc_transport_error
    else ok (ljust classic_can_payload_bytes authentic_pdu)
fit_payload can_fd authentic_pdu = ok authentic_pdu

-- `_reject`
unfoldable pub reject : String → RejectionReason → Method Stack (Option Bytes)
reject pdu_id reason s = (
  record s { monitor = (record_failure pdu_id auth (log_rejection pdu_id reason s.monitor)).0 },
  ok none,
)

-- The end of `receive_secured`, for a MAC that matches or does not.
unfoldable pub accept : String → Bytes → Bytes → ℕ → Bool → Method Stack (Option Bytes)
unfolding reject
accept pdu_id secured_pdu authentic_pdu full_freshness false s = reject pdu_id mac_mismatch s
accept pdu_id secured_pdu authentic_pdu full_freshness true s = (
  record s {
    nvm = commit_freshness pdu_id full_freshness s.nvm;
    bus = publish pdu_id secured_pdu s.bus;
  },
  ok (some authentic_pdu),
)

module _ (env : Setup) where
  -- `transmit_secured`
  unfoldable pub transmit_secured : String → Bytes → Transport → Method Stack Bytes
  unfolding fit_payload
  transmit_secured pdu_id authentic_pdu transport s =
      and_then (s, get_profile pdu_id s.profiles)
        λ profile s1.
          and_then (s1, fit_payload transport authentic_pdu)
            λ payload s2.
              and_then (s2, as_int (load_last_valid_freshness pdu_id s2.nvm))
                λ last s3.
                  and_then (generate_mac env pdu_id payload (last + 1) transport s3)
                    λ mac s4. (s4, build_secured_pdu payload (last + 1) mac profile transport)

  -- The same, from the result of `validate_freshness` on.
  unfoldable pub check_mac :
      String → Bytes → Transport → Parts → Bool × ℕ → Method Stack (Option Bytes)
  unfolding reject accept
  check_mac pdu_id secured_pdu transport parts (false, v) s =
      reject pdu_id freshness_out_of_window s
  check_mac pdu_id secured_pdu transport parts (true, v) s =
      and_then (verify_mac env pdu_id parts.authentic_pdu v parts.mac transport s)
        λ matches s'. accept pdu_id secured_pdu parts.authentic_pdu v matches s'

  -- The same, from the result of `parse_secured_pdu` on; only a `ValueError` is caught.
  unfoldable pub check_parts :
      String → Bytes → Transport → Outcome Parts → Method Stack (Option Bytes)
  unfolding reject check_mac is_value_error
  check_parts pdu_id secured_pdu transport (raised e) s =
      if is_value_error e then reject pdu_id malformed_structure s else (s, raised e)
  check_parts pdu_id secured_pdu transport (ok parts) s =
      and_then (s, validate_freshness env.fm pdu_id parts.freshness_value s.nvm)
        λ validated s'. check_mac pdu_id secured_pdu transport parts validated s'

  -- `receive_secured`
  unfoldable pub receive_secured : String → Bytes → Transport → Method Stack (Option Bytes)
  unfolding check_parts
  receive_secured pdu_id secured_pdu transport s =
      and_then (s, get_profile pdu_id s.profiles)
        λ profile s'.
          check_parts pdu_id secured_pdu transport (parse_secured_pdu secured_pdu profile transport)
            s'
