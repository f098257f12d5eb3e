-- ===== src/Monitor.antt =====
-- How failures are recorded and answered: sim/dem.py (its class DEM), sim/security_events.py,
-- sim/event_logger.py, sim/ecu_state.py, sim/security_policy_engine.py and sim/fault_manager.py.
-- The objects share the event memory and the ECU state, so they are the parts of one state.
-- Timestamps of events are left out.
pub mod Events
pub mod Lockout
pub mod Growth
use Prim.Native.String.{◌++◌}
use sec_oc.Base.{ℕ, ◌+◌, String, Bool, true, false, List, leb, if◌then◌else◌}
use sec_oc.Base.Dict.{Dict, get_or, insert}
use sec_oc.Config.{max_auth_failures}
use Events.{Dem, Severity, critical, info, RejectionReason, classify, log, reason_text}
use mathlib.Core.List

-- `EcuStateValue`
pub data EcuStateValue : Type 0 where
  normal_operation security_violation_lockout boot_blocked : EcuStateValue

-- `locked_out` belongs to the policy engine, `counts` to the fault manager.
pub record Monitor : Type 0 where
  pub dem : Dem
  pub ecu_state : EcuStateValue
  pub locked_out : Bool
  pub counts : Dict ℕ

-- `EcuState.transition`
pub transition : EcuStateValue → Monitor → Monitor
transition new_state m = record m { ecu_state = new_state }

-- `EventLogger.log`: the description is the event's own name.
unfoldable pub log_event : Severity → String → String → Monitor → Monitor
log_event severity event_id swr_ref m = record m {
  dem = log event_id severity event_id swr_ref List.[] m.dem;
}

-- `EventLogger.log_rejection`; both of its branches classify by the one table.
pub log_rejection : String → RejectionReason → Monitor → Monitor
log_rejection pdu_id reason m =
    let (severity, event_id) = classify reason in
    record m {
      dem =
          log event_id severity ("Rejected pdu_id=" ++ (pdu_id ++ (": " ++ reason_text reason))) ""
            (List.◌∷◌ ("pdu_id", pdu_id) List.[]) m.dem;
    }

-- `SecurityPolicyEngine.evaluate`
pub evaluate : ℕ → Monitor → Monitor
unfolding transition log_event
evaluate failure_count m =
    if m.locked_out
    then m
    else if leb max_auth_failures failure_count
    then log_event critical "SAFE_STATE_ENTERED" "SR-14"
        (transition security_violation_lockout (record m { locked_out = true }))
    else m

-- `SecurityPolicyEngine.reset`: the counts of the fault manager stay.
pub reset : Monitor → Monitor
unfolding transition
reset m = transition normal_operation (record m { locked_out = false })

-- `FailureCategory`
pub data FailureCategory : Type 0 where
  auth freshness crypto : FailureCategory

-- `FaultManager.get_failure_count`
unfoldable pub get_failure_count : String → Monitor → ℕ
get_failure_count pdu_id m = get_or pdu_id 0 m.counts

evaluate_category : FailureCategory → ℕ → Monitor → Monitor
evaluate_category auth count m = evaluate count m
evaluate_category freshness count m = m
evaluate_category crypto count m = m

-- `FaultManager.record_failure`
pub record_failure : String → FailureCategory → Monitor → Monitor × ℕ
unfolding get_failure_count evaluate_category
record_failure pdu_id category m =
    let count = get_failure_count pdu_id m + 1 in
    (evaluate_category category count (record m { counts = insert pdu_id count m.counts }), count)
