-- ===== src/Monitor/Growth.antt =====
-- The event memory of a node only grows: what the methods of the monitor add to it.
use sec_oc.Base.{
  ℕ, ◌+◌, ◌≡◌, refl, sym, ap, ◌∙◌, String, Bool, true, false, List, [], ◌++◌, append_assoc,
  append-nil, leb, if◌then◌else◌,
}
use sec_oc.Base.Dict.{insert}
use sec_oc.Monitor.{
  EcuStateValue, Monitor, record_failure, auth, log_rejection, log_event, evaluate, transition,
  evaluate_category, get_failure_count,
}
use sec_oc.Monitor.Events.{DemEvent, RejectionReason, Severity, log}

-- The events of the second monitor are those of the first, and then more.
pub record Extends (m m' : Monitor) : Type 0 where
  pub more : List DemEvent
  pub grown : m'.dem.events ≡ m.dem.events ++ more

pub Extends-same : {m m' : Monitor} → m'.dem.events ≡ m.dem.events → Extends m m'
Extends-same {m} same = record { more = []; grown = same ∙ sym (append-nil m.dem.events) }

pub Extends-trans : {l m n : Monitor} → Extends l m → Extends m n → Extends l n
Extends-trans {l} first second = record {
  more = first.more ++ second.more;
  grown =
      second.grown
      ∙ ap (λ zs. zs ++ second.more) first.grown
      ∙ append_assoc l.dem.events first.more second.more;
}

pub log_event-Extends :
    (severity : Severity) (event swr : String) (m : Monitor)
    → Extends m (log_event severity event swr m)
unfolding log_event log
log_event-Extends severity event swr m = record { more = _; grown = refl }

if-Extends :
    (b : Bool) {l m n : Monitor} → Extends l m → Extends l n → Extends l (if b then m else n)
if-Extends true first second = first
if-Extends false first second = second

evaluate-Extends : (count : ℕ) (m : Monitor) → Extends m (evaluate count m)
unfolding evaluate transition log_event log
evaluate-Extends count m =
    if-Extends m.locked_out (Extends-same refl)
      (if-Extends (leb 5 count) (record { more = _; grown = refl }) (Extends-same refl))

log_rejection-Extends :
    (p : String) (reason : RejectionReason) (m : Monitor) → Extends m (log_rejection p reason m)
unfolding log_rejection log
log_rejection-Extends p reason m = record { more = _; grown = refl }

record_failure-Extends : (p : String) (m : Monitor) → Extends m (record_failure p auth m).0
unfolding record_failure evaluate_category
record_failure-Extends p m =
    let counted = record m { counts = insert p (get_failure_count p m + 1) m.counts } in
    Extends-trans {m = counted} (Extends-same refl)
      (evaluate-Extends (get_failure_count p m + 1) counted)

pub reject-Extends :
    (p : String) (reason : RejectionReason) (m : Monitor)
    → Extends m (record_failure p auth (log_rejection p reason m)).0
reject-Extends p reason m =
    Extends-trans (log_rejection-Extends p reason m)
      (record_failure-Extends p (log_rejection p reason m))

-- A transition and a clearing of the failures, as in `AppState.reset_ecu`.
pub cleared-Extends :
    (state : EcuStateValue) (m : Monitor)
    → Extends m (record (transition state m) { locked_out = false; counts = [] })
unfolding transition
cleared-Extends state m = Extends-same refl

-- An event that is logged touches nothing but the event memory.
pub log_event_others :
    (severity : Severity) (event swr : String) (m : Monitor)
    → ((log_event severity event swr m).locked_out ≡ m.locked_out)
      × ((log_event severity event swr m).counts ≡ m.counts)
      × ((log_event severity event swr m).ecu_state ≡ m.ecu_state)
unfolding log_event
log_event_others severity event swr m = (refl, refl, refl)

pub transition_others :
    (state : EcuStateValue) (m : Monitor) → (transition state m).ecu_state ≡ state
unfolding transition
transition_others state m = refl
