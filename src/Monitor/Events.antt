-- ===== src/Monitor/Events.antt =====
-- The event memory of sim/dem.py and the table of sim/security_events.py.
use sec_oc.Base.{ℕ, ◌+◌, String, Bool, true, false, List, [], ◌∷◌, ◌++◌, if◌then◌else◌}
use mathlib.Core.Option.{Option, none, some}

pub data Severity : Type 0 where
  info warning critical : Severity

-- `DemEvent`, without its timestamp.
pub record DemEvent : Type 0 where
  pub event_id : String
  pub severity : Severity
  pub description : String
  pub swr_ref : String
  pub details : List (String × String)

pub record Dem : Type 0 where
  pub events : List DemEvent
  pub counter : ℕ

-- `DEM.__init__`
pub new_dem : Dem
new_dem = record { events = []; counter = 0 }

-- `DEM.log`
unfoldable pub log : String → Severity → String → String → List (String × String) → Dem → Dem
log event_id severity description swr_ref details d = record {
  counter = d.counter + 1;
  events =
      d.events
      ++ record {
        event_id = event_id;
        severity = severity;
        description = description;
        swr_ref = swr_ref;
        details = details;
      }
        ∷ [];
}

same_severity : Severity → Severity → Bool
same_severity info info = true
same_severity warning warning = true
same_severity critical critical = true
same_severity _ _ = false

select : Severity → List DemEvent → List DemEvent
unfolding same_severity
select severity [] = []
select severity (e ∷ events) =
    let rest = select severity events in
    if same_severity e.severity severity then e ∷ rest else rest

-- `DEM.get_events_by_severity`
unfoldable pub get_events_by_severity : Severity → Dem → List DemEvent
unfolding select
get_events_by_severity severity d = select severity d.events

-- `DEM.clear`
pub clear : Dem → Dem
clear d = record { events = []; counter = 0 }

-- `RejectionReason`
pub data RejectionReason : Type 0 where
  mac_mismatch freshness_out_of_window malformed_structure : RejectionReason

-- `reason.value`
pub reason_text : RejectionReason → String
reason_text mac_mismatch = "MAC_MISMATCH"
reason_text freshness_out_of_window = "FRESHNESS_OUT_OF_WINDOW"
reason_text malformed_structure = "MALFORMED_STRUCTURE"

-- `_CLASSIFICATION_TABLE`
classification_table : RejectionReason → Option (Severity × String)
classification_table mac_mismatch = some (critical, "SECOC_AUTH_FAIL")
classification_table freshness_out_of_window = some (critical, "SECOC_AUTH_FAIL")
classification_table malformed_structure = some (critical, "SECOC_AUTH_FAIL")

-- `classify`
unfoldable pub classify : RejectionReason → Severity × String
unfolding classification_table
classify reason = elim (classification_table reason) [
  | none ↦ (warning, "SECOC_UNKNOWN_REJECTION")
  | some entry ↦ entry
]
