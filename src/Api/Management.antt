-- ===== src/Api/Management.antt =====
-- api/routers/auth.py and api/routers/diagnostics.py: profiles, keys, the state of the ECU and its
-- events.
use sec_oc.Base.{ℕ, ◌+◌, String, Bool, Option, none, some, List, [], ◌∷◌, drop, length}
use sec_oc.Base.{
  Method, Outcome, Exception, ok, raised, and_then, key_error, secoc_config_error, http_exception,
}
use sec_oc.Base.Bytes.{Bytes, from_end}
use sec_oc.Base.Dict.{Dict, insert, get_or}
use sec_oc.Keys.{provision_key, rotate_key}
use sec_oc.Keys.Metadata.{KeyMetadata, get_key_metadata}
use sec_oc.Monitor.{log_event}
use sec_oc.Monitor.Events.{DemEvent, Severity, info, warning, critical}
use sec_oc.Profile
use sec_oc.Profile.{SecurityProfileEntry}
use sec_oc.Secoc.Objects.{Setup}
use sec_oc.Api.Sockets.{Status}
use sec_oc.Api.State.{AppState, on_keys, on_profiles, get_status, broadcast_updates}
use sec_oc.Api.State
use sec_oc.Api.Endpoints.{excepting}

-- `except SecOCConfigError`
unfoldable pub profile_status : Exception → Exception
profile_status secoc_config_error = http_exception 404
profile_status e = e

-- `except KeyError`
unfoldable pub key_status : Exception → Exception
key_status key_error = http_exception 404
key_status e = e

-- `list_profiles`
pub list_profiles : AppState → Dict SecurityProfileEntry
list_profiles a = a.stack.profiles

-- `get_profile`
unfoldable pub get_profile : String → Method AppState SecurityProfileEntry
unfolding profile_status
get_profile pdu_id a = excepting profile_status (a, Profile.get_profile pdu_id a.stack.profiles)

or_not_found : Option KeyMetadata → Outcome KeyMetadata
or_not_found none = raised (http_exception 404)
or_not_found (some metadata) = ok metadata

-- `get_key_metadata`
pub get_key : String → Method AppState KeyMetadata
unfolding or_not_found
get_key pdu_id a =
    and_then (a, get_key_metadata pdu_id a.stack.nvm) λ found a1. (a1, or_not_found found)

-- `get_ecu_state`
pub get_ecu_state : AppState → Status
get_ecu_state a = get_status a

-- `get_events`, for a limit that is not negative; `[-0:]` is the whole list.
unfoldable pub get_events : ℕ → AppState → List DemEvent
get_events limit a =
    let events = a.stack.monitor.dem.events in drop (from_end (length events) limit) events

severity_text : Severity → String
severity_text info = "INFO"
severity_text warning = "WARNING"
severity_text critical = "CRITICAL"

-- The loop of `get_telemetry`.
unfoldable pub count_severities : List DemEvent → Dict ℕ → Dict ℕ
unfolding severity_text
count_severities [] counts = counts
count_severities (e ∷ events) counts =
    let name = severity_text e.severity in
    count_severities events (insert name (get_or name 0 counts + 1) counts)

-- What `get_telemetry` returns, without the summary of the profiler.
pub record Telemetry : Type 0 where
  pub status : Status
  pub total_events : ℕ
  pub by_severity : Dict ℕ
  pub running : Bool
  pub queue_depth : ℕ
  pub last_frames : Dict Bytes

-- `get_telemetry`
unfoldable pub get_telemetry : AppState → Telemetry
unfolding count_severities
get_telemetry a = record {
  status = get_status a;
  total_events = length a.stack.monitor.dem.events;
  by_severity = count_severities a.stack.monitor.dem.events [];
  running = a.stack.bus.running;
  queue_depth = length a.stack.bus.queue;
  last_frames = a.stack.bus.last_frames;
}

module _ (env : Setup) (online : ℕ → ℕ → Bool) where
  -- `update_profile_version`
  unfoldable pub update_profile_version : String → String → Method AppState SecurityProfileEntry
  unfolding profile_status
  update_profile_version pdu_id profile_version a =
      and_then
        (excepting profile_status
          (on_profiles (Profile.update_profile_version pdu_id profile_version) a))
        λ _ a1.
          let a2 = broadcast_updates online a1 in (a2, Profile.get_profile pdu_id a2.stack.profiles)

  -- `provision_key`
  unfoldable pub provision : String → String → Method AppState KeyMetadata
  provision pdu_id key_id a =
      and_then (on_keys (provision_key env.lib pdu_id key_id) a)
        λ metadata a1. (broadcast_updates online a1, ok metadata)

  -- `rotate_key`
  unfoldable pub rotate : String → String → Method AppState KeyMetadata
  unfolding key_status
  rotate pdu_id new_key_id a =
      and_then (excepting key_status (on_keys (rotate_key env.lib pdu_id new_key_id) a))
        λ metadata a1. (
          broadcast_updates online (record a1 {
            stack = record a1.stack {
              monitor = log_event info "KEY_ROTATED" "SR-17" a1.stack.monitor;
            };
          }),
          ok metadata,
        )

  -- `reset_ecu`
  unfoldable pub reset_ecu : AppState → AppState × Status
  reset_ecu a = let a1 = broadcast_updates online (State.reset_ecu a) in (a1, get_status a1)
