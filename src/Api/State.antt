-- ===== src/Api/State.antt =====
-- api/state.py and api/events.py: the one stack of the application, its start, and what is told to
-- the clients after a request.
use sec_oc.Base.{
  ℕ, String, Bool, true, false, Option, none, List, [], ◌∷◌, drop, length, if◌then◌else◌,
}
use sec_oc.Base.{Method, Outcome, ok, raised, key_error, and_then, within}
use sec_oc.Base.Bytes.{Bytes}
use sec_oc.Base.Dict.{Dict}
use sec_oc.Attack.{ReplayAttack}
use sec_oc.Boot
use sec_oc.Boot.{SecureBoot, verify_boot_integrity}
use sec_oc.Bus.{new_bus, start}
use sec_oc.Crypto.Csm.{new_csm}
use sec_oc.Crypto.Hsm.{new_hsm}
use sec_oc.Keys.{Keyring, resolve_key, provision_key}
use sec_oc.Monitor.{Monitor, normal_operation, transition, log_event}
use sec_oc.Monitor.Events.{DemEvent, new_dem, info}
use sec_oc.Nvm.{Nvm, read, write}
use sec_oc.Nvm.Values.{Value, null, blob}
use sec_oc.Profile.{SecurityProfileEntry, SecurityProfile}
use sec_oc.Secoc.Objects.{Setup, Stack}
use sec_oc.Api.Sockets.{
  Status, ecu_state, ConnectionManager, new_manager, broadcast, broadcast_each,
}

-- `AppState`: the stack, the fields of the objects that only it has, and the clients.
pub record AppState : Type 0 where
  pub stack : Stack
  pub config_file : Dict (Dict Value)
  pub replay_attack : ReplayAttack
  pub boot_integrity_ok : Option Bool
  pub failed_component : Option String
  pub broadcast_index : ℕ
  pub manager : ConnectionManager

-- A call on the node, on its keys, on its profiles.
abbrev pub on_stack : {A : Type 0} → Method Stack A → Method AppState A
on_stack call a = within (λ s. record a { stack = s }) (call a.stack)

abbrev keyring : Stack → Keyring
keyring s = record { nvm = s.nvm; hsm = s.csm.hsm }

abbrev with_keyring : Stack → Keyring → Stack
with_keyring s k = record s { nvm = k.nvm; csm = record s.csm { hsm = k.hsm } }

abbrev pub on_keys : {A : Type 0} → Method Keyring A → Method AppState A
on_keys call a = within (λ k. record a { stack = with_keyring a.stack k }) (call (keyring a.stack))

abbrev pub on_profiles : {A : Type 0} → Method SecurityProfile A → Method AppState A
on_profiles call a =
    within
      (λ sp. record a {
        stack = record a.stack { profiles = sp.profiles };
        config_file = sp.config_file;
      })
      (call (record { profiles = a.stack.profiles; config_file = a.config_file }))

abbrev pub on_boot : {A : Type 0} → Method SecureBoot A → Method AppState A
on_boot call a =
    within
      (λ b. record a {
        stack = record a.stack {
          nvm = b.nvm;
          csm = record a.stack.csm { hsm = b.hsm };
          monitor = b.monitor;
        };
        boot_integrity_ok = b.boot_integrity_ok;
        failed_component = b.failed_component;
      })
      (call (record {
        nvm = a.stack.nvm;
        hsm = a.stack.csm.hsm;
        monitor = a.stack.monitor;
        boot_integrity_ok = a.boot_integrity_ok;
        failed_component = a.failed_component;
      }))

-- The monitor of a new stack.
abbrev pub new_monitor : Monitor
new_monitor = record {
  dem = new_dem;
  ecu_state = normal_operation;
  locked_out = false;
  counts = [];
}

-- The statements of `AppState.__init__` that build the objects, for the memory and the profiles
-- that it finds on disk. The bus is the one of the process, and it is started.
unfoldable pub new_state : Nvm → SecurityProfile → AppState
new_state nvm sp = record {
  stack = record {
    profiles = sp.profiles;
    nvm = nvm;
    csm = new_csm new_hsm;
    op_seq = 0;
    monitor = new_monitor;
    bus = start new_bus;
  };
  config_file = sp.config_file;
  replay_attack = record { captured = [] };
  boot_integrity_ok = none;
  failed_component = none;
  broadcast_index = 0;
  manager = new_manager;
}

-- `except KeyError: self.key_manager.provision_key(pdu_id, profile.key_id)`
unfoldable pub or_provision :
    Setup → String → SecurityProfileEntry → Outcome String → Method AppState (Unit {0})
or_provision env pdu_id profile (ok key_id) a = (a, ok tt)
or_provision env pdu_id profile (raised key_error) a =
    and_then (on_keys (provision_key env.lib pdu_id profile.key_id) a) λ metadata a'. (a', ok tt)
or_provision env pdu_id profile (raised e) a = (a, raised e)

-- The loop of `_provision_keys`.
unfoldable pub provision_each : Setup → Dict SecurityProfileEntry → Method AppState (Unit {0})
unfolding or_provision
provision_each env [] a = (a, ok tt)
provision_each env ((pdu_id, profile) ∷ profiles) a =
    and_then (or_provision env pdu_id profile (resolve_key pdu_id a.stack.nvm) a)
      λ _ a'. provision_each env profiles a'

-- `_provision_keys`
unfoldable pub provision_keys : Setup → Method AppState (Unit {0})
unfolding provision_each
provision_keys env a = provision_each env a.stack.profiles a

unfoldable pub is_none : Value → Bool
is_none null = true
is_none _ = false

-- The loop of `_provision_boot_golden_hashes`: a value that is missing or None is written.
unfoldable pub write_golden : Bytes → List String → Nvm → Nvm
unfolding is_none
write_golden golden_hash [] nvm = nvm
write_golden golden_hash (nvm_key ∷ keys) nvm =
    write_golden golden_hash keys
      (if is_none (read nvm_key null nvm) then write nvm_key (blob golden_hash) nvm else nvm)

abbrev pub boot_keys : List String
boot_keys = "boot_golden_hash_code" ∷ "boot_golden_hash_config" ∷ "boot_golden_hash_keys" ∷ []

-- `_provision_boot_golden_hashes`; `snapshot` is `_CURRENT_SNAPSHOT`.
unfoldable pub provision_boot_golden_hashes : Setup → Bytes → Method AppState (Unit {0})
unfolding write_golden
provision_boot_golden_hashes env snapshot a =
    and_then
      (on_boot
        (λ b.
          within (λ h. record b { hsm = h }) (Boot.compute_hash env.lib snapshot snapshot b.hsm))
        a)
      λ golden_hash a'. (
        record a' {
          stack = record a'.stack { nvm = write_golden golden_hash boot_keys a'.stack.nvm };
        },
        ok tt,
      )

-- The statements of `AppState.__init__` after the objects are built.
unfoldable pub start_up : Setup → Bytes → Method AppState Bool
unfolding provision_keys provision_boot_golden_hashes
start_up env snapshot a = and_then (provision_keys env a) λ _ a1.
    and_then (provision_boot_golden_hashes env snapshot a1)
      λ _ a2. on_boot (verify_boot_integrity env.lib snapshot) a2

-- `reset_ecu`
unfoldable pub reset_ecu : AppState → AppState
reset_ecu a =
    let m = transition normal_operation a.stack.monitor in
    record a {
      stack = record a.stack {
        monitor =
            log_event info "ECU_RESET" "SecOC-RESET" (record m { locked_out = false; counts = [] });
      };
    }

-- `get_status`
unfoldable pub get_status : AppState → Status
get_status a = record {
  ecu_state = a.stack.monitor.ecu_state;
  locked_out = a.stack.monitor.locked_out;
  boot_integrity_ok = a.boot_integrity_ok;
  failed_component = a.failed_component;
}

-- `new_dem_events`
unfoldable pub new_dem_events : AppState → AppState × List DemEvent
new_dem_events a =
    let events = a.stack.monitor.dem.events in
    (record a { broadcast_index = length events }, drop a.broadcast_index events)

-- `broadcast_updates`
unfoldable pub broadcast_updates : (ℕ → ℕ → Bool) → AppState → AppState
unfolding new_dem_events get_status
broadcast_updates online a =
    let (a', events) = new_dem_events a in
    record a' {
      manager =
          broadcast online (ecu_state (get_status a')) (broadcast_each online events a'.manager);
    }
