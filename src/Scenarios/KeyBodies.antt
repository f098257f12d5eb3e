-- ===== src/Scenarios/KeyBodies.antt =====
-- The scenarios of sim/scenario_runner.py on keys and on the boot check, with the cryptographic
-- packages as a parameter; and the table of the scenarios.
use sec_oc.Base.{
  ◌||◌, String, Bool, true, false, not, ◌&&◌, Option, none, some, List, [], ◌∷◌, str_eq,
}
use sec_oc.Base.{Outcome, ok, raised, type_error, index_error}
use sec_oc.Base.Bytes.{Bytes, bytes_eq}
use sec_oc.Base.Dict.{Dict, lookup}
use sec_oc.Crypto.Cryif
use sec_oc.Crypto.Hsm.{Key, symmetric}
use sec_oc.Crypto.Library.{Library}
use sec_oc.Keys.{Keyring, resolve_key, provision_key, rotate_key}
use sec_oc.Monitor.{Monitor, normal_operation}
use sec_oc.Monitor.Events.{DemEvent, critical, get_events_by_severity}
use sec_oc.Boot.{compute_hash, verify_boot_integrity}
use sec_oc.Keys.Metadata.{KeyMetadata, get_key_metadata}
use sec_oc.Nvm.{Nvm, write}
use sec_oc.Nvm.Values.{blob}
use sec_oc.Attack.{flip}
use sec_oc.Bus.{new_bus}
use sec_oc.Crypto.Csm
use sec_oc.Crypto.Csm.{Csm, idle, new_csm}
use sec_oc.Vectors.{get_vector, list_vector_names, expected_truncated_mac}
use sec_oc.Secoc.Authenticator.{generate_mac, verify_mac}
use sec_oc.Secoc.Objects.{Setup, Stack}
use sec_oc.Profile.{SecurityProfile, can_fd, get_profile, update_profile_version, is_in}
use sec_oc.Scenarios.{Scenario}
use sec_oc.Scenarios.Script.{Script, done, note, check, call}
use sec_oc.Scenarios.Bodies.{
  new_nvm, new_profile_provider, manager, scenario_04, scenario_05, scenario_10, scenario_11,
  scenario_15, scenario_18,
}

abbrev pub new_keyring : Keyring
new_keyring = record {
  nvm = new_nvm;
  hsm = record { key_store = []; fail_mode = false; draws = 0 };
}

-- `vars(metadata).keys()`
metadata_fields : Option KeyMetadata → Outcome (List String)
metadata_fields none = raised type_error
metadata_fields (some metadata) = ok ("pdu_id" ∷ "key_id" ∷ "version" ∷ "lifecycle_state" ∷ [])

-- `isdisjoint`
unfoldable pub is_disjoint : List String → List String → Bool
is_disjoint [] names = true
is_disjoint (s ∷ ss) names = not (is_in s names) && is_disjoint ss names

abbrev pub forbidden_fields : List String
forbidden_fields = "key_bytes" ∷ "raw_key" ∷ "secret" ∷ "key_material" ∷ "private_key" ∷ []

-- `_scenario_08`
unfoldable pub scenario_08 : Library → Script
unfolding metadata_fields
scenario_08 lib =
    let key_id : String = "secoc_mac_key_PDU_0x100" in
    note "provision key and resolve via logical key_id" (
      call (provision_key lib "PDU_0x100" key_id new_keyring) λ _ k.
        call (k, resolve_key "PDU_0x100" k.nvm)
          λ resolved k. check (str_eq resolved key_id) (
            note "verify metadata never carries raw key bytes" (
              call (k, get_key_metadata "PDU_0x100" k.nvm)
                λ metadata k.
                  call (k, metadata_fields metadata)
                    λ fields _. check (is_disjoint forbidden_fields fields) done)))

abbrev pub new_monitor : Monitor
new_monitor = record {
  dem = record { events = []; counter = 0 };
  ecu_state = normal_operation;
  locked_out = false;
  counts = [];
}

-- The objects of `_scenario_06`, with the key put into the key store.
abbrev pub vector_csm : Bytes → Csm
vector_csm key = record {
  hsm = record {
    key_store = ("rfc4231_test_key", symmetric key) ∷ [];
    fail_mode = false;
    draws = 0;
  };
  state = idle;
  hash_contexts = [];
}

-- `_scenario_06`
unfoldable pub scenario_06 : Library → Script
scenario_06 lib = note "compute HMAC-SHA256 over RFC 4231 test vector" (
    check (is_in "rfc4231_case_2" list_vector_names) (
      call (tt, get_vector "rfc4231_case_2")
        λ vector _.
          call (Csm.generate_mac lib "rfc4231_test_key" vector.message (vector_csm vector.key))
            λ mac _. check (bytes_eq mac (expected_truncated_mac vector)) done))

-- `corrupted[0] ^= 0xFF`
unfoldable pub corrupt : Bytes → Outcome Bytes
corrupt [] = raised index_error
corrupt (byte ∷ bytes) = ok (flip 255 byte ∷ bytes)

-- The authenticator of `_scenario_07`: it has a key manager, no profiler and no event logger.
abbrev pub mac_setup : Library → Setup
mac_setup lib = record {
  lib = lib;
  fm = manager;
  has_key_manager = true;
  has_event_logger = false;
  elapsed_us = λ seq. 0;
}

-- The objects that it works on.
abbrev pub mac_stack : SecurityProfile → Keyring → Stack
mac_stack sp k = record {
  profiles = sp.profiles;
  nvm = k.nvm;
  csm = new_csm k.hsm;
  op_seq = 0;
  monitor = new_monitor;
  bus = new_bus;
}

abbrev pub mac_payload : Bytes
mac_payload = 1 ∷ 2 ∷ 3 ∷ 4 ∷ 5 ∷ 6 ∷ 7 ∷ 8 ∷ []

-- `_scenario_07`
unfoldable pub scenario_07 : Library → Script
unfolding corrupt
scenario_07 lib = call (provision_key lib "PDU_0x100" "secoc_mac_key_PDU_0x100" new_keyring) λ _ k.
    call (new_profile_provider "PDU_0x100") λ _ sp. note "generate a valid MAC" (
      call (generate_mac (mac_setup lib) "PDU_0x100" mac_payload 1 can_fd (mac_stack sp k))
        λ valid_mac s. note "corrupt one byte and verify rejection" (
          call (s, corrupt valid_mac)
            λ corrupted s.
              call (verify_mac (mac_setup lib) "PDU_0x100" mac_payload 1 corrupted can_fd s)
                λ matches s. check (not matches) (
                  note "verify uncorrupted MAC still verifies" (
                    call (verify_mac (mac_setup lib) "PDU_0x100" mac_payload 1 valid_mac can_fd s)
                      λ matches _. check matches done))))

-- The characters of `protected-region-bytes`.
abbrev pub protected_region : Bytes
protected_region =
    112 ∷ 114 ∷ 111 ∷ 116 ∷ 101 ∷ 99 ∷ 116 ∷ 101 ∷ 100 ∷ 45 ∷ 114 ∷ 101 ∷ 103 ∷ 105 ∷ 111 ∷ 110 ∷ 45
    ∷ 98 ∷ 121 ∷ 116 ∷ 101 ∷ 115 ∷ []

-- `resolved_key_id in hsm._key_store`
unfoldable pub is_stored : Option Key → Bool
is_stored none = false
is_stored (some key) = true

-- `_scenario_09`; that an identifier is a text and a MAC bytes is part of their types.
unfoldable pub scenario_09 : Library → Script
unfolding is_stored
scenario_09 lib = note "provision and resolve key via secure API only" (
    call (provision_key lib "PDU_BRAKE_TORQUE" "secoc_mac_key_PDU_BRAKE_TORQUE" new_keyring) λ _ k.
      call (k, resolve_key "PDU_BRAKE_TORQUE" k.nvm)
        λ resolved_key_id k. note "perform crypto ops only via CryIf, key bytes stay in HSM" (
          call (Cryif.hmac_sha256 lib resolved_key_id protected_region k.hsm)
            λ mac h. check (is_stored (lookup resolved_key_id h.key_store)) done))

-- `_scenario_17`
unfoldable pub scenario_17 : Library → Script
scenario_17 lib = call (new_profile_provider "PDU_BRAKE_TORQUE") λ _ sp.
    note "provision v1 key, rotate to v2, update profile version" (
      call (provision_key lib "PDU_BRAKE_TORQUE" "secoc_mac_key_PDU_BRAKE_TORQUE" new_keyring)
        λ _ k. call (rotate_key lib "PDU_BRAKE_TORQUE" "secoc_mac_key_PDU_BRAKE_TORQUE_v2" k) λ _ k.
          call (update_profile_version "PDU_BRAKE_TORQUE" "v2" sp) λ _ sp.
            call (sp, get_profile "PDU_BRAKE_TORQUE" sp.profiles)
              λ entry _.
                call (k, resolve_key "PDU_BRAKE_TORQUE" k.nvm)
                  λ active_key_id _.
                    check (str_eq entry.profile_version "v2")
                      (check (str_eq active_key_id "secoc_mac_key_PDU_BRAKE_TORQUE_v2") done))

-- The characters of `_CURRENT_SNAPSHOT` of sim/secure_boot.py, which the scenario repeats.
abbrev pub firmware_snapshot : Bytes
firmware_snapshot =
    83 ∷ 69 ∷ 67 ∷ 79 ∷ 67 ∷ 95 ∷ 70 ∷ 73 ∷ 82 ∷ 77 ∷ 87 ∷ 65 ∷ 82 ∷ 69 ∷ 95 ∷ 83 ∷ 78 ∷ 65 ∷ 80
    ∷ 83 ∷ 72 ∷ 79 ∷ 84 ∷ 95 ∷ 86 ∷ 49 ∷ 58 ∷ 58 ∷ 99 ∷ 111 ∷ 100 ∷ 101 ∷ 43 ∷ 99 ∷ 111 ∷ 110 ∷ 102
    ∷ 105 ∷ 103 ∷ 43 ∷ 107 ∷ 101 ∷ 121 ∷ 109 ∷ 101 ∷ 116 ∷ 97 ∷ []

-- The characters of `TAMPERED_GOLDEN_VALUE`.
abbrev pub tampered_value : Bytes
tampered_value =
    84 ∷ 65 ∷ 77 ∷ 80 ∷ 69 ∷ 82 ∷ 69 ∷ 68 ∷ 95 ∷ 71 ∷ 79 ∷ 76 ∷ 68 ∷ 69 ∷ 78 ∷ 95 ∷ 86 ∷ 65 ∷ 76
    ∷ 85 ∷ 69 ∷ []

-- The memory with the same golden hash under the three keys.
abbrev pub golden_nvm : Bytes → Nvm
golden_nvm golden_hash = write "boot_golden_hash_keys" (blob golden_hash) (
    write "boot_golden_hash_config" (blob golden_hash)
      (write "boot_golden_hash_code" (blob golden_hash) new_nvm))

-- `any(e.event_id == "BOOT_INTEGRITY_FAIL" for e in critical_events)`
unfoldable pub any_boot_failure : List DemEvent → Bool
any_boot_failure [] = false
any_boot_failure (e ∷ events) = str_eq e.event_id "BOOT_INTEGRITY_FAIL" || any_boot_failure events

-- `_scenario_19`
unfoldable pub scenario_19 : Library → Script
unfolding any_boot_failure
scenario_19 lib = note "provision golden hashes and verify unmodified boot passes" (
    call (compute_hash lib firmware_snapshot firmware_snapshot new_keyring.hsm) λ golden_hash h.
      call
        (verify_boot_integrity lib firmware_snapshot (record {
          nvm = golden_nvm golden_hash;
          hsm = h;
          monitor = new_monitor;
          boot_integrity_ok = none;
          failed_component = none;
        }))
        λ intact b. check intact (
          note "tamper golden hash and verify boot is blocked + CRITICAL DEM event" (
            call (compute_hash lib firmware_snapshot tampered_value b.hsm) λ tampered_golden h.
              call
                (verify_boot_integrity lib firmware_snapshot (record b {
                  nvm = write "boot_golden_hash_code" (blob tampered_golden) b.nvm;
                  hsm = h;
                }))
                λ intact b.
                  check (not intact) (
                    check (any_boot_failure (get_events_by_severity critical b.monitor.dem))
                      done))))

-- A scenario that works on objects of its own leaves the shared ones alone.
abbrev pub standalone : {F : Type 0} → Script → Scenario F
standalone (steps, ended) r = (r, steps, ended)

-- The entries of `_SCENARIOS` that are modelled.
unfoldable pub scenarios : {F : Type 0} → Library → Dict (Scenario F)
scenarios lib =
    ("VTC-SR-04", standalone scenario_04)
    ∷ ("VTC-SR-05", standalone scenario_05)
    ∷ ("VTC-SR-06", standalone (scenario_06 lib))
    ∷ ("VTC-SR-07", standalone (scenario_07 lib))
    ∷ ("VTC-SR-08", standalone (scenario_08 lib))
    ∷ ("VTC-SR-09", standalone (scenario_09 lib))
    ∷ ("VTC-SR-10", standalone scenario_10)
    ∷ ("VTC-SR-11", standalone scenario_11)
    ∷ ("VTC-SR-15", standalone scenario_15)
    ∷ ("VTC-SR-17", standalone (scenario_17 lib))
    ∷ ("VTC-SR-18", standalone scenario_18)
    ∷ ("VTC-SR-19", standalone (scenario_19 lib))
    ∷ []
