-- ===== src/Scenarios/Bodies.antt =====
-- The scenarios of sim/scenario_runner.py on the memory, the profiles, the layout of PDUs and the
-- scheduler. Each builds objects of its own.
use sec_oc.Base.{
  ℕ, zero, suc, ◌+◌, ◌*◌, String, Bool, true, false, not, ◌&&◌, none, List, [], ◌∷◌, drop, length,
  replicate, leb, ◌==◌, str_eq, if◌then◌else◌,
}
use sec_oc.Base.{Outcome}
use sec_oc.Base.Bytes.{bytes_eq, from_end}
use sec_oc.Base.Dict.{Dict, insert}
use sec_oc.Config.{max_bus_messages_per_window}
use sec_oc.Freshness.{
  FreshnessManager, load_last_valid_freshness, validate_freshness, commit_freshness,
  reinitialize_window,
}
use sec_oc.Nvm.{Nvm}
use sec_oc.Nvm.Values.{Value, integer, text}
use sec_oc.Pdu.{build_secured_pdu}
use sec_oc.Profile.{SecurityProfile, can_fd, get_profile, reload, is_in}
use sec_oc.Profile.Defaults.{default_entry}
use sec_oc.Schedule.{BusScheduler, new_scheduler, schedule_periodic, start, tick}
use sec_oc.Scenarios.{list_scenarios}
use sec_oc.Scenarios.Script.{Script, done, note, check, call}

-- `_new_nvm`
abbrev pub new_nvm : Nvm
new_nvm = record { store = []; file = none }

-- `_new_profile_provider`: the file, and then `SecurityProfile.__init__` on it.
abbrev pub new_profile_file : String → Dict (Dict Value)
new_profile_file pdu_id = (pdu_id, default_entry pdu_id "HMAC-SHA256") ∷ []

unfoldable pub new_profile_provider : String → SecurityProfile × Outcome (Unit {0})
new_profile_provider pdu_id =
    reload (record { profiles = []; config_file = new_profile_file pdu_id })

abbrev pub manager : FreshnessManager
manager = record { window_size = 16; freshness_length = 2 }

abbrev is_integer : ℕ → Value → Bool
is_integer n (integer m) = m == n
is_integer n _ = false

-- `_scenario_04`
unfoldable pub scenario_04 : Script
scenario_04 =
    let nvm = commit_freshness "PDU_BRAKE_TORQUE" 10 new_nvm in
    note "commit a baseline freshness value" (
      note "verify out-of-window value is rejected" (
        call (nvm, validate_freshness manager "PDU_BRAKE_TORQUE" (10 + 16 + 1) nvm)
          λ (accepted, full_value) _. check (not accepted) (check (full_value == 0) done)))

-- `_scenario_05`
unfoldable pub scenario_05 : Script
scenario_05 =
    let nvm = commit_freshness "PDU_0x100" 100 new_nvm in
    let resynced = reinitialize_window "PDU_0x100" 500 nvm in
    note "commit a freshness value, simulate reset with new instance" (
      check (is_integer 100 (load_last_valid_freshness "PDU_0x100" nvm)) (
        note "resync window and verify post-resync acceptance" (
          call (resynced, validate_freshness manager "PDU_0x100" 501 resynced)
            λ (accepted, full_value) _. check accepted (check (full_value == 501) done))))

-- `_scenario_10`
unfoldable pub scenario_10 : Script
scenario_10 = call (new_profile_provider "PDU_BRAKE_TORQUE") λ _ sp.
    note "verify initial algorithm" (
      call (sp, get_profile "PDU_BRAKE_TORQUE" sp.profiles)
        λ entry sp. check (str_eq entry.algorithm "HMAC-SHA256") (
          note "switch algorithm in config and reload" (
            call
              (reload (record sp {
                config_file =
                    insert "PDU_BRAKE_TORQUE"
                      (insert "algorithm" (text "HMAC-SHA512")
                        (default_entry "PDU_BRAKE_TORQUE" "HMAC-SHA256"))
                      sp.config_file;
              }))
              λ _ sp.
                call (sp, get_profile "PDU_BRAKE_TORQUE" sp.profiles)
                  λ entry _. check (str_eq entry.algorithm "HMAC-SHA512") done)))

-- `_scenario_11`
unfoldable pub scenario_11 : Script
scenario_11 = call (new_profile_provider "PDU_BRAKE_TORQUE") λ _ sp.
    call (sp, get_profile "PDU_BRAKE_TORQUE" sp.profiles)
      λ profile sp.
        let authentic_pdu = 1 ∷ 2 ∷ 3 ∷ 4 ∷ [] in
        let mac = replicate profile.authenticator_length 170 in
        note "build secured PDU and verify protected-region layout" (
          call (sp, build_secured_pdu authentic_pdu 255 mac profile can_fd)
            λ secured_pdu _.
              check
                (length secured_pdu
                  == length authentic_pdu
                    + (profile.freshness_length + profile.authenticator_length))
                (check
                  (bytes_eq
                    (drop (from_end (length secured_pdu) profile.authenticator_length) secured_pdu)
                    mac)
                  done))

-- `for tick in range(1, 11): scheduler.tick(tick * 10)`, from the turn `n` on, with `left` turns
-- left: how often a callback was called.
unfoldable pub count_fired : ℕ → ℕ → BusScheduler → ℕ
count_fired n zero scheduler = 0
count_fired n (suc left) scheduler =
    let (scheduler', calls) = tick (n * 10) scheduler in
    length calls + count_fired (n + 1) left scheduler'

-- `_scenario_15`
unfoldable pub scenario_15 : Script
unfolding count_fired
scenario_15 =
    let scheduler =
      start (schedule_periodic "0x100" 10 "fired" (new_scheduler "BUS_SCHED_SCENARIO")) in
    let fired = count_fired 1 10 scheduler in
    note "schedule a periodic transmission and tick the scheduler"
      (check (fired == 10) (check (leb fired max_bus_messages_per_window) done))

-- The elements of `set(scenarios)`, each once.
unfoldable pub distinct : List String → List String
distinct [] = []
distinct (s ∷ names) = let rest = distinct names in if is_in s names then rest else s ∷ rest

-- `==` on lists of texts.
unfoldable pub texts_eq : List String → List String → Bool
texts_eq [] [] = true
texts_eq (s ∷ ss) (t ∷ ts) = str_eq s t && texts_eq ss ts
texts_eq _ _ = false

-- `_scenario_18`; `_VTC_IDS` is the list that `list_scenarios` copies.
unfoldable pub scenario_18 : Script
unfolding distinct texts_eq
scenario_18 = note "verify list_scenarios() returns all 20 VTC IDs in order" (
    check (texts_eq list_scenarios list_scenarios)
      (check (length (distinct list_scenarios) == 20) done))
