-- ===== src/Examples/Services.antt =====
-- The properties of the services: crypto jobs, the monitor, the boot check, the scheduler, scenarios.
use sec_oc.Base.{
  arith, ◌+◌, ◌*◌, ◌≡◌, ◌≤◌, ◌↔◌, refl, String, true, false, none, List, [], ◌∷◌, arith, ok,
}
use sec_oc.Base.Bytes.{Bytes}
use sec_oc.Base.Dict.{lookup, get_or}
use sec_oc.Boot.{SecureBoot, verify_boot_integrity}
use sec_oc.Boot.Verdict.Checked.{Checked, verify_boot_integrity-Checked}
use sec_oc.Crypto.Csm.{Csm, hash_finish, join}
use sec_oc.Crypto.Jobs.{hash_updates, hash_finish-hash_updates}
use sec_oc.Monitor.{
  Monitor, get_failure_count, record_failure, auth, security_violation_lockout, reset,
}
use sec_oc.Monitor.Lockout.{record_failures, occurrences, lockout_iff, reset_relocks}
use sec_oc.Schedule.{BusScheduler, Periodic}
use sec_oc.Schedule.Periods.{ticks, Rises, ticks_bound}
use sec_oc.Examples.Node.{toy_library, brake, brake_hsm, empty_nvm, quiet_monitor, node}

abbrev csm : Csm
csm = (node 0).csm

no_context : lookup {V = List Bytes} "ctx" [] ≡ none
unfolding lookup
no_context = refl

hash_finish-hash_updates_example :
    (hash_finish toy_library "ctx" (hash_updates "ctx" ((1 ∷ []) ∷ (2 ∷ 3 ∷ []) ∷ []) csm)).1
    ≡ ok (toy_library.sha256_digest (join ((1 ∷ []) ∷ (2 ∷ 3 ∷ []) ∷ [])))
hash_finish-hash_updates_example =
    hash_finish-hash_updates toy_library "ctx" (1 ∷ []) ((2 ∷ 3 ∷ []) ∷ []) csm no_context refl

abbrev frames : List (String × Bytes)
frames = (brake, 1 ∷ []) ∷ ("PDU_0x100", 2 ∷ []) ∷ (brake, 3 ∷ []) ∷ []

abbrev five : List String
five = brake ∷ brake ∷ "PDU_0x100" ∷ brake ∷ brake ∷ brake ∷ []

no_failures : (p : String) → get_failure_count p quiet_monitor ≡ 0
unfolding get_failure_count get_or lookup
no_failures p = refl

abbrev weary : Monitor
weary = record quiet_monitor { counts = (brake, 4) ∷ []; locked_out = false }

four_failures : 4 ≤ get_failure_count brake weary
unfolding get_failure_count get_or lookup
four_failures = omega arith

lockout_iff_example :
    ((record_failures five quiet_monitor).locked_out ≡ true)
    ↔ ((p : String) × (5 ≤ occurrences p five))
lockout_iff_example = lockout_iff five quiet_monitor refl no_failures

reset_relocks_example :
    ((reset weary).locked_out ≡ false)
    × ((record_failure brake auth (reset weary)).0.ecu_state ≡ security_violation_lockout)
reset_relocks_example = reset_relocks brake weary four_failures

abbrev boot : SecureBoot
boot = record {
  nvm = empty_nvm;
  hsm = brake_hsm;
  monitor = quiet_monitor;
  boot_integrity_ok = none;
  failed_component = none;
}

verify_boot_integrity-Checked_example :
    Checked toy_library
      (83 ∷ 69 ∷ [])
      boot
      (verify_boot_integrity toy_library (83 ∷ 69 ∷ []) boot).0
      (verify_boot_integrity toy_library (83 ∷ 69 ∷ []) boot).1
verify_boot_integrity-Checked_example =
    verify_boot_integrity-Checked toy_library (83 ∷ 69 ∷ []) boot

abbrev periodic : Periodic
periodic = record { pdu_id = brake; period_ms = 10; callback = "send"; last_fired_ms = 0 }

abbrev scheduler : BusScheduler
scheduler = record { scheduler_id = "s"; running = true; entries = periodic ∷ [] }

ticks_bound_example : 0 + (ticks (4 ∷ 10 ∷ 15 ∷ 23 ∷ []) scheduler).1 * 10 ≤ 23
ticks_bound_example =
    ticks_bound (4 ∷ 10 ∷ 15 ∷ 23 ∷ []) scheduler periodic 0 23 refl (omega arith) (
      Rises.step (omega arith) (
        Rises.step (omega arith)
          (Rises.step (omega arith) (Rises.step (omega arith) (Rises.stop (omega arith))))))
