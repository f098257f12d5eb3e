-- ===== src/Scenarios/BootCheck.antt =====
-- Why the scenario of sim/scenario_runner.py on the boot check passes.
use sec_oc.Base.{true, none, ◌≢◌, false, ◌≡◌, refl, some}
use sec_oc.Base.{ok}
use sec_oc.Base.Dict.{lookup, insert, get_or}
use sec_oc.Crypto.Library.{Library}
use sec_oc.Boot.{SecureBoot}
use sec_oc.Boot.Verdict.{matches}
use sec_oc.Boot.Verdict.Golden.{
  all_match, compute_hash_up, matches_written, matches-differs, verify_all, verify_not_code,
}
use sec_oc.Base.Bytes.{Bytes}
use sec_oc.Monitor.{log_event}
use sec_oc.Monitor.Events.{log, get_events_by_severity}
use sec_oc.Nvm.Values.{null, blob}
use sec_oc.Nvm.{read, write, flush}
use sec_oc.Scenarios.KeyBodies.{
  scenario_19, firmware_snapshot, tampered_value, new_monitor, golden_nvm, new_keyring,
}

held_code : (golden : Bytes) → read "boot_golden_hash_code" null (golden_nvm golden) ≡ blob golden
unfolding read write flush insert lookup get_or
held_code golden = refl

held_config :
    (golden : Bytes) → read "boot_golden_hash_config" null (golden_nvm golden) ≡ blob golden
unfolding read write flush insert lookup get_or
held_config golden = refl

held_keys : (golden : Bytes) → read "boot_golden_hash_keys" null (golden_nvm golden) ≡ blob golden
unfolding read write flush insert lookup get_or
held_keys golden = refl

held_tampered :
    (golden tampered : Bytes)
    → read "boot_golden_hash_code" null
        (write "boot_golden_hash_code" (blob tampered) (golden_nvm golden))
      ≡ blob tampered
unfolding read write flush insert lookup get_or
held_tampered golden tampered = refl

-- The boot check of the scenario passes on the golden hashes, and fails on the tampered one.
module _ (lib : Library)
    (differs : lib.sha256_digest firmware_snapshot ≢ lib.sha256_digest tampered_value) where
  golden : Bytes
  golden = lib.sha256_digest firmware_snapshot

  tampered : Bytes
  tampered = lib.sha256_digest tampered_value

  intact : SecureBoot
  intact = record {
    nvm = golden_nvm golden;
    hsm = new_keyring.hsm;
    monitor = new_monitor;
    boot_integrity_ok = none;
    failed_component = none;
  }

  intact_matches : all_match lib firmware_snapshot intact.nvm ≡ true
  unfolding all_match intact golden
  intact_matches =
      rw
        (
          matches_written lib firmware_snapshot (golden_nvm golden) "boot_golden_hash_code"
              (held_code golden),
          matches_written lib firmware_snapshot (golden_nvm golden) "boot_golden_hash_config"
              (held_config golden),
          matches_written lib firmware_snapshot (golden_nvm golden) "boot_golden_hash_keys"
              (held_keys golden),
        )
        refl

  -- The object after the first check, with the tampered hash.
  broken : SecureBoot
  broken = record intact {
    nvm = write "boot_golden_hash_code" (blob tampered) intact.nvm;
    failed_component = none;
    boot_integrity_ok = some true;
  }

  broken_differs : matches lib firmware_snapshot broken.nvm "boot_golden_hash_code" ≡ false
  unfolding broken intact tampered
  broken_differs =
      matches-differs lib firmware_snapshot tampered broken.nvm "boot_golden_hash_code"
        (held_tampered golden tampered) differs

  pub passes_19 : (scenario_19 lib).1 ≡ ok tt
  unfolding scenario_19 golden tampered intact broken log_event log get_events_by_severity
  passes_19 = rw (compute_hash_up lib firmware_snapshot firmware_snapshot new_keyring.hsm refl) (
      rw (verify_all lib firmware_snapshot intact refl intact_matches) (
        rw (compute_hash_up lib firmware_snapshot tampered_value new_keyring.hsm refl)
          (rw (verify_not_code lib firmware_snapshot broken refl broken_differs) refl)))
