-- ===== src/Scenarios/Passing.antt =====
-- The scenarios of sim/scenario_runner.py that pass whatever the packages under them do.
use mathlib.Core.Path.{subst}
use sec_oc.Base.{◌≢◌, Bool-cases, inl, inr, str_eq, eq_iff, ◌≡◌, refl, String, some, [], ◌∷◌, arith}
use sec_oc.Base.{ok}
use sec_oc.Base.Dict.{Dict, lookup, insert, get_or}
use sec_oc.Crypto.Cryif
use sec_oc.Crypto.Macs.{hmac_held}
use sec_oc.Crypto.Library.{Library, HasLengths}
use sec_oc.Freshness.{
  load_last_valid_freshness, reconstruct, in_window, validate_freshness, commit_freshness,
  reinitialize_window,
}
use sec_oc.Keys.Provision.{
  first_key, with_key, provision_key-with_key, with_key_up, with_key_found, with_key_resolves,
  with_key_stored,
}
use sec_oc.Keys.Rotation.{rotate_key_lem}
use sec_oc.Nvm.{read, write, flush}
use sec_oc.Nvm.Keys.{last_valid_key, window_key}
use sec_oc.Pdu.{build_secured_pdu, serialize, freshness_field}
use sec_oc.Profile.{update_profile_version, get_profile, truncation_lengths, is_in}
use sec_oc.Profile.Defaults.{default_profile, default_entry, reload_sha512}
use sec_oc.Base.Bytes.{to_bytes, big_endian, bytes_eq}
use sec_oc.Schedule.{new_scheduler, schedule_periodic, start, is_due, fire, tick}
use sec_oc.Scenarios.{
  Runner, Scenario, ScenarioResult, passed, list_scenarios, reset_environment, run_scenario,
  get_result,
}
use sec_oc.Scenarios.Provided.{provided, new_profile_provider_lem}
use sec_oc.Scenarios.MacCheck.{IsRfc4231, passes_06, passes_07}
use sec_oc.Scenarios.BootCheck.{passes_19}
use sec_oc.Scenarios.Results.{run_scenario_lem}
use sec_oc.Scenarios.Bodies.{
  scenario_04, scenario_05, scenario_10, scenario_11, scenario_15, scenario_18,
}
use sec_oc.Scenarios.KeyBodies.{
  scenario_09, protected_region, scenario_08, scenario_17, scenarios, firmware_snapshot,
  tampered_value, is_disjoint, new_keyring,
}

passes_04 : scenario_04.1 ≡ ok tt
unfolding scenario_04 load_last_valid_freshness reconstruct in_window validate_freshness
    commit_freshness read write flush last_valid_key window_key insert lookup get_or
passes_04 = refl

passes_05 : scenario_05.1 ≡ ok tt
unfolding scenario_05 load_last_valid_freshness reconstruct in_window validate_freshness
    commit_freshness reinitialize_window read write flush last_valid_key window_key insert lookup
    get_or
passes_05 = refl

passes_15 : scenario_15.1 ≡ ok tt
unfolding scenario_15 new_scheduler schedule_periodic start is_due fire tick
passes_15 = refl

passes_18 : scenario_18.1 ≡ ok tt
unfolding scenario_18 list_scenarios is_in
passes_18 = refl

passes_10 : scenario_10.1 ≡ ok tt
unfolding scenario_10 get_profile lookup insert provided
passes_10 = rw (new_profile_provider_lem "PDU_BRAKE_TORQUE") (
    rw
      (reload_sha512 "PDU_BRAKE_TORQUE"
        (record {
          profiles = ("PDU_BRAKE_TORQUE", default_profile "PDU_BRAKE_TORQUE" "HMAC-SHA256") ∷ [];
          config_file = ("PDU_BRAKE_TORQUE", default_entry "PDU_BRAKE_TORQUE" "HMAC-SHA512") ∷ [];
        })
        refl)
      refl)

passes_11 : scenario_11.1 ≡ ok tt
unfolding scenario_11 get_profile provided build_secured_pdu serialize freshness_field
    truncation_lengths lookup insert to_bytes big_endian bytes_eq
passes_11 = rw (new_profile_provider_lem "PDU_BRAKE_TORQUE") refl

passes_08 : (lib : Library) → (scenario_08 lib).1 ≡ ok tt
unfolding scenario_08 is_disjoint is_in
passes_08 lib =
    let p : String = "PDU_0x100" in
    let key_id : String = "secoc_mac_key_PDU_0x100" in
    rw (provision_key-with_key lib p key_id new_keyring refl) (
      rw (with_key_resolves lib p key_id new_keyring refl)
        (rw (with_key_found lib p key_id new_keyring refl) refl))

passes_09 : (lib : Library) → (scenario_09 lib).1 ≡ ok tt
unfolding scenario_09 Cryif.hmac_sha256
passes_09 lib =
    let p : String = "PDU_BRAKE_TORQUE" in
    let key_id : String = "secoc_mac_key_PDU_BRAKE_TORQUE" in
    let stored = with_key_stored lib p key_id new_keyring refl in
    rw (provision_key-with_key lib p key_id new_keyring refl) (
      rw (with_key_resolves lib p key_id new_keyring refl) (
        rw
          (hmac_held lib key_id (with_key lib p key_id new_keyring refl).hsm (lib.urandom 0 32)
            protected_region stored (with_key_up lib p key_id new_keyring refl))
          (rw stored refl)))

passes_17 : (lib : Library) → (scenario_17 lib).1 ≡ ok tt
unfolding scenario_17 provided get_profile lookup insert update_profile_version
passes_17 lib =
    let p : String = "PDU_BRAKE_TORQUE" in
    let old : String = "secoc_mac_key_PDU_BRAKE_TORQUE" in
    let new : String = "secoc_mac_key_PDU_BRAKE_TORQUE_v2" in
    let (answer, found, resolves, stored, _, _, _) =
      rotate_key_lem lib p new (with_key lib p old new_keyring refl) (first_key p old)
        (with_key_found lib p old new_keyring refl) (with_key_up lib p old new_keyring refl) in
    rw (new_profile_provider_lem p)
      (rw (provision_key-with_key lib p old new_keyring refl) (rw answer (rw resolves refl)))

-- Every scenario of the table ends without an exception.
abbrev AllPass : {F : Type 0} → Dict (Scenario F) → Type 0
AllPass [] = Unit
AllPass {F} ((vtc, scenario) ∷ table) = ((r : Runner F) → (scenario r).2 ≡ ok tt) × AllPass table

AllPass-lookup :
    {F : Type 0} (table : Dict (Scenario F)) (vtc : String) (scenario : Scenario F)
    → AllPass table
    → lookup vtc table ≡ some scenario
    → (r : Runner F) → (scenario r).2 ≡ ok tt
unfolding lookup
AllPass-lookup [] vtc scenario pass known r = absurd (cc)
AllPass-lookup {F} ((name, first) ∷ table) vtc scenario pass known r =
    elim (Bool-cases (str_eq name vtc)) [
      | inl same ↦
          let e : first ≡ scenario = ground arith in
          subst (λ (s : Scenario F). (s r).2 ≡ ok tt) e (pass.0 r)
      | inr other ↦ AllPass-lookup table vtc scenario pass.1 (ground arith) r
    ]

scenarios-AllPass :
    (F : Type 0) (lib : Library)
    → HasLengths lib
    → IsRfc4231 lib
    → lib.sha256_digest firmware_snapshot ≢ lib.sha256_digest tampered_value
    → AllPass {F = F} (scenarios lib)
unfolding scenarios
scenarios-AllPass F lib laws published differs = (
  (λ r. passes_04),
  (
    (λ r. passes_05),
    (
      (λ r. passes_06 lib published),
      (
        (λ r. passes_07 lib laws),
        (
          (λ r. passes_08 lib),
          (
            (λ r. passes_09 lib),
            (
              (λ r. passes_10),
              (
                (λ r. passes_11),
                (
                  (λ r. passes_15),
                  ((λ r. passes_17 lib), ((λ r. passes_18), ((λ r. passes_19 lib differs), tt))),
                ),
              ),
            ),
          ),
        ),
      ),
    ),
  ),
)

-- Whatever the cryptographic packages compute, as long as their results have the documented lengths,
-- HMAC-SHA256 gives the published digest of case 2 of RFC 4231, and the digests of the firmware and
-- of the tampered value differ, and whatever ran before: running one of the modelled scenarios (04 to
-- 11, 15, 17, 18 and 19) by its name is answered with a result that has passed and is the one looked
-- up for that name afterwards.
pub run_scenario-passed :
    {F : Type 0} (lib : Library) (vtc : String) (scenario : Scenario F) (r : Runner F)
    → HasLengths lib
    → IsRfc4231 lib
    → lib.sha256_digest firmware_snapshot ≢ lib.sha256_digest tampered_value
    → lookup vtc (scenarios lib) ≡ some scenario
    → let (r', answer) = run_scenario (scenarios lib) vtc r in
      (result : ScenarioResult) × (answer ≡ ok result)
      × (result.status ≡ passed)
      × (get_result vtc r' ≡ some result)
run_scenario-passed {F} lib vtc scenario r laws published differs known =
    let (result, answer, looked_up, steps, passes) =
      run_scenario_lem (scenarios lib) vtc scenario r known in
    (
      result,
      answer,
      passes.1 (
          AllPass-lookup (scenarios lib) vtc scenario
            (scenarios-AllPass F lib laws published differs) known (reset_environment r)),
      ground (arith, looked_up vtc, eq_iff vtc vtc),
    )
