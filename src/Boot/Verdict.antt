-- ===== src/Boot/Verdict.antt =====
-- When the check of sim/secure_boot.py passes, and what a failure leaves.
pub mod Golden
pub mod Checked
use sec_oc.Base.{
  ◌≡◌, refl, String, Bool, true, false, Option, none, some, List, [], ◌∷◌, if◌then◌else◌,
}
use sec_oc.Base.{Outcome, ok}
use sec_oc.Base.Bytes.{Bytes}
use sec_oc.Crypto.Cryif
use sec_oc.Crypto.Hsm
use sec_oc.Crypto.Hsm.{Hsm}
use sec_oc.Crypto.Library.{Library}
use sec_oc.Monitor.{log_event}
use sec_oc.Monitor.Events.{critical}
use sec_oc.Nvm.{Nvm, read}
use sec_oc.Nvm.Values.{null}
use sec_oc.Boot.{
  SecureBoot, is_golden, components, fail, compute_hash, verify_integrity, verify_component,
  next_component, verify_components, verify_boot_integrity,
}

module _ (lib : Library) (snapshot : Bytes) where
  -- The memory holds the digest of the snapshot under the key.
  pub matches : Nvm → String → Bool
  matches nvm key = is_golden (lib.sha256_digest snapshot) (read key null nvm)

  verify_component_lem :
      (key : String) (b : SecureBoot)
      → b.hsm.fail_mode ≡ false
      → verify_component lib snapshot key b ≡ (b, ok (matches b.nvm key))
  unfolding verify_component verify_integrity compute_hash Cryif.sha256 Hsm.sha256 matches
  verify_component_lem key b up = rw up

  -- The first component whose digest does not match.
  pub first_mismatch : Nvm → List (String × String) → Option String
  first_mismatch nvm [] = none
  first_mismatch nvm ((component, key) ∷ rest) =
      let later = first_mismatch nvm rest in if matches nvm key then later else some component

  -- What a check that found this leaves.
  pub verdict : Option String → SecureBoot → SecureBoot × Outcome Bool
  verdict none b = (record b { failed_component = none; boot_integrity_ok = some true }, ok true)
  verdict (some component) b = (
    record b {
      failed_component = some component;
      boot_integrity_ok = some false;
      monitor = log_event critical "BOOT_INTEGRITY_FAIL" "SR-19" b.monitor;
    },
    ok false,
  )

  next_component_lem :
      (component : String) (rest : List (String × String)) (b : SecureBoot) (m : Bool)
      → verify_components lib snapshot rest b ≡ verdict (first_mismatch b.nvm rest) b
      → next_component lib snapshot component (verify_components lib snapshot rest) m b
        ≡ verdict (if m then first_mismatch b.nvm rest else some component) b
  unfolding verdict next_component fail
  next_component_lem component rest b true later = later
  next_component_lem component rest b false later = refl

  verify_components-verdict :
      (cs : List (String × String)) (b : SecureBoot)
      → b.hsm.fail_mode ≡ false
      → verify_components lib snapshot cs b ≡ verdict (first_mismatch b.nvm cs) b
  unfolding verify_components verdict first_mismatch
  verify_components-verdict [] b up = refl
  verify_components-verdict ((component, key) ∷ rest) b up = rw (verify_component_lem key b up) (
      next_component_lem component rest b (matches b.nvm key) (verify_components-verdict rest b up))

  -- While the HSM answers, the loop ends in the verdict on the first mismatch.
  pub verify_boot_integrity-verdict :
      (b : SecureBoot)
      → b.hsm.fail_mode ≡ false
      → verify_boot_integrity lib snapshot b ≡ verdict (first_mismatch b.nvm components) b
  unfolding verify_boot_integrity
  verify_boot_integrity-verdict b up = verify_components-verdict components b up
