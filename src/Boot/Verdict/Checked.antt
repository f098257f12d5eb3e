-- ===== src/Boot/Verdict/Checked.antt =====
-- The check of sim/secure_boot.py against what the memory holds, on every branch.
use sec_oc.Base.{
  ◌≡◌, ◌↔◌, refl, sym, ap, String, Bool, true, false, none, some, Bool-cases, inl, inr,
}
use sec_oc.Base.{Outcome, ok, raised, hsm_error}
use sec_oc.Base.Bytes.{Bytes, bytes_eq_iff}
use sec_oc.Crypto.Cryif
use sec_oc.Crypto.Hsm
use sec_oc.Crypto.Library.{Library}
use sec_oc.Monitor.{log_event}
use sec_oc.Monitor.Events.{critical}
use sec_oc.Nvm.{Nvm, read}
use sec_oc.Nvm.Values.{Value, null, boolean, integer, text, blob, array, object}
use sec_oc.Boot.{
  SecureBoot, is_golden, components, compute_hash, verify_integrity, verify_component,
  verify_components, verify_boot_integrity,
}
use sec_oc.Boot.Verdict.{matches, first_mismatch, verdict, verify_boot_integrity-verdict}
use mathlib.Core.Path.{subst}

module _ (lib : Library) (snapshot : Bytes) where
  -- The memory holds the digest of the snapshot, as bytes, under the key.
  abbrev pub Held : Nvm → String → Type 0
  Held nvm key = read key null nvm ≡ blob (lib.sha256_digest snapshot)

  -- A failed check.
  abbrev pub blocked : String → SecureBoot → SecureBoot
  blocked component b = record b {
    failed_component = some component;
    boot_integrity_ok = some false;
    monitor = log_event critical "BOOT_INTEGRITY_FAIL" "SR-19" b.monitor;
  }

  -- What a check may leave and answer.
  pub data Checked (b : SecureBoot) : SecureBoot → Outcome Bool → Type 0 where
    unavailable : b.hsm.fail_mode ≡ true → Checked b b (raised (hsm_error "unavailable"))
    passes :
        b.hsm.fail_mode ≡ false
        → Held b.nvm "boot_golden_hash_code"
        → Held b.nvm "boot_golden_hash_config"
        → Held b.nvm "boot_golden_hash_keys"
        → Checked b (record b { failed_component = none; boot_integrity_ok = some true }) (ok true)
    code_differs :
        b.hsm.fail_mode ≡ false
        → ¬ Held b.nvm "boot_golden_hash_code"
        → Checked b (blocked "code" b) (ok false)
    config_differs :
        b.hsm.fail_mode ≡ false
        → Held b.nvm "boot_golden_hash_code"
        → ¬ Held b.nvm "boot_golden_hash_config"
        → Checked b (blocked "config" b) (ok false)
    keys_differ :
        b.hsm.fail_mode ≡ false
        → Held b.nvm "boot_golden_hash_code"
        → Held b.nvm "boot_golden_hash_config"
        → ¬ Held b.nvm "boot_golden_hash_keys"
        → Checked b (blocked "keys" b) (ok false)

  is_golden_iff : (digest : Bytes) (v : Value) → (is_golden digest v ≡ true) ↔ (v ≡ blob digest)
  unfolding is_golden
  is_golden_iff digest null = (λ h. cc, λ h. cc)
  is_golden_iff digest (boolean b) = (λ h. cc, λ h. cc)
  is_golden_iff digest (integer n) = (λ h. cc, λ h. cc)
  is_golden_iff digest (text s) = (λ h. cc, λ h. cc)
  is_golden_iff digest (blob bs) =
      (λ h. ap blob (sym ((bytes_eq_iff digest bs).0 h)), λ h. (bytes_eq_iff digest bs).1 (cc))
  is_golden_iff digest (array vs) = (λ h. cc, λ h. cc)
  is_golden_iff digest (object fs) = (λ h. cc, λ h. cc)

  matches-Held : (nvm : Nvm) (key : String) → matches lib snapshot nvm key ≡ true → Held nvm key
  unfolding matches
  matches-Held nvm key h = (is_golden_iff (lib.sha256_digest snapshot) (read key null nvm)).0 h

  differs-Held : (nvm : Nvm) (key : String) → matches lib snapshot nvm key ≡ false → ¬ Held nvm key
  unfolding matches
  differs-Held nvm key h held =
      let same = (is_golden_iff (lib.sha256_digest snapshot) (read key null nvm)).1 held in cc

  down :
      (b : SecureBoot)
      → b.hsm.fail_mode ≡ true
      → verify_boot_integrity lib snapshot b ≡ (b, raised (hsm_error "unavailable"))
  unfolding verify_boot_integrity verify_components verify_component verify_integrity compute_hash
      Cryif.sha256 Hsm.sha256
  down b off = rw off refl

  IsChecked : SecureBoot → SecureBoot × Outcome Bool → Type 0
  IsChecked b x = Checked b x.0 x.1

  found :
      (b : SecureBoot)
      → b.hsm.fail_mode ≡ false
      → IsChecked b (verdict lib snapshot (first_mismatch lib snapshot b.nvm components) b)
  unfolding IsChecked verdict first_mismatch
  found b up = elim (Bool-cases (matches lib snapshot b.nvm "boot_golden_hash_code")) [
    | inr code ↦ rw code (Checked.code_differs up (differs-Held b.nvm _ code))
    | inl code ↦ elim (Bool-cases (matches lib snapshot b.nvm "boot_golden_hash_config")) [
      | inr config ↦
          rw (code, config)
            (Checked.config_differs up (matches-Held b.nvm _ code) (differs-Held b.nvm _ config))
      | inl config ↦ elim (Bool-cases (matches lib snapshot b.nvm "boot_golden_hash_keys")) [
        | inr keys ↦
            rw (code, config, keys)
              (Checked.keys_differ up (matches-Held b.nvm _ code) (matches-Held b.nvm _ config)
                (differs-Held b.nvm _ keys))
        | inl keys ↦
            rw (code, config, keys)
              (Checked.passes up (matches-Held b.nvm _ code) (matches-Held b.nvm _ config)
                (matches-Held b.nvm _ keys))
      ]
    ]
  ]

  -- While the HSM answers, `verify_boot_integrity` returns True and records success exactly when the
  -- memory holds the digest of the snapshot, as bytes, under all three keys; otherwise it returns
  -- False, records the first of code, config and keys whose stored value is missing or another, and
  -- logs one critical event. With the HSM out of service it raises, and changes nothing.
  pub verify_boot_integrity-Checked :
      (b : SecureBoot)
      → Checked b (verify_boot_integrity lib snapshot b).0 (verify_boot_integrity lib snapshot b).1
  unfolding IsChecked
  verify_boot_integrity-Checked b = elim (Bool-cases b.hsm.fail_mode) [
    | inl off ↦ subst (IsChecked b) (sym (down b off)) (Checked.unavailable off)
    | inr up ↦
        subst (IsChecked b) (sym (verify_boot_integrity-verdict lib snapshot b up)) (found b up)
  ]
