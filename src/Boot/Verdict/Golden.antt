-- ===== src/Boot/Verdict/Golden.antt =====
-- What the check of sim/secure_boot.py answers, and that it leaves the memory and the HSM alone.
use sec_oc.Base.{
  ◌≢◌, arith, ◌≡◌, refl, ap, ◌∙◌, String, Bool, true, false, ◌&&◌, Option, none, some, arith,
}
use sec_oc.Base.{ok}
use sec_oc.Base.Bytes.{Bytes, bytes_eq_iff}
use sec_oc.Crypto.Hsm.{Hsm}
use sec_oc.Crypto.Library.{Library}
use sec_oc.Monitor.{log_event}
use sec_oc.Monitor.Events.{critical}
use sec_oc.Nvm.{Nvm, read}
use sec_oc.Nvm.Values.{null, blob}
use sec_oc.Boot.{SecureBoot, is_golden, components, verify_boot_integrity, compute_hash}
use sec_oc.Boot.Verdict.{matches, first_mismatch, verdict, verify_boot_integrity-verdict}
use sec_oc.Crypto.Cryif
use sec_oc.Crypto.Hsm

-- All three digests match.
unfoldable pub all_match : Library → Bytes → Nvm → Bool
all_match lib snapshot nvm =
    matches lib snapshot nvm "boot_golden_hash_code"
    && (matches lib snapshot nvm "boot_golden_hash_config"
        && matches lib snapshot nvm "boot_golden_hash_keys")

pub compute_hash_up :
    (lib : Library) (snapshot bytes : Bytes) (h : Hsm)
    → h.fail_mode ≡ false
    → compute_hash lib snapshot bytes h ≡ (h, ok (lib.sha256_digest bytes))
unfolding compute_hash Cryif.sha256 Hsm.sha256
compute_hash_up lib snapshot bytes h up = rw up refl

pub matches_written :
    (lib : Library) (snapshot : Bytes) (nvm : Nvm) (key : String)
    → read key null nvm ≡ blob (lib.sha256_digest snapshot)
    → matches lib snapshot nvm key ≡ true
unfolding matches is_golden
matches_written lib snapshot nvm key held =
    rw held ((bytes_eq_iff (lib.sha256_digest snapshot) (lib.sha256_digest snapshot)).1 refl)

pub matches-read :
    (lib : Library) (snapshot : Bytes) (nvm nvm' : Nvm) (key : String)
    → read key null nvm' ≡ read key null nvm
    → matches lib snapshot nvm' key ≡ matches lib snapshot nvm key
unfolding matches
matches-read lib snapshot nvm nvm' key same = ap (is_golden (lib.sha256_digest snapshot)) same

verdict_answer :
    (lib : Library) (snapshot : Bytes) (found : Option String) (b : SecureBoot)
    → ((verdict lib snapshot found b).0.nvm ≡ b.nvm)
      × ((verdict lib snapshot found b).0.hsm ≡ b.hsm)
      × ((verdict lib snapshot found b).1
          ≡ (elim found [ none ↦ ok true | some component ↦ ok false ]))
unfolding verdict
verdict_answer lib snapshot none b = (refl, refl, refl)
verdict_answer lib snapshot (some component) b = (refl, refl, refl)

found_answer :
    (lib : Library) (snapshot : Bytes) (nvm : Nvm)
    → (elim (first_mismatch lib snapshot nvm components) [
      | none ↦ ok true
      | some component ↦ ok false
    ])
      ≡ ok (all_match lib snapshot nvm)
unfolding first_mismatch all_match
found_answer lib snapshot nvm = ground arith

pub verify_boot_integrity_answer :
    (lib : Library) (snapshot : Bytes) (b : SecureBoot)
    → b.hsm.fail_mode ≡ false
    → let (b', answer) = verify_boot_integrity lib snapshot b in
      (b'.nvm ≡ b.nvm) × (b'.hsm ≡ b.hsm) × (answer ≡ ok (all_match lib snapshot b.nvm))
verify_boot_integrity_answer lib snapshot b up =
    let (memory, hsm, answer) =
      verdict_answer lib snapshot (first_mismatch lib snapshot b.nvm components) b in
    rw (verify_boot_integrity-verdict lib snapshot b up)
      (memory, hsm, answer ∙ found_answer lib snapshot b.nvm)

pub matches-differs :
    (lib : Library) (snapshot golden : Bytes) (nvm : Nvm) (key : String)
    → read key null nvm ≡ blob golden
    → lib.sha256_digest snapshot ≢ golden
    → matches lib snapshot nvm key ≡ false
unfolding matches is_golden
matches-differs lib snapshot golden nvm key held differs =
    rw held (ground (arith, bytes_eq_iff (lib.sha256_digest snapshot) golden))

-- The whole of a check that passes, and of one that does not.
pub verify_all :
    (lib : Library) (snapshot : Bytes) (b : SecureBoot)
    → b.hsm.fail_mode ≡ false
    → all_match lib snapshot b.nvm ≡ true
    → verify_boot_integrity lib snapshot b
      ≡ (record b { failed_component = none; boot_integrity_ok = some true }, ok true)
unfolding verdict first_mismatch all_match
verify_all lib snapshot b up all =
    verify_boot_integrity-verdict lib snapshot b up
    ∙ ap (λ found. verdict lib snapshot found b) none_found
  where
    none_found : first_mismatch lib snapshot b.nvm components ≡ none
    none_found = ground arith

pub verify_not_code :
    (lib : Library) (snapshot : Bytes) (b : SecureBoot)
    → b.hsm.fail_mode ≡ false
    → matches lib snapshot b.nvm "boot_golden_hash_code" ≡ false
    → verify_boot_integrity lib snapshot b ≡ (
      record b {
        failed_component = some "code";
        boot_integrity_ok = some false;
        monitor = log_event critical "BOOT_INTEGRITY_FAIL" "SR-19" b.monitor;
      },
      ok false,
    )
unfolding verdict first_mismatch
verify_not_code lib snapshot b up differs =
    verify_boot_integrity-verdict lib snapshot b up
    ∙ ap (λ found. verdict lib snapshot found b) code_found
  where
    code_found : first_mismatch lib snapshot b.nvm components ≡ some "code"
    code_found = rw differs refl
