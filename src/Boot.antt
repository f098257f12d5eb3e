-- ===== src/Boot.antt =====
-- sim/integrity_checker.py and sim/secure_boot.py: the hashes of the firmware that are checked
-- before the start.
pub mod Verdict
use sec_oc.Base.{ℕ, String, Bool, true, false, Option, none, some, List, [], ◌∷◌, if◌then◌else◌}
use sec_oc.Base.{Method, Outcome, ok, raised, and_then, within}
use sec_oc.Base.Bytes.{Bytes, bytes_eq}
use sec_oc.Crypto.Cryif
use sec_oc.Crypto.Hsm.{Hsm}
use sec_oc.Crypto.Library.{Library}
use sec_oc.Monitor.{Monitor, log_event}
use sec_oc.Monitor.Events.{critical}
use sec_oc.Nvm.{Nvm, read}
use sec_oc.Nvm.Values.{Value, null, blob}

-- `SecureBoot`, with the objects that it works on.
pub record SecureBoot : Type 0 where
  pub nvm : Nvm
  pub hsm : Hsm
  pub monitor : Monitor
  pub boot_integrity_ok : Option Bool
  pub failed_component : Option String

-- A digest equals a value of the memory only if that holds the same bytes.
is_golden : Bytes → Value → Bool
is_golden digest (blob golden) = bytes_eq digest golden
is_golden digest _ = false

-- `_COMPONENTS`
abbrev pub components : List (String × String)
components =
    ("code", "boot_golden_hash_code")
    ∷ ("config", "boot_golden_hash_config")
    ∷ ("keys", "boot_golden_hash_keys")
    ∷ []

fail : String → SecureBoot → SecureBoot
fail component b = record b {
  failed_component = some component;
  boot_integrity_ok = some false;
  monitor = log_event critical "BOOT_INTEGRITY_FAIL" "SR-19" b.monitor;
}

-- `snapshot` is `_CURRENT_SNAPSHOT`.
module _ (lib : Library) (snapshot : Bytes) where
  -- `IntegrityChecker.compute_hash`
  pub compute_hash : Bytes → Method Hsm Bytes
  compute_hash bytes = Cryif.sha256 lib bytes

  -- `IntegrityChecker.verify_integrity`
  pub verify_integrity : Bytes → Value → Method Hsm Bool
  unfolding compute_hash is_golden
  verify_integrity bytes golden_hash h =
      and_then (compute_hash bytes h) λ digest h'. (h', ok (is_golden digest golden_hash))

  -- `SecureBoot._verify_component`, and by its keys `verify_code_integrity`,
  -- `verify_config_integrity` and `verify_keys_integrity`.
  pub verify_component : String → Method SecureBoot Bool
  unfolding verify_integrity
  verify_component golden_hash_key b =
      within (λ hsm. record b { hsm = hsm })
        (verify_integrity snapshot (read golden_hash_key null b.nvm) b.hsm)

  -- One turn of the loop, for the verdict on its component.
  pub next_component :
      String → (SecureBoot → SecureBoot × Outcome Bool) → Bool → Method SecureBoot Bool
  unfolding fail
  next_component component rest true b = rest b
  next_component component rest false b = (fail component b, ok false)

  -- The loop of `verify_boot_integrity`.
  pub verify_components : List (String × String) → Method SecureBoot Bool
  unfolding verify_component next_component
  verify_components [] b =
      (record b { failed_component = none; boot_integrity_ok = some true }, ok true)
  verify_components ((component, golden_hash_key) ∷ rest) b =
      and_then (verify_component golden_hash_key b)
        (next_component component (verify_components rest))

  -- `SecureBoot.verify_boot_integrity`
  pub verify_boot_integrity : Method SecureBoot Bool
  unfolding verify_components
  verify_boot_integrity b = verify_components components b
