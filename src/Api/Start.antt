-- ===== src/Api/Start.antt =====
-- The start of the application of api/state.py: the keys that its PDUs have, and what it keeps of
-- the memory that it finds.
use mathlib.Core.Path.{subst}
use sec_oc.Base.{◌≡◌, ◌≢◌, refl, sym, ap, ◌∙◌, String, false, some, arith, eq_iff}
use sec_oc.Base.{ok, raised, key_error, and_then}
use sec_oc.Base.Bytes.{Bytes}
use sec_oc.Base.Dict.{lookup}
use sec_oc.Boot
use sec_oc.Boot.Verdict.Golden.{all_match, verify_boot_integrity_answer}
use sec_oc.Crypto.Csm.{new_csm}
use sec_oc.Crypto.Hsm.{new_hsm}
use sec_oc.Freshness.{load_last_valid_freshness}
use sec_oc.Freshness.Window.{load_last_valid_freshness-read}
use sec_oc.Keys.{resolve_key}
use sec_oc.Keys.Provision.{resolve_key-read}
use sec_oc.Nvm.{Nvm, read}
use sec_oc.Nvm.Keys.{
  key_meta_key, last_valid_key, key_meta_key-ne-boot_code, key_meta_key-ne-boot_config,
  key_meta_key-ne-boot_keys, last_valid_key-ne-boot_code, last_valid_key-ne-boot_config,
  last_valid_key-ne-boot_keys, last_valid_key-ne-key_meta_key,
}
use sec_oc.Nvm.Values.{Value, null, integer}
use sec_oc.Profile.{SecurityProfileEntry, SecurityProfile}
use sec_oc.Secoc.Objects.{Setup}
use sec_oc.Api.Golden.{
  listed, write_golden-unlisted, with_golden, golden_match, golden_written, fits, all_fit,
  fits_read,
}
use sec_oc.Api.FirstKeys.{IsReadable, key_or, IsHeld}
use sec_oc.Api.Provision.{AreProvided, provision_each-AreProvided}
use sec_oc.Api.State.{
  AppState, new_state, boot_keys, on_boot, provision_each, provision_keys,
  provision_boot_golden_hashes, start_up,
}

-- An application that has started on a memory, with its profiles.
pub record IsStarted (nvm : Nvm) (sp : SecurityProfile) (a : AppState) : Type 0 where
  pub up : a.stack.csm.hsm.fail_mode ≡ false
  pub profiles : a.stack.profiles ≡ sp.profiles
  pub keys :
      (p : String) (profile : SecurityProfileEntry)
      → lookup p sp.profiles ≡ some profile
      → resolve_key p a.stack.nvm ≡ ok (key_or profile.key_id (resolve_key p nvm))
  pub fresh :
      (p : String) (profile : SecurityProfileEntry)
      → lookup p sp.profiles ≡ some profile
      → resolve_key p nvm ≡ raised key_error
      → IsHeld profile.key_id a.stack.csm.hsm
  pub counters :
      (p : String) → load_last_valid_freshness p a.stack.nvm ≡ load_last_valid_freshness p nvm

IsStarted-moved :
    {nvm : Nvm} {sp : SecurityProfile} {c d : AppState}
    → IsStarted nvm sp c
    → d.stack.nvm ≡ c.stack.nvm
    → d.stack.csm.hsm ≡ c.stack.csm.hsm
    → d.stack.profiles ≡ c.stack.profiles
    → IsStarted nvm sp d
IsStarted-moved {nvm} {sp} s memory hsm profiles = record {
  up = ap (λ h. h.fail_mode) hsm ∙ s.up;
  profiles = profiles ∙ s.profiles;
  keys = λ p profile found. ap (resolve_key p) memory ∙ s.keys p profile found;
  fresh = λ p profile found missing.
      subst (λ h. IsHeld profile.key_id h) (sym hsm) (s.fresh p profile found missing);
  counters = λ p. ap (load_last_valid_freshness p) memory ∙ s.counters p;
}

module _ (env : Setup) (snapshot : Bytes) where
  key_meta_unlisted : (q : String) → listed (key_meta_key q) boot_keys ≡ false
  key_meta_unlisted q = ground (
    arith,
    eq_iff "boot_golden_hash_code" (key_meta_key q),
    eq_iff "boot_golden_hash_config" (key_meta_key q),
    eq_iff "boot_golden_hash_keys" (key_meta_key q),
    λ (e : key_meta_key q ≡ "boot_golden_hash_code"). key_meta_key-ne-boot_code q e,
    λ (e : key_meta_key q ≡ "boot_golden_hash_config"). key_meta_key-ne-boot_config q e,
    λ (e : key_meta_key q ≡ "boot_golden_hash_keys"). key_meta_key-ne-boot_keys q e,
  )

  last_valid_unlisted : (p : String) → listed (last_valid_key p) boot_keys ≡ false
  last_valid_unlisted p = ground (
    arith,
    eq_iff "boot_golden_hash_code" (last_valid_key p),
    eq_iff "boot_golden_hash_config" (last_valid_key p),
    eq_iff "boot_golden_hash_keys" (last_valid_key p),
    λ (e : last_valid_key p ≡ "boot_golden_hash_code"). last_valid_key-ne-boot_code p e,
    λ (e : last_valid_key p ≡ "boot_golden_hash_config"). last_valid_key-ne-boot_config p e,
    λ (e : last_valid_key p ≡ "boot_golden_hash_keys"). last_valid_key-ne-boot_keys p e,
  )

  -- The boot hashes change no entry of another name.
  golden_read :
      (j : String) (default : Value) (nvm : Nvm)
      → listed j boot_keys ≡ false
      → read j default (with_golden env snapshot nvm) ≡ read j default nvm
  unfolding with_golden
  golden_read j default nvm h = write_golden-unlisted _ boot_keys j default nvm h

  golden_resolves :
      (q : String) (nvm : Nvm) → resolve_key q (with_golden env snapshot nvm) ≡ resolve_key q nvm
  golden_resolves q nvm =
      resolve_key-read q nvm (with_golden env snapshot nvm)
        (golden_read (key_meta_key q) null nvm (key_meta_unlisted q))

  module _ (nvm : Nvm) (sp : SecurityProfile) (b : AppState)
      (h : AreProvided sp.profiles (new_state nvm sp) b) where
    -- The application after the keys and the boot hashes.
    golden_set : AppState
    golden_set = record b { stack = record b.stack { nvm = with_golden env snapshot b.stack.nvm } }

    kept_counter :
        (p : String)
        → read (last_valid_key p) (integer 0) (with_golden env snapshot b.stack.nvm)
          ≡ read (last_valid_key p) (integer 0) nvm
    unfolding new_state
    kept_counter p =
        golden_read (last_valid_key p) (integer 0) b.stack.nvm (last_valid_unlisted p)
        ∙ h.kept.others (last_valid_key p) (integer 0)
            (λ q e. last_valid_key-ne-key_meta_key p q (sym e))

    golden_set-IsStarted : IsStarted nvm sp golden_set
    unfolding new_state golden_set
    golden_set-IsStarted = record {
      up = h.kept.up;
      profiles = h.kept.profiles;
      keys = λ p profile found. golden_resolves p b.stack.nvm ∙ h.resolves p profile found;
      fresh = λ p profile found missing. h.fresh p profile found missing;
      counters = λ p. load_last_valid_freshness-read p nvm _ (kept_counter p);
    }

    kept_fits :
        (key : String)
        → ((q : String) → key_meta_key q ≢ key)
        → fits env snapshot key b.stack.nvm ≡ fits env snapshot key nvm
    unfolding new_state
    kept_fits key ne = fits_read env snapshot key nvm b.stack.nvm (h.kept.others key null ne)

    golden_all :
        all_match env.lib snapshot (with_golden env snapshot b.stack.nvm) ≡ all_fit env snapshot nvm
    unfolding all_fit
    golden_all =
        golden_match env snapshot b.stack.nvm
        ∙ rw
            (
              kept_fits "boot_golden_hash_code" key_meta_key-ne-boot_code,
              kept_fits "boot_golden_hash_config" key_meta_key-ne-boot_config,
              kept_fits "boot_golden_hash_keys" key_meta_key-ne-boot_keys,
            )
            refl

    -- The end of the start: the check of the boot hashes.
    checked :
        let (c, answer) = on_boot (Boot.verify_boot_integrity env.lib snapshot) golden_set in
        IsStarted nvm sp c × (answer ≡ ok (all_fit env snapshot nvm))
    unfolding golden_set
    checked =
        let (memory, hsm, answer) =
          verify_boot_integrity_answer env.lib snapshot
            (record {
              nvm = golden_set.stack.nvm;
              hsm = golden_set.stack.csm.hsm;
              monitor = golden_set.stack.monitor;
              boot_integrity_ok = golden_set.boot_integrity_ok;
              failed_component = golden_set.failed_component;
            })
            h.kept.up in
        (IsStarted-moved golden_set-IsStarted memory hsm refl, answer ∙ ap ok golden_all)

  start_up_steps :
      (a b : AppState)
      → provision_each env a.stack.profiles a ≡ (b, ok tt)
      → b.stack.csm.hsm.fail_mode ≡ false
      → start_up env snapshot a
        ≡ on_boot
            (Boot.verify_boot_integrity env.lib snapshot)
            (record b { stack = record b.stack { nvm = with_golden env snapshot b.stack.nvm } })
  unfolding start_up provision_keys
  start_up_steps a b made up =
      ap
        (λ x. and_then x λ _ a1.
          and_then (provision_boot_golden_hashes env snapshot a1)
            λ _ a2. on_boot (Boot.verify_boot_integrity env.lib snapshot) a2)
        made
      ∙ ap (λ x. and_then x λ _ a2. on_boot (Boot.verify_boot_integrity env.lib snapshot) a2)
          (golden_written env snapshot b up)

  -- An application whose memory names, for each PDU, a key or none, starts, and its answer is
  -- whether all boot hashes that the memory holds are those of the firmware. After the start each
  -- PDU with a profile resolves to the key identifier that the memory named before, or else to that
  -- of its profile, and in the second case the HSM holds a key under it; in the first case nothing
  -- is said of a key, since the HSM of a started application is a new one. For every PDU the last
  -- accepted counter value is the one that the memory held before.
  pub start_up_lem :
      (nvm : Nvm) (sp : SecurityProfile)
      → ((q : String) → IsReadable q nvm)
      → let (a, answer) = start_up env snapshot (new_state nvm sp) in
        IsStarted nvm sp a × (answer ≡ ok (all_fit env snapshot nvm))
  unfolding golden_set
  start_up_lem nvm sp readable =
      let (b, made, h) =
        provision_each-AreProvided env sp.profiles (new_state nvm sp)
          (unfold new_state new_csm new_hsm in refl) (unfold new_state in readable) in
      subst (λ x. IsStarted nvm sp x.0 × (x.1 ≡ ok (all_fit env snapshot nvm)))
        (sym (start_up_steps (new_state nvm sp) b (unfold new_state in made) h.kept.up))
        (checked nvm sp b h)
