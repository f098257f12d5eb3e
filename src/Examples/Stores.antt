-- ===== src/Examples/Stores.antt =====
-- The properties of the stores: the memory, the profiles, the keys and the journal.
use sec_oc.Base.{
  List, ◌⊎◌, ◌+◌, ◌≡◌, ◌≢◌, refl, String, true, some, [], ◌∷◌, replicate, arith, eq_iff, ok,
}
use sec_oc.Base.Dict.{lookup, insert}
use sec_oc.Audit.{
  Entry, Link, genesis, new_log, verify_integrity, verify_from, log, chain_hash, evict,
}
use sec_oc.Audit.Chain.{log_all, verify_integrity-log_all, verify_integrity_evicted}
use sec_oc.Audit.Collision.{Collision, verify_from_tampered}
use sec_oc.Crypto.Hsm.{symmetric}
use sec_oc.Keys.{Keyring, resolve_key, rotate_key}
use sec_oc.Keys.Metadata.{KeyMetadata, active, get_key_metadata, save_key_metadata, get-save}
use sec_oc.Keys.Rotation.{rotate_key_lem}
use sec_oc.Keys.Rotation.Refusal.{rotate_key_raises}
use sec_oc.Base.{Exception, raised}
use sec_oc.Nvm.Keys.{key_meta_key}
use sec_oc.Nvm.{read, open_nvm, write, flush}
use sec_oc.Nvm.Codec.{to_fields, is_marked}
use sec_oc.Nvm.RoundTrip.{IsPlain, open_nvm-write}
use sec_oc.Nvm.Values.{Value, null, integer, blob, object, text, end, field}
use sec_oc.Profile.{SecurityProfile, reload}
use sec_oc.Profile.Reload.{Reloaded, reload-Reloaded}
use sec_oc.Examples.Node.{toy_library, brake, brake_key, brake_profile, brake_hsm, empty_nvm}

abbrev golden : Value
golden = blob (255 ∷ 0 ∷ [])

store-IsPlain : IsPlain (object (to_fields (write "boot_golden_hash_code" golden empty_nvm).store))
unfolding IsPlain to_fields write flush insert is_marked
store-IsPlain = (refl, ((omega arith, (omega arith, tt)), tt))

open_nvm-write_example :
    open_nvm (write "boot_golden_hash_code" golden empty_nvm).file
    ≡ ok (write "boot_golden_hash_code" golden empty_nvm)
open_nvm-write_example = open_nvm-write "boot_golden_hash_code" golden empty_nvm store-IsPlain

abbrev first_key : KeyMetadata
first_key = record { pdu_id = brake; key_id = brake_key; version = 1; lifecycle_state = active }

abbrev keyring : Keyring
keyring = record { nvm = save_key_metadata first_key empty_nvm; hsm = brake_hsm }

abbrev broken : Keyring
broken = record keyring { hsm = record brake_hsm { fail_mode = true } }

first_key_found : get_key_metadata brake keyring.nvm ≡ ok (some first_key)
first_key_found = ground (arith, get-save first_key brake empty_nvm, eq_iff brake brake)

rotate_key_lem_example :
    let (k', r) = rotate_key toy_library brake "secoc_mac_key_v2" keyring in
    let fresh : KeyMetadata = record {
      pdu_id = brake;
      key_id = "secoc_mac_key_v2";
      version = 1 + 1;
      lifecycle_state = active;
    } in
    (r ≡ ok fresh)
    × (get_key_metadata brake k'.nvm ≡ ok (some fresh))
    × (resolve_key brake k'.nvm ≡ ok "secoc_mac_key_v2")
    × (lookup "secoc_mac_key_v2" k'.hsm.key_store ≡ some (symmetric (replicate 32 1)))
    × (read (key_meta_key brake) null k'.nvm
        ≡ object (
            field "pdu_id" (text brake) (
              field "key_id"
                (text "secoc_mac_key_v2")
                (field "version" (integer (1 + 1)) (field "lifecycle_state" (text "ACTIVE") end)))))
    × ((j : String) (default : Value)
        → key_meta_key brake ≢ j
        → read j default k'.nvm ≡ read j default keyring.nvm)
    × ((j : String)
        → "secoc_mac_key_v2" ≢ j
        → lookup j k'.hsm.key_store ≡ lookup j keyring.hsm.key_store)
rotate_key_lem_example =
    rotate_key_lem toy_library brake "secoc_mac_key_v2" keyring first_key first_key_found refl

rotate_key_raises_example :
    ((q : String)
      → brake ≢ q
      → get_key_metadata q (rotate_key toy_library brake "secoc_mac_key_v2" broken).0.nvm
        ≡ get_key_metadata q broken.nvm)
    × ((e : Exception)
        → (rotate_key toy_library brake "secoc_mac_key_v2" broken).1 ≡ raised e
        → (rotate_key toy_library brake "secoc_mac_key_v2" broken).0 ≡ broken)
rotate_key_raises_example = rotate_key_raises toy_library brake "secoc_mac_key_v2" broken

abbrev profiles : SecurityProfile
profiles = record {
  profiles = (brake, brake_profile) ∷ [];
  config_file = (brake, ("algorithm", text "HMAC-MD5") ∷ []) ∷ [];
}

reload-Reloaded_example : Reloaded profiles (reload profiles)
reload-Reloaded_example = reload-Reloaded profiles

toy_digest : String → Entry → String
toy_digest prev e = e.event

abbrev boot_entry : Entry
boot_entry = record { event = "BOOT"; timestamp = 1; detail = "{}" }

abbrev auth_entry : Entry
auth_entry = record { event = "AUTH_FAIL"; timestamp = 2; detail = "{}" }

verify_integrity-log_all_example :
    verify_integrity toy_digest (log_all toy_digest (boot_entry ∷ auth_entry ∷ []) (new_log 200))
    ≡ true
verify_integrity-log_all_example =
    verify_integrity-log_all toy_digest 200 (boot_entry ∷ auth_entry ∷ []) (omega arith)

-- A digest that forgets the hash before it does not see the eviction.
lucky :
    verify_integrity toy_digest (log_all toy_digest (boot_entry ∷ auth_entry ∷ []) (new_log 1))
    ≡ true
unfolding verify_integrity verify_from log_all log new_log chain_hash evict toy_digest
lucky = refl

verify_integrity_evicted_example :
    toy_digest (toy_digest genesis boot_entry) auth_entry ≡ toy_digest genesis auth_entry
verify_integrity_evicted_example =
    verify_integrity_evicted toy_digest boot_entry auth_entry [] lucky

abbrev later_entry : Entry
later_entry = record boot_entry { timestamp = 9 }

-- Two journals of two entries, of which the second is another.
abbrev journal : Entry → List Link
journal e =
    record { entry = auth_entry; hash = "AUTH_FAIL" } ∷ record { entry = e; hash = "BOOT" } ∷ []

verifies : (e : Entry) → e.event ≡ "BOOT" → verify_from toy_digest genesis (journal e) ≡ true
unfolding verify_from toy_digest
verifies e h = rw h refl

verify_from_tampered_example :
    (journal boot_entry ≡ journal later_entry)
    ⊎ Collision toy_digest genesis (journal boot_entry) (journal later_entry)
verify_from_tampered_example =
    verify_from_tampered toy_digest genesis (journal boot_entry) (journal later_entry)
      (refl, (refl, tt)) (verifies boot_entry refl) (verifies later_entry refl)
