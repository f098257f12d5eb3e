-- ===== src/Keys/Provision.antt =====
-- What `provision_key` of sim/key_manager.py leaves, and which key a PDU resolves to from then on.
use sec_oc.Base.{
  arith, eq_iff, ◌+◌, ◌≡◌, refl, String, Bool, true, false, some, str_eq, if◌then◌else◌,
}
use sec_oc.Base.{ok, raised, key_error, ◌>>=◌}
use sec_oc.Base.Dict.{insert, lookup, lookup-insert_self}
use sec_oc.Crypto.Cryif
use sec_oc.Crypto.Hsm
use sec_oc.Crypto.Hsm.{Hsm, symmetric}
use sec_oc.Crypto.Library.{Library}
use sec_oc.Nvm.{Nvm, read}
use sec_oc.Nvm.Keys.{key_meta_key}
use sec_oc.Nvm.Values.{null}
use sec_oc.Keys.Metadata.{
  KeyMetadata, active, get_key_metadata, save_key_metadata, get-save, get_key_metadata-read,
  get_key_metadata-none,
}
use sec_oc.Keys.{Keyring, resolve_key, provision_key, install, current_metadata, or_key_error}

-- The record that is saved for a first key.
abbrev pub first_key : String → String → KeyMetadata
first_key p key_id = record { pdu_id = p; key_id = key_id; version = 1; lifecycle_state = active }

-- The HSM after it has made a key.
abbrev pub with_fresh_key : Library → String → Hsm → Hsm
with_fresh_key lib key_id h = record h {
  key_store = insert key_id (symmetric (lib.urandom h.draws 32)) h.key_store;
  draws = h.draws + 1;
}

pub provision_key_up :
    (lib : Library) (p key_id : String) (k : Keyring)
    → k.hsm.fail_mode ≡ false
    → provision_key lib p key_id k ≡ (
      record {
        nvm = save_key_metadata (first_key p key_id) k.nvm;
        hsm = with_fresh_key lib key_id k.hsm;
      },
      ok (first_key p key_id),
    )
unfolding provision_key install Cryif.generate_symmetric_key Hsm.generate_symmetric_key
provision_key_up lib p key_id k up = rw up refl

-- A PDU resolves to the key of the record saved for it last, the others to what they did.
pub resolve_key-save :
    (m : KeyMetadata) (q : String) (nvm : Nvm)
    → resolve_key q (save_key_metadata m nvm)
      ≡ (if str_eq m.pdu_id q then ok m.key_id else resolve_key q nvm)
unfolding resolve_key current_metadata or_key_error
resolve_key-save m q nvm = rw (get-save m q nvm) (picks (str_eq m.pdu_id q))
  where
    picks :
        (b : Bool)
        → (((if b then ok (some m) else get_key_metadata q nvm) >>= or_key_error)
            >>= (λ metadata. ok metadata.key_id))
          ≡ (if b then ok m.key_id else resolve_key q nvm)
    picks true = refl
    picks false = refl

-- Which key a PDU has depends on its own entry alone.
pub resolve_key-read :
    (q : String) (nvm nvm' : Nvm)
    → read (key_meta_key q) null nvm' ≡ read (key_meta_key q) null nvm
    → resolve_key q nvm' ≡ resolve_key q nvm
unfolding resolve_key current_metadata
resolve_key-read q nvm nvm' same = rw (get_key_metadata-read q nvm nvm' same) refl

-- A PDU without an entry has no key.
pub resolve_key-none :
    (q : String) (nvm : Nvm)
    → read (key_meta_key q) null nvm ≡ null
    → resolve_key q nvm ≡ raised key_error
unfolding resolve_key current_metadata or_key_error
resolve_key-none q nvm empty = rw (get_key_metadata-none q nvm empty) refl

-- The keyring after a first key, and what it then answers.
module _ (lib : Library) (p key_id : String) (k : Keyring) (up : k.hsm.fail_mode ≡ false) where
  pub with_key : Keyring
  with_key = record {
    nvm = save_key_metadata (first_key p key_id) k.nvm;
    hsm = with_fresh_key lib key_id k.hsm;
  }

  pub provision_key-with_key : provision_key lib p key_id k ≡ (with_key, ok (first_key p key_id))
  unfolding with_key
  provision_key-with_key = provision_key_up lib p key_id k up

  pub with_key_up : with_key.hsm.fail_mode ≡ false
  unfolding with_key
  with_key_up = up

  pub with_key_found : get_key_metadata p with_key.nvm ≡ ok (some (first_key p key_id))
  unfolding with_key
  with_key_found = ground (arith, get-save (first_key p key_id) p k.nvm, eq_iff p p)

  pub with_key_resolves : resolve_key p with_key.nvm ≡ ok key_id
  unfolding with_key
  with_key_resolves = ground (arith, resolve_key-save (first_key p key_id) p k.nvm, eq_iff p p)

  pub with_key_stored :
      lookup key_id with_key.hsm.key_store ≡ some (symmetric (lib.urandom k.hsm.draws 32))
  unfolding with_key
  with_key_stored = lookup-insert_self key_id _ k.hsm.key_store
