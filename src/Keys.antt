-- ===== src/Keys.antt =====
-- sim/key_storage.py and sim/key_manager.py: which key each PDU uses. The metadata lies in the
-- memory, the key in the HSM.
pub mod Metadata
pub mod Provision
pub mod Rotation
use sec_oc.Base.{ℕ, ◌+◌, String, Option, none, some}
use sec_oc.Base.{Method, Outcome, ok, raised, key_error, ◌>>=◌, and_then}
use sec_oc.Nvm.{Nvm}
use sec_oc.Crypto.Library.{Library}
use sec_oc.Crypto.Hsm.{Hsm}
use sec_oc.Crypto.Cryif
use Metadata.{KeyMetadata, active, save_key_metadata, get_key_metadata}

-- The two objects that the key manager works on.
pub record Keyring : Type 0 where
  pub nvm : Nvm
  pub hsm : Hsm

or_key_error : {A : Type 0} → Option A → Outcome A
or_key_error none = raised key_error
or_key_error (some a) = ok a

-- The metadata of a PDU that must have a key.
current_metadata : String → Nvm → Outcome KeyMetadata
unfolding or_key_error
current_metadata pdu_id nvm = do found ← get_key_metadata pdu_id nvm; or_key_error found

-- `KeyManager.resolve_key`
pub resolve_key : String → Nvm → Outcome String
unfolding current_metadata
resolve_key pdu_id nvm = do metadata ← current_metadata pdu_id nvm; ok metadata.key_id

module _ (lib : Library) where
  -- The end that `provision_key` and `rotate_key` share: make the key, then save the metadata.
  pub install : KeyMetadata → Method Keyring KeyMetadata
  install metadata k =
      let (hsm, made) = Cryif.generate_symmetric_key lib metadata.key_id k.hsm in
      and_then (record k { hsm = hsm }, made)
        λ _ k'. (record k' { nvm = save_key_metadata metadata k'.nvm }, ok metadata)

  -- `KeyManager.provision_key`
  pub provision_key : String → String → Method Keyring KeyMetadata
  unfolding install
  provision_key pdu_id key_id =
      install (record { pdu_id = pdu_id; key_id = key_id; version = 1; lifecycle_state = active })

  -- `KeyManager.rotate_key`
  pub rotate_key : String → String → Method Keyring KeyMetadata
  unfolding install current_metadata
  rotate_key pdu_id new_key_id k =
      and_then (k, current_metadata pdu_id k.nvm)
        λ current k'.
          install
            (record {
              pdu_id = pdu_id;
              key_id = new_key_id;
              version = current.version + 1;
              lifecycle_state = active;
            })
            k'
