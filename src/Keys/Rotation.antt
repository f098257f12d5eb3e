-- ===== src/Keys/Rotation.antt =====
-- What a key rotation of sim/key_manager.py does while the HSM answers.
pub mod Refusal
use sec_oc.Base.{
  ◌+◌, ◌≡◌, ◌≢◌, refl, ap, ◌∙◌, String, true, false, Option, none, some, arith, eq_iff,
}
use sec_oc.Base.{
  Outcome, Exception, ok, raised, key_error, hsm_error, ◌>>=◌, ◌⊎◌, inl, inr, Bool-cases,
}
use sec_oc.Base.Dict.{lookup, lookup-insert_self, lookup-insert_ne}
use sec_oc.Nvm.{Nvm, read}
use sec_oc.Nvm.Keys.{key_meta_key}
use sec_oc.Nvm.Values.{Value, null, integer, text, object, end, field}
use sec_oc.Crypto.Library.{Library}
use sec_oc.Crypto.Hsm.{Hsm, symmetric}
use sec_oc.Crypto.Hsm
use sec_oc.Crypto.Cryif
use sec_oc.Keys.Metadata.{
  KeyMetadata, active, get_key_metadata, save_key_metadata, get-save, read-save, read-save_self,
}
use sec_oc.Keys.{Keyring, resolve_key, rotate_key, install, current_metadata, or_key_error}

module _ (lib : Library) where
  -- What `install` leaves: the old memory and an exception, or the memory with the record saved and
  -- the fresh key in the HSM.
  pub record Installed (m : KeyMetadata) (k : Keyring) : Type 0 where
    pub memory : (install lib m k).0.nvm ≡ save_key_metadata m k.nvm
    pub answer : (install lib m k).1 ≡ ok m
    key :
        lookup m.key_id (install lib m k).0.hsm.key_store
        ≡ some (symmetric (lib.urandom k.hsm.draws 32))
    others :
        (j : String)
        → m.key_id ≢ j
        → lookup j (install lib m k).0.hsm.key_store ≡ lookup j k.hsm.key_store

  pub install_up : (m : KeyMetadata) (k : Keyring) → k.hsm.fail_mode ≡ false → Installed m k
  unfolding install Cryif.generate_symmetric_key Hsm.generate_symmetric_key
  install_up m k up = record {
    memory = rw up;
    answer = rw up;
    key =
        rw up
          (lookup-insert_self m.key_id (symmetric (lib.urandom k.hsm.draws 32)) k.hsm.key_store);
    others = λ j ne.
        rw up
          (lookup-insert_ne m.key_id j (symmetric (lib.urandom k.hsm.draws 32)) k.hsm.key_store ne);
  }

  pub install_down :
      (m : KeyMetadata) (k : Keyring)
      → k.hsm.fail_mode ≡ true
      → ((install lib m k).0 ≡ k) × ((install lib m k).1 ≡ raised (hsm_error "unavailable"))
  unfolding install Cryif.generate_symmetric_key Hsm.generate_symmetric_key
  install_down m k down = (rw down, rw down)

  pub rotate_found :
      (p new_key_id : String) (k : Keyring) (old : KeyMetadata)
      → get_key_metadata p k.nvm ≡ ok (some old)
      → rotate_key lib p new_key_id k
        ≡ install lib
            (record {
              pdu_id = p;
              key_id = new_key_id;
              version = old.version + 1;
              lifecycle_state = active;
            })
            k
  unfolding rotate_key current_metadata or_key_error
  rotate_found p new_key_id k old found = rw found

  resolve_found :
      (p : String) (nvm : Nvm) (m : KeyMetadata)
      → get_key_metadata p nvm ≡ ok (some m)
      → resolve_key p nvm ≡ ok m.key_id
  unfolding resolve_key current_metadata or_key_error
  resolve_found p nvm m found = rw found

  get_saved :
      (m : KeyMetadata) (nvm : Nvm)
      → get_key_metadata m.pdu_id (save_key_metadata m nvm) ≡ ok (some m)
  get_saved m nvm = ground (arith, get-save m m.pdu_id nvm, eq_iff m.pdu_id m.pdu_id)

  -- While the HSM answers, rotating the key of a PDU that has one makes a fresh key under the new
  -- identifier, which is then the one that the PDU resolves to, and raises the version by one. The
  -- entry of the PDU in the memory is the new record alone, with its four fields, and ACTIVE; no
  -- other entry of the memory has changed, so the old record is kept nowhere; and no key of the HSM
  -- under another identifier has changed, so the old key is still there unless the new identifier
  -- is its own.
  pub rotate_key_lem :
      (p new_key_id : String) (k : Keyring) (old : KeyMetadata)
      → get_key_metadata p k.nvm ≡ ok (some old)
      → k.hsm.fail_mode ≡ false
      → let (k', r) = rotate_key lib p new_key_id k in
        let fresh : KeyMetadata = record {
          pdu_id = p;
          key_id = new_key_id;
          version = old.version + 1;
          lifecycle_state = active;
        } in
        (r ≡ ok fresh)
        × (get_key_metadata p k'.nvm ≡ ok (some fresh))
        × (resolve_key p k'.nvm ≡ ok new_key_id)
        × (lookup new_key_id k'.hsm.key_store ≡ some (symmetric (lib.urandom k.hsm.draws 32)))
        × (read (key_meta_key p) null k'.nvm
            ≡ object (
                field "pdu_id" (text p) (
                  field "key_id" (text new_key_id) (
                    field "version"
                      (integer (old.version + 1))
                      (field "lifecycle_state" (text "ACTIVE") end)))))
        × ((j : String) (default : Value)
            → key_meta_key p ≢ j
            → read j default k'.nvm ≡ read j default k.nvm)
        × ((j : String) → new_key_id ≢ j → lookup j k'.hsm.key_store ≡ lookup j k.hsm.key_store)
  rotate_key_lem p new_key_id k old found up =
      let fresh : KeyMetadata = record {
        pdu_id = p;
        key_id = new_key_id;
        version = old.version + 1;
        lifecycle_state = active;
      } in
      let done = install_up fresh k up in
      let saved : get_key_metadata p (install lib fresh k).0.nvm ≡ ok (some fresh) =
        rw (done.memory) (get_saved fresh k.nvm) in
      rw (rotate_found p new_key_id k old found) (
        done.answer,
        saved,
        resolve_found p (install lib fresh k).0.nvm fresh saved,
        done.key,
        ap (read (key_meta_key p) null) done.memory
            ∙ read-save_self p new_key_id (old.version + 1) null k.nvm,
        λ j default ne. ap (read j default) done.memory ∙ read-save fresh j default k.nvm ne,
        done.others,
      )
