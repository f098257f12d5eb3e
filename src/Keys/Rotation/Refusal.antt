-- ===== src/Keys/Rotation/Refusal.antt =====
-- What a key rotation of sim/key_manager.py leaves alone, and what it does when it raises.
use sec_oc.Base.{◌+◌, ◌≡◌, ◌≢◌, refl, ap, ◌∙◌, String, true, Option, none, some, arith, eq_iff}
use sec_oc.Base.{
  Outcome, Exception, ok, raised, key_error, hsm_error, ◌>>=◌, ◌⊎◌, inl, inr, Bool-cases,
}
use sec_oc.Crypto.Library.{Library}
use sec_oc.Keys.Metadata.{KeyMetadata, active, get_key_metadata, save_key_metadata, get-save}
use sec_oc.Keys.{Keyring, rotate_key, install, current_metadata, or_key_error}
use sec_oc.Keys.Rotation.{install_up, install_down, rotate_found}

module _ (lib : Library) where
  pub rotate_key_down :
      (p new_key_id : String) (k : Keyring) (old : KeyMetadata)
      → get_key_metadata p k.nvm ≡ ok (some old)
      → k.hsm.fail_mode ≡ true
      → (rotate_key lib p new_key_id k).1 ≡ raised (hsm_error "unavailable")
  rotate_key_down p new_key_id k old found down =
      rw (rotate_found lib p new_key_id k old found) (install_down lib _ k down).1

  install_memory :
      (m : KeyMetadata) (k : Keyring)
      → ((install lib m k).0.nvm ≡ k.nvm)
        ⊎ (((install lib m k).0.nvm ≡ save_key_metadata m k.nvm) × ((install lib m k).1 ≡ ok m))
  install_memory m k = elim (Bool-cases k.hsm.fail_mode) [
    | inl down ↦ inl (ap (λ j. j.nvm) (install_down lib m k down).0)
    | inr up ↦ let done = install_up lib m k up in inr (done.memory, done.answer)
  ]

  found_cases :
      (o : Outcome (Option KeyMetadata))
      → ((m : KeyMetadata) × (o ≡ ok (some m)))
        ⊎ ((e : Exception) × ((o >>= or_key_error) ≡ raised e))
  unfolding or_key_error
  found_cases (ok (some m)) = inl (m, refl)
  found_cases (ok none) = inr (key_error, refl)
  found_cases (raised e) = inr (e, refl)

  rotate_missing :
      (p new_key_id : String) (k : Keyring) (e : Exception)
      → (get_key_metadata p k.nvm >>= or_key_error) ≡ raised e
      → (rotate_key lib p new_key_id k).0 ≡ k
  unfolding rotate_key current_metadata
  rotate_missing p new_key_id k e h = rw h

  -- What a rotation leaves in memory: what was there, or that and the new record.
  rotate_memory :
      (p new_key_id : String) (k : Keyring)
      → ((rotate_key lib p new_key_id k).0.nvm ≡ k.nvm)
        ⊎ ((m : KeyMetadata) × (m.pdu_id ≡ p)
            × ((rotate_key lib p new_key_id k).0.nvm ≡ save_key_metadata m k.nvm)
            × ((rotate_key lib p new_key_id k).1 ≡ ok m))
  rotate_memory p new_key_id k = elim (found_cases (get_key_metadata p k.nvm)) [
    | inl (old, found) ↦
        let fresh : KeyMetadata = record {
          pdu_id = p;
          key_id = new_key_id;
          version = old.version + 1;
          lifecycle_state = active;
        } in
        rw (rotate_found lib p new_key_id k old found) (elim (install_memory fresh k) [
          | inl same ↦ inl same
          | inr (saved, done) ↦ inr (fresh, refl, saved, done)
        ])
    | inr (e, missing) ↦ inl (ap (λ j. j.nvm) (rotate_missing p new_key_id k e missing))
  ]

  -- Rotation leaves the metadata of every other PDU as it was, whether it succeeds or raises.
  pub rotate_key_others :
      (p new_key_id : String) (k : Keyring) (q : String)
      → p ≢ q
      → get_key_metadata q (rotate_key lib p new_key_id k).0.nvm ≡ get_key_metadata q k.nvm
  rotate_key_others p new_key_id k q ne = elim (rotate_memory p new_key_id k) [
    | inl same ↦ ap (get_key_metadata q) same
    | inr (m, name, saved, _) ↦
        ap (get_key_metadata q) saved ∙ ground (arith, get-save m q k.nvm, eq_iff m.pdu_id q)
  ]

  rotate_found_raises :
      (p new_key_id : String) (k : Keyring) (old : KeyMetadata) (e : Exception)
      → get_key_metadata p k.nvm ≡ ok (some old)
      → (rotate_key lib p new_key_id k).1 ≡ raised e
      → (rotate_key lib p new_key_id k).0 ≡ k
  rotate_found_raises p new_key_id k old e found h =
      let fresh : KeyMetadata = record {
        pdu_id = p;
        key_id = new_key_id;
        version = old.version + 1;
        lifecycle_state = active;
      } in
      let same = rotate_found lib p new_key_id k old found in
      elim (Bool-cases k.hsm.fail_mode) [
        | inl down ↦ ap (λ x. x.0) same ∙ (install_down lib fresh k down).0
        | inr up ↦
            let answered = ap (λ x. x.1) same ∙ (install_up lib fresh k up).answer in absurd (cc)
      ]

  -- A rotation leaves the metadata of every other PDU as it was; and one that raises, because the
  -- metadata of the PDU is missing or cannot be read, or the HSM is out of service, has changed
  -- neither the memory nor the HSM.
  pub rotate_key_raises :
      (p new_key_id : String) (k : Keyring)
      → ((q : String)
          → p ≢ q
          → get_key_metadata q (rotate_key lib p new_key_id k).0.nvm ≡ get_key_metadata q k.nvm)
        × ((e : Exception)
            → (rotate_key lib p new_key_id k).1 ≡ raised e
            → (rotate_key lib p new_key_id k).0 ≡ k)
  rotate_key_raises p new_key_id k = (
    rotate_key_others p new_key_id k,
    λ e h. elim (found_cases (get_key_metadata p k.nvm)) [
      | inl (old, found) ↦ rotate_found_raises p new_key_id k old e found h
      | inr (d, missing) ↦ rotate_missing p new_key_id k d missing
    ],
  )
