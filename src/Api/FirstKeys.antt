-- ===== src/Api/FirstKeys.antt =====
-- One turn of `_provision_keys` in api/state.py: the first key of a PDU that has none.
use sec_oc.Base.{
  ◌≡◌, ◌≢◌, refl, ap, inl, inr, String, false, some, arith, Bool-cases, str_eq, eq_iff,
  if◌then◌else◌,
}
use sec_oc.Base.{Outcome, ok, raised, key_error}
use sec_oc.Base.Bytes.{Bytes}
use sec_oc.Base.Dict.{insert, lookup, lookup-insert, lookup-insert_self}
use sec_oc.Crypto.Hsm.{Hsm, symmetric}
use sec_oc.Keys.{resolve_key, provision_key}
use sec_oc.Keys.Metadata.{save_key_metadata, read-save}
use sec_oc.Keys.Provision.{first_key, with_fresh_key, provision_key_up, resolve_key-save}
use sec_oc.Nvm.{Nvm, read}
use sec_oc.Nvm.Keys.{key_meta_key}
use sec_oc.Nvm.Values.{Value}
use sec_oc.Secoc.Objects.{Setup}
use sec_oc.Api.State.{AppState, on_keys}

-- The memory says of the PDU that it has a key, or that it has none.
pub data IsReadable (q : String) (nvm : Nvm) : Type 0 where
  has_key : {key_id : String} → resolve_key q nvm ≡ ok key_id → IsReadable q nvm
  has_none : resolve_key q nvm ≡ raised key_error → IsReadable q nvm

-- The key that the memory names, or else the one of the profile.
unfoldable pub key_or : String → Outcome String → String
key_or default (ok key_id) = key_id
key_or default (raised e) = default

-- The HSM has a symmetric key under this identifier.
abbrev pub IsHeld : String → Hsm → Type 0
IsHeld key_id h = (key : Bytes) × (lookup key_id h.key_store ≡ some (symmetric key))

IsHeld-insert :
    (j : String) (key_id : String) (fresh : Bytes) (h h' : Hsm)
    → h'.key_store ≡ insert key_id (symmetric fresh) h.key_store
    → IsHeld j h
    → IsHeld j h'
IsHeld-insert j key_id fresh h h' added (key, stored) = elim (Bool-cases (str_eq key_id j)) [
  | inl same ↦ (fresh, ground (arith, lookup-insert key_id j (symmetric fresh) h.key_store))
  | inr other ↦ (key, ground (arith, lookup-insert key_id j (symmetric fresh) h.key_store))
]

-- What a part of the loop leaves.
pub record Kept (a b : AppState) : Type 0 where
  pub up : b.stack.csm.hsm.fail_mode ≡ false
  pub profiles : b.stack.profiles ≡ a.stack.profiles
  pub stays :
      (q : String) {key_id : String}
      → resolve_key q a.stack.nvm ≡ ok key_id
      → resolve_key q b.stack.nvm ≡ ok key_id
  pub others :
      (j : String) (default : Value)
      → ((q : String) → key_meta_key q ≢ j)
      → read j default b.stack.nvm ≡ read j default a.stack.nvm
  pub held : (j : String) → IsHeld j a.stack.csm.hsm → IsHeld j b.stack.csm.hsm
  pub readable : (q : String) → IsReadable q a.stack.nvm → IsReadable q b.stack.nvm

-- The turn of the loop for a PDU and the key of its profile.
pub record Provided (p key_id : String) (a b : AppState) : Type 0 where
  pub kept : Kept a b
  pub this : resolve_key p b.stack.nvm ≡ ok (key_or key_id (resolve_key p a.stack.nvm))
  pub rest : (q : String) → p ≢ q → resolve_key q b.stack.nvm ≡ resolve_key q a.stack.nvm
  pub fresh : resolve_key p a.stack.nvm ≡ raised key_error → IsHeld key_id b.stack.csm.hsm

-- The application with a first key for the PDU.
abbrev pub with_first_key : Setup → String → String → AppState → AppState
with_first_key env p key_id a = record a {
  stack = record a.stack {
    nvm = save_key_metadata (first_key p key_id) a.stack.nvm;
    csm = record a.stack.csm { hsm = with_fresh_key env.lib key_id a.stack.csm.hsm };
  };
}

module _ (env : Setup) (p key_id : String) (a : AppState)
    (up : a.stack.csm.hsm.fail_mode ≡ false) where
  pub first_key_made :
      on_keys (provision_key env.lib p key_id) a
      ≡ (with_first_key env p key_id a, ok (first_key p key_id))
  first_key_made =
      rw
        (provision_key_up env.lib p key_id (record { nvm = a.stack.nvm; hsm = a.stack.csm.hsm }) up)
        refl

  resolves_first :
      (q : String)
      → resolve_key q (with_first_key env p key_id a).stack.nvm
        ≡ (if str_eq p q then ok key_id else resolve_key q a.stack.nvm)
  resolves_first q = resolve_key-save (first_key p key_id) q a.stack.nvm

  module _ (missing : resolve_key p a.stack.nvm ≡ raised key_error) where
    first_stays :
        (q : String) {k : String}
        → resolve_key q a.stack.nvm ≡ ok k
        → resolve_key q (with_first_key env p key_id a).stack.nvm ≡ ok k
    first_stays q {k} found = elim (Bool-cases (str_eq p q)) [
      | inl same ↦ let e = ap (λ j. resolve_key j a.stack.nvm) ((eq_iff p q).0 same) in absurd (cc)
      | inr other ↦ ground (arith, resolves_first q)
    ]

    first-IsReadable :
        (q : String)
        → IsReadable q a.stack.nvm
        → IsReadable q (with_first_key env p key_id a).stack.nvm
    first-IsReadable q (has_key found) = has_key (first_stays q found)
    first-IsReadable q (has_none absent) = elim (Bool-cases (str_eq p q)) [
      | inl same ↦ has_key {key_id = key_id} (ground (arith, resolves_first q))
      | inr other ↦ has_none (ground (arith, resolves_first q))
    ]

    first_this :
        resolve_key p (with_first_key env p key_id a).stack.nvm
        ≡ ok (key_or key_id (resolve_key p a.stack.nvm))
    unfolding key_or
    first_this = rw missing (ground (arith, resolves_first p, eq_iff p p))

    pub first_key-Provided : Provided p key_id a (with_first_key env p key_id a)
    first_key-Provided = record {
      kept = record {
        up = up;
        profiles = refl;
        stays = first_stays;
        others = λ j default ne. read-save (first_key p key_id) j default a.stack.nvm (ne p);
        held = λ j.
            IsHeld-insert j key_id (env.lib.urandom a.stack.csm.hsm.draws 32) a.stack.csm.hsm
              (with_fresh_key env.lib key_id a.stack.csm.hsm) refl;
        readable = first-IsReadable;
      };
      this = first_this;
      rest = λ q ne. ground (arith, resolves_first q, eq_iff p q);
      fresh = λ _. (
        env.lib.urandom a.stack.csm.hsm.draws 32,
        lookup-insert_self key_id _ a.stack.csm.hsm.key_store,
      );
    }
