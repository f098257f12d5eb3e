-- ===== src/Crypto/Hsm.antt =====
-- sim/hsm.py: the key store and the operations on it. Key bytes never leave this state.
use sec_oc.Base.{
  ℕ, ◌+◌, ◌-◌, String, Bool, false, Option, none, some, [], ◌++◌, take, drop, length, if◌then◌else◌,
}
use sec_oc.Base.{Method, Outcome, ok, raised, hsm_error, attribute_error, value_error}
use sec_oc.Base.Bytes.{Bytes}
use sec_oc.Base.Dict.{Dict, lookup, insert}
use sec_oc.Crypto.Library.{Library}

pub data Key : Type 0 where
  symmetric : Bytes → Key
  private_key : Bytes → Key

-- `draws` counts the uses of randomness so far.
pub record Hsm : Type 0 where
  pub key_store : Dict Key
  pub fail_mode : Bool
  pub draws : ℕ

-- `HSM.__init__`
unfoldable pub new_hsm : Hsm
new_hsm = record { key_store = []; fail_mode = false; draws = 0 }

-- `_check_fail()`, and then the rest of the method.
abbrev pub if_available : {A : Type 0} → Method Hsm A → Method Hsm A
if_available rest h = if h.fail_mode then (h, raised (hsm_error "unavailable")) else rest h

store_key : String → Key → Hsm → Hsm
store_key key_id key h = record h { key_store = insert key_id key h.key_store; draws = h.draws + 1 }

module _ (lib : Library) where
  -- `generate_key_pair`
  pub generate_key_pair : String → Method Hsm String
  unfolding store_key
  generate_key_pair key_id =
      if_available λ h. (store_key key_id (private_key (lib.ec_generate h.draws)) h, ok key_id)

  public_pem : Option Key → Outcome Bytes
  public_pem none = raised (hsm_error "unknown_key")
  public_pem (some (private_key k)) = ok (lib.ec_public_pem k)
  public_pem (some (symmetric k)) = raised attribute_error

  -- `get_public_key_pem`
  pub get_public_key_pem : String → Method Hsm Bytes
  unfolding public_pem
  get_public_key_pem key_id = if_available λ h. (h, public_pem (lookup key_id h.key_store))

  sign_with : Option Key → Bytes → Method Hsm Bytes
  sign_with none message h = (h, raised (hsm_error "unknown_key"))
  sign_with (some (private_key k)) message h =
      (record h { draws = h.draws + 1 }, ok (lib.ec_sign h.draws k message))
  sign_with (some (symmetric k)) message h = (h, raised attribute_error)

  -- `sign`
  pub sign : String → Bytes → Method Hsm Bytes
  unfolding sign_with
  sign key_id message = if_available λ h. sign_with (lookup key_id h.key_store) message h

  -- Any exception of the check, also of a key without a public half, counts as `False`.
  verify_with : Option Key → Bytes → Bytes → Outcome Bool
  verify_with none message signature = raised (hsm_error "unknown_key")
  verify_with (some (private_key k)) message signature = ok (lib.ec_verify k message signature)
  verify_with (some (symmetric k)) message signature = ok false

  -- `verify`
  pub verify : String → Bytes → Bytes → Method Hsm Bool
  unfolding verify_with
  verify key_id message signature =
      if_available λ h. (h, verify_with (lookup key_id h.key_store) message signature)

  -- `sha256`
  unfoldable pub sha256 : Bytes → Method Hsm Bytes
  sha256 message = if_available λ h. (h, ok (lib.sha256_digest message))

  -- The lazy provisioning of `hmac_sha256` and `aes_gcm_encrypt`: an unknown key is made up.
  provision : String → Option Key → Hsm → Hsm × Key
  unfolding store_key
  provision key_id (some key) h = (h, key)
  provision key_id none h =
      let key = symmetric (lib.urandom h.draws 32) in (store_key key_id key h, key)

  -- `ct[:-16]`, the nonce, and `ct[-16:]`
  split_tag : Bytes → Bytes → Bytes × Bytes × Bytes
  split_tag ct nonce = (take (length ct - 16) ct, nonce, drop (length ct - 16) ct)

  encrypt_with : Key → Bytes → Method Hsm (Bytes × Bytes × Bytes)
  unfolding split_tag
  encrypt_with (private_key k) plaintext h = (h, raised (hsm_error "wrong_key_type"))
  encrypt_with (symmetric k) plaintext h =
      let nonce = lib.urandom h.draws 12 in
      let h' = record h { draws = h.draws + 1 } in
      if lib.aes_accepts k
      then (h', ok (split_tag (lib.aes_encrypt k nonce plaintext) nonce))
      else (h', raised value_error)

  -- `aes_gcm_encrypt`
  pub aes_gcm_encrypt : String → Bytes → Method Hsm (Bytes × Bytes × Bytes)
  unfolding provision encrypt_with
  aes_gcm_encrypt key_id plaintext = if_available λ h.
      let (h', key) = provision key_id (lookup key_id h.key_store) h in
      encrypt_with key plaintext h'

  or_decrypt_failed : Option Bytes → Outcome Bytes
  or_decrypt_failed none = raised (hsm_error "decrypt_failed")
  or_decrypt_failed (some plaintext) = ok plaintext

  decrypt_with : Option Key → Bytes → Bytes → Bytes → Outcome Bytes
  unfolding or_decrypt_failed
  decrypt_with none ciphertext nonce tag = raised (hsm_error "unknown_key")
  decrypt_with (some (private_key k)) ciphertext nonce tag = raised (hsm_error "unknown_key")
  decrypt_with (some (symmetric k)) ciphertext nonce tag =
      if lib.aes_accepts k
      then or_decrypt_failed (lib.aes_decrypt k nonce (ciphertext ++ tag))
      else raised value_error

  -- `aes_gcm_decrypt`
  pub aes_gcm_decrypt : String → Bytes → Bytes → Bytes → Method Hsm Bytes
  unfolding decrypt_with
  aes_gcm_decrypt key_id ciphertext nonce tag =
      if_available λ h. (h, decrypt_with (lookup key_id h.key_store) ciphertext nonce tag)

  -- `generate_nonce`
  pub generate_nonce : Method Hsm Bytes
  generate_nonce = if_available λ h. (record h { draws = h.draws + 1 }, ok (lib.urandom h.draws 32))

  -- `generate_symmetric_key`
  unfoldable pub generate_symmetric_key : String → Method Hsm String
  unfolding store_key
  generate_symmetric_key key_id =
      if_available λ h. (store_key key_id (symmetric (lib.urandom h.draws 32)) h, ok key_id)

  hmac_with : Key → Bytes → Method Hsm Bytes
  hmac_with (symmetric k) message h = (h, ok (lib.hmac_digest k message))
  hmac_with (private_key k) message h = (h, raised (hsm_error "wrong_key_type"))

  -- `hmac_sha256`
  unfoldable pub hmac_sha256 : String → Bytes → Method Hsm Bytes
  unfolding provision hmac_with
  hmac_sha256 key_id message = if_available λ h.
      let (h', key) = provision key_id (lookup key_id h.key_store) h in hmac_with key message h'

-- `simulate_failure`
pub simulate_failure : Bool → Hsm → Hsm
simulate_failure fail h = record h { fail_mode = fail }
