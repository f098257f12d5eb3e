-- ===== src/Crypto/Cryif.antt =====
-- sim/cryif.py: the layer that routes each request to the HSM.
use sec_oc.Base.{String, Bool, Method}
use sec_oc.Base.Bytes.{Bytes}
use sec_oc.Crypto.Library.{Library}
use sec_oc.Crypto.Hsm
use sec_oc.Crypto.Hsm.{Hsm}

module _ (lib : Library) where
  unfoldable pub ecdsa_verify : Bytes → Bytes → String → Method Hsm Bool
  ecdsa_verify message signature key_id = Hsm.verify lib key_id message signature

  unfoldable pub sha256 : Bytes → Method Hsm Bytes
  sha256 message = Hsm.sha256 lib message

  unfoldable pub aes_gcm_encrypt : String → Bytes → Method Hsm (Bytes × Bytes × Bytes)
  aes_gcm_encrypt key_id plaintext = Hsm.aes_gcm_encrypt lib key_id plaintext

  unfoldable pub aes_gcm_decrypt : String → Bytes → Bytes → Bytes → Method Hsm Bytes
  aes_gcm_decrypt key_id ciphertext nonce tag = Hsm.aes_gcm_decrypt lib key_id ciphertext nonce tag

  unfoldable pub generate_nonce : Method Hsm Bytes
  generate_nonce = Hsm.generate_nonce lib

  unfoldable pub hmac_sha256 : String → Bytes → Method Hsm Bytes
  hmac_sha256 key_id message = Hsm.hmac_sha256 lib key_id message

  unfoldable pub generate_symmetric_key : String → Method Hsm String
  generate_symmetric_key key_id = Hsm.generate_symmetric_key lib key_id
