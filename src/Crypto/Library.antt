-- ===== src/Crypto/Library.antt =====
-- What the cryptographic stack takes from packages that it does not implement.
use sec_oc.Base.{ℕ, ◌≡◌, Bool, Option, length}
use sec_oc.Base.Bytes.{Bytes}

-- Keys are carried as bytes, a private key in some serialised form. The operating system's random
-- bytes are a function of the number of the draw and of how many bytes are drawn.
pub record Library : Type 0 where
  pub urandom : ℕ → ℕ → Bytes
  -- hashlib and hmac
  pub sha256_digest : Bytes → Bytes
  pub hmac_digest : Bytes → Bytes → Bytes
  -- ECDSA over P-256; key generation and signing use randomness
  pub ec_generate : ℕ → Bytes
  pub ec_public_pem : Bytes → Bytes
  pub ec_sign : ℕ → Bytes → Bytes → Bytes
  pub ec_verify : Bytes → Bytes → Bytes → Bool
  -- AESGCM: the keys that its constructor accepts; key, nonce and text
  pub aes_accepts : Bytes → Bool
  pub aes_encrypt : Bytes → Bytes → Bytes → Bytes
  pub aes_decrypt : Bytes → Bytes → Bytes → Option Bytes

-- The documented lengths of digests and of random bytes.
pub record HasLengths (lib : Library) : Type 0 where
  pub hmac_length : (key text : Bytes) → length (lib.hmac_digest key text) ≡ 32
  pub urandom_length : (i n : ℕ) → length (lib.urandom i n) ≡ n
