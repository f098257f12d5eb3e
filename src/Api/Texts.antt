-- ===== src/Api/Texts.antt =====
-- Bytes as the texts of api/routers/secoc.py: which byte strings `fromhex` reads back.
use sec_oc.Base.{ℕ, zero, suc, ◌/◌, ◌%◌, ◌≡◌, refl, [], ◌∷◌, ◌++◌, arith, take}
use sec_oc.Base.{ok}
use sec_oc.Base.Bytes.{Bytes, big_endian}
use sec_oc.Crypto.Library.{Library}
use sec_oc.Nvm.Hex.{hex, from_hex-hex, AllBytes}
use sec_oc.Api.Endpoints.{parse_hex}

-- The digests of the package are bytes.
pub record HasBytes (lib : Library) : Type 0 where
  pub hmac_bytes : (key text : Bytes) → AllBytes (lib.hmac_digest key text)

pub AllBytes-append : (xs ys : Bytes) → AllBytes xs → AllBytes ys → AllBytes (xs ++ ys)
AllBytes-append [] ys h k = k
AllBytes-append (x ∷ xs) ys h k = (h.0, AllBytes-append xs ys h.1 k)

pub AllBytes-take : (n : ℕ) (xs : Bytes) → AllBytes xs → AllBytes (take n xs)
AllBytes-take zero xs h = tt
AllBytes-take (suc n) [] h = tt
AllBytes-take (suc n) (x ∷ xs) h = (h.0, AllBytes-take n xs h.1)

pub AllBytes-big_endian : (n v : ℕ) → AllBytes (big_endian n v)
unfolding big_endian
AllBytes-big_endian zero v = tt
AllBytes-big_endian (suc n) v =
    AllBytes-append (big_endian n (v / 256)) (v % 256 ∷ []) (AllBytes-big_endian n (v / 256))
      (omega arith, tt)

pub parse_hex-hex : (bytes : Bytes) → AllBytes bytes → parse_hex (hex bytes) ≡ ok bytes
unfolding parse_hex
parse_hex-hex bytes h = rw (from_hex-hex bytes h) refl
