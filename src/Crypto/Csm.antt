-- ===== src/Crypto/Csm.antt =====
-- sim/csm.py and sim/hmac_crypto.py: crypto jobs with a state, and streaming hashes.
use sec_oc.Base.{String, Bool, Option, none, some, List, [], ◌∷◌, ◌++◌, take, length}
use sec_oc.Base.{Method, Outcome, ok, raised, csm_error, and_then}
use sec_oc.Base.Bytes.{Bytes, bytes_eq}
use sec_oc.Base.Dict.{Dict, lookup, insert, erase, get_or}
use sec_oc.Crypto.Library.{Library}
use sec_oc.Crypto.Hsm.{Hsm}
use sec_oc.Crypto.Cryif

pub data CsmState : Type 0 where
  idle active finished failed : CsmState

pub record Csm : Type 0 where
  pub hsm : Hsm
  pub state : CsmState
  pub hash_contexts : Dict (List Bytes)

-- `CSM.__init__`
unfoldable pub new_csm : Hsm → Csm
new_csm hsm = record { hsm = hsm; state = idle; hash_contexts = [] }

unfoldable pub end_job : {A : Type 0} → Csm → Hsm × Outcome A → Csm × Outcome A
end_job c (hsm, ok result) = (record c { hsm = hsm; state = finished }, ok result)
end_job c (hsm, raised e) =
    (record c { hsm = hsm; state = failed }, raised (csm_error "job_failed"))

-- The body that the four job methods share: active, the call, then finished or failed.
unfoldable pub run_job : {A : Type 0} → Method Hsm A → Method Csm A
unfolding end_job
run_job call c = let started = record c { state = active } in end_job started (call started.hsm)

unfoldable pub join : List Bytes → Bytes
join [] = []
join (chunk ∷ chunks) = chunk ++ join chunks

module _ (lib : Library) where
  -- `verify_signature`
  pub verify_signature : Bytes → Bytes → String → Method Csm Bool
  verify_signature message signature key_id =
      run_job (Cryif.ecdsa_verify lib message signature key_id)

  -- `compute_hash`
  pub compute_hash : Bytes → Method Csm Bytes
  compute_hash message = run_job (Cryif.sha256 lib message)

  -- `compute_mac`
  unfoldable pub compute_mac : String → Bytes → Method Csm Bytes
  compute_mac key_id message = run_job (Cryif.hmac_sha256 lib key_id message)

  -- `wrap_key`
  pub wrap_key : String → Bytes → Method Csm Bytes
  wrap_key key_id plaintext c =
      and_then (run_job (Cryif.aes_gcm_encrypt lib key_id plaintext) c)
        λ (ct, nonce, tag) c'. (c', ok (ct ++ (nonce ++ tag)))

  unfoldable pub finish_context : Option (List Bytes) → String → Method Csm Bytes
  finish_context none ctx_id c = (c, raised (csm_error "no_context"))
  finish_context (some chunks) ctx_id c =
      let (hsm, result) = Cryif.sha256 lib (join chunks) c.hsm in
      (record c { hsm = hsm; hash_contexts = erase ctx_id c.hash_contexts }, result)

  -- `hash_finish`: outside the job states, and an HSM error passes as it is.
  unfoldable pub hash_finish : String → Method Csm Bytes
  unfolding finish_context join
  hash_finish ctx_id c = finish_context (lookup ctx_id c.hash_contexts) ctx_id c

  -- `HmacCrypto.generate_mac`
  unfoldable pub generate_mac : String → Bytes → Method Csm Bytes
  generate_mac key_id message = compute_mac key_id message

  -- `HmacCrypto.verify_mac`
  pub verify_mac : String → Bytes → Bytes → Method Csm Bool
  verify_mac key_id message mac c =
      and_then (generate_mac key_id message c)
        λ expected c'. (c', ok (bytes_eq (take (length mac) expected) mac))

-- `hash_update`
unfoldable pub hash_update : String → Bytes → Csm → Csm
hash_update ctx_id chunk c = record c {
  hash_contexts = insert ctx_id (get_or ctx_id [] c.hash_contexts ++ chunk ∷ []) c.hash_contexts;
}
