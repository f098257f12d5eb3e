-- ===== src/Crypto/Jobs.antt =====
-- How a job of sim/csm.py ends, and what a streaming hash returns.
use sec_oc.Base.{
  ◌≡◌, refl, ap, ◌∙◌, String, false, none, some, List, [], ◌∷◌, ◌++◌, append_assoc, append-nil,
}
use sec_oc.Base.{Method, Outcome, Exception, ok, raised, csm_error}
use sec_oc.Base.Bytes.{Bytes}
use sec_oc.Base.Dict.{lookup, get_or, lookup-insert_self, get_or_found, get_or_missing}
use sec_oc.Crypto.Library.{Library}
use sec_oc.Crypto.Hsm.{Hsm}
use sec_oc.Crypto.Hsm
use sec_oc.Crypto.Cryif
use sec_oc.Crypto.Csm.{
  Csm, finished, failed, run_job, active, end_job, join, hash_update, hash_finish,
}

-- What a job that began at `c` has done, by how it ended.
abbrev pub JobEnds : {A : Type 0} → Method Hsm A → Csm → Csm × Outcome A → Type 0
JobEnds call c (c', ok result) =
    (call c.hsm ≡ (c'.hsm, ok result))
    × (c'.state ≡ finished)
    × (c'.hash_contexts ≡ c.hash_contexts)
JobEnds call c (c', raised e) =
    ((x : Exception) × (call c.hsm ≡ (c'.hsm, raised x)))
    × (c'.state ≡ failed)
    × (c'.hash_contexts ≡ c.hash_contexts)
    × (e ≡ csm_error "job_failed")

end_job-JobEnds :
    {A : Type 0} (call : Method Hsm A) (c : Csm) (r : Hsm × Outcome A)
    → call c.hsm ≡ r
    → JobEnds call c (end_job (record c { state = active }) r)
unfolding end_job
end_job-JobEnds call c (h, ok result) e = (e, refl, refl)
end_job-JobEnds call c (h, raised x) e = ((x, e), refl, refl, refl)

-- Every job ends finished with the value of its call, or failed with the one error that stands for
-- whatever the call raised. The streaming hashes are not touched.
pub run_job-JobEnds : {A : Type 0} (call : Method Hsm A) (c : Csm) → JobEnds call c (run_job call c)
unfolding run_job
run_job-JobEnds call c = end_job-JobEnds call c (call c.hsm) refl

-- `hash_update` with each chunk in turn.
pub hash_updates : String → List Bytes → Csm → Csm
hash_updates ctx_id [] c = c
hash_updates ctx_id (chunk ∷ chunks) c = hash_updates ctx_id chunks (hash_update ctx_id chunk c)

module _ (lib : Library) (ctx_id : String) where
  lookup-hash_update :
      (chunk : Bytes) (c : Csm)
      → lookup ctx_id (hash_update ctx_id chunk c).hash_contexts
        ≡ some (get_or ctx_id [] c.hash_contexts ++ chunk ∷ [])
  unfolding hash_update
  lookup-hash_update chunk c = lookup-insert_self ctx_id _ c.hash_contexts

  lookup-hash_updates :
      (chunks seen : List Bytes) (c : Csm)
      → lookup ctx_id c.hash_contexts ≡ some seen
      → lookup ctx_id (hash_updates ctx_id chunks c).hash_contexts ≡ some (seen ++ chunks)
  unfolding hash_updates
  lookup-hash_updates [] seen c e = rw append-nil e
  lookup-hash_updates (chunk ∷ chunks) seen c e =
      lookup-hash_updates chunks (seen ++ chunk ∷ []) (hash_update ctx_id chunk c) (
        lookup-hash_update chunk c
        ∙ ap some (ap (λ xs. xs ++ chunk ∷ []) (get_or_found ctx_id [] seen c.hash_contexts e)))
      ∙ ap some (append_assoc seen (chunk ∷ []) chunks)

  up-hash_updates : (chunks : List Bytes) (c : Csm) → (hash_updates ctx_id chunks c).hsm ≡ c.hsm
  unfolding hash_updates hash_update
  up-hash_updates [] c = refl
  up-hash_updates (chunk ∷ chunks) c = up-hash_updates chunks (hash_update ctx_id chunk c)

  finish_found :
      (c : Csm) (seen : List Bytes)
      → lookup ctx_id c.hash_contexts ≡ some seen
      → c.hsm.fail_mode ≡ false
      → (hash_finish lib ctx_id c).1 ≡ ok (lib.sha256_digest (join seen))
  unfolding hash_finish Cryif.sha256 Hsm.sha256
  finish_found c seen e up = rw (e, up)

  -- A streaming hash of one chunk or more, begun with no open context while the HSM answers, ends
  -- with the digest of the chunks joined in order.
  pub hash_finish-hash_updates :
      (chunk : Bytes) (chunks : List Bytes) (c : Csm)
      → lookup ctx_id c.hash_contexts ≡ none
      → c.hsm.fail_mode ≡ false
      → (hash_finish lib ctx_id (hash_updates ctx_id (chunk ∷ chunks) c)).1
        ≡ ok (lib.sha256_digest (join (chunk ∷ chunks)))
  unfolding hash_updates
  hash_finish-hash_updates chunk chunks c fresh up =
      finish_found (hash_updates ctx_id chunks (hash_update ctx_id chunk c)) (chunk ∷ chunks)
        (lookup-hash_updates chunks (chunk ∷ []) (hash_update ctx_id chunk c) (
          lookup-hash_update chunk c
          ∙ ap (λ xs. some (xs ++ chunk ∷ [])) (get_or_missing ctx_id [] c.hash_contexts fresh)))
        (ap (λ (h : Hsm). h.fail_mode) (up-hash_updates (chunk ∷ chunks) c) ∙ up)
