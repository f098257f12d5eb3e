-- ===== src/Crypto/Macs.antt =====
-- What a MAC job of sim/csm.py computes: with one key identifier, the digest under one key.
use sec_oc.Base.{ℕ, ◌≡◌, String, false, Option, none, some, [], arith}
use sec_oc.Base.{
  ok, raised, csm_error, hsm_error, Outcome, inl, inr, Bool-cases, ◌+◌, true, refl, sym, ap,
}
use mathlib.Core.Path.{subst}
use sec_oc.Base.Bytes.{Bytes}
use sec_oc.Base.Dict.{lookup, lookup-insert_self, insert}
use sec_oc.Crypto.Library.{Library}
use sec_oc.Crypto.Hsm.{Hsm, Key, symmetric, private_key}
use sec_oc.Crypto.Hsm
use sec_oc.Crypto.Cryif
use sec_oc.Crypto.Csm.{Csm, active, finished, failed, run_job, end_job, compute_mac}

-- The HSM answers, and holds a symmetric key under the identifier.
pub record HoldsKey (c : Csm) (key_id : String) (key : Bytes) : Type 0 where
  pub stored : lookup key_id c.hsm.key_store ≡ some (symmetric key)
  pub available : c.hsm.fail_mode ≡ false

module _ (lib : Library) (key_id : String) where
  pub hmac_held :
      (h : Hsm) (key message : Bytes)
      → lookup key_id h.key_store ≡ some (symmetric key)
      → h.fail_mode ≡ false
      → Hsm.hmac_sha256 lib key_id message h ≡ (h, ok (lib.hmac_digest key message))
  unfolding Hsm.hmac_sha256
  hmac_held h key message stored up = rw (up, stored)

  -- With a key in place a job computes its digest, and changes nothing but the job state.
  pub compute_mac_held :
      (c : Csm) (key message : Bytes)
      → HoldsKey c key_id key
      → compute_mac lib key_id message c
        ≡ (record c { state = finished }, ok (lib.hmac_digest key message))
  unfolding compute_mac run_job Cryif.hmac_sha256
  compute_mac_held c key message held = rw (hmac_held c.hsm key message held.stored held.available)

  -- The key that a MAC job uses: the one stored, or the one it makes up.
  key_or_new : ℕ → Option Key → Bytes
  key_or_new draws none = lib.urandom draws 32
  key_or_new draws (some (symmetric key)) = key
  key_or_new draws (some (private_key key)) = []

  pub mac_key : Hsm → Bytes
  mac_key h = key_or_new h.draws (lookup key_id h.key_store)

  hmac_made :
      (h : Hsm) (message full : Bytes) (h' : Hsm)
      → Hsm.hmac_sha256 lib key_id message h ≡ (h', ok full)
      → (lookup key_id h'.key_store ≡ some (symmetric (mac_key h)))
        × (h'.fail_mode ≡ false)
        × (full ≡ lib.hmac_digest (mac_key h) message)
  unfolding Hsm.hmac_sha256 mac_key key_or_new
  hmac_made h message full h' e =
      ground (arith, lookup-insert_self key_id (symmetric (lib.urandom h.draws 32)) h.key_store)

  run_job_made :
      (c : Csm) (message full : Bytes) (c' : Csm)
      → compute_mac lib key_id message c ≡ (c', ok full)
      → Hsm.hmac_sha256 lib key_id message c.hsm ≡ (c'.hsm, ok full)
  unfolding compute_mac run_job Cryif.hmac_sha256
  run_job_made c message full c' e = ground arith

  -- A job that ends well leaves its key in place, and its result is the digest under that key.
  pub compute_mac_made :
      (c : Csm) (message full : Bytes) (c' : Csm)
      → compute_mac lib key_id message c ≡ (c', ok full)
      → HoldsKey c' key_id (mac_key c.hsm) × (full ≡ lib.hmac_digest (mac_key c.hsm) message)
  compute_mac_made c message full c' e =
      let (stored, up, digest) =
        hmac_made c.hsm message full c'.hsm (run_job_made c message full c' e) in
      (record { stored = stored; available = up }, digest)

  -- What a job leaves of the crypto stack, and its result, said without its control flow.
  pub data Job (c : Csm) (message : Bytes) : Csm → Outcome Bytes → Type 0 where
    -- the HSM is out of service
    unavailable :
        c.hsm.fail_mode ≡ true
        → Job c message (record c { state = failed }) (raised (csm_error "job_failed"))
    -- the key is there
    stored :
        {key : Bytes}
        → c.hsm.fail_mode ≡ false
        → lookup key_id c.hsm.key_store ≡ some (symmetric key)
        → Job c message (record c { state = finished }) (ok (lib.hmac_digest key message))
    -- a private key is there
    wrong_type :
        {key : Bytes}
        → c.hsm.fail_mode ≡ false
        → lookup key_id c.hsm.key_store ≡ some (private_key key)
        → Job c message (record c { state = failed }) (raised (csm_error "job_failed"))
    -- no key is there: one is made up, and only it is new
    made :
        c.hsm.fail_mode ≡ false
        → lookup key_id c.hsm.key_store ≡ none
        → Job c message
            (record c {
              state = finished;
              hsm = record c.hsm {
                key_store = insert key_id (symmetric (lib.urandom c.hsm.draws 32)) c.hsm.key_store;
                draws = c.hsm.draws + 1;
              };
            })
            (ok (lib.hmac_digest (lib.urandom c.hsm.draws 32) message))

  Ran : Csm → Bytes → Csm × Outcome Bytes → Type 0
  Ran c message x = Job c message x.0 x.1

  -- With the HSM's answer known, so is the job's.
  job_from :
      (c : Csm) (message : Bytes) (answer : Hsm × Outcome Bytes)
      → Hsm.hmac_sha256 lib key_id message c.hsm ≡ answer
      → compute_mac lib key_id message c ≡ end_job (record c { state = active }) answer
  unfolding compute_mac run_job Cryif.hmac_sha256
  job_from c message answer e = ap (end_job (record c { state = active })) e

  hmac_answer : Hsm → Bytes → Option Key → Hsm × Outcome Bytes
  hmac_answer h message none = (
    record h {
      key_store = insert key_id (symmetric (lib.urandom h.draws 32)) h.key_store;
      draws = h.draws + 1;
    },
    ok (lib.hmac_digest (lib.urandom h.draws 32) message),
  )
  hmac_answer h message (some (symmetric key)) = (h, ok (lib.hmac_digest key message))
  hmac_answer h message (some (private_key key)) = (h, raised (hsm_error "wrong_key_type"))

  hmac_up :
      (h : Hsm) (message : Bytes) (o : Option Key)
      → h.fail_mode ≡ false
      → lookup key_id h.key_store ≡ o
      → Hsm.hmac_sha256 lib key_id message h ≡ hmac_answer h message o
  unfolding Hsm.hmac_sha256 hmac_answer
  hmac_up h message none up e = rw (up, e) refl
  hmac_up h message (some (symmetric key)) up e = rw (up, e) refl
  hmac_up h message (some (private_key key)) up e = rw (up, e) refl

  hmac_down :
      (h : Hsm) (message : Bytes)
      → h.fail_mode ≡ true
      → Hsm.hmac_sha256 lib key_id message h ≡ (h, raised (hsm_error "unavailable"))
  unfolding Hsm.hmac_sha256
  hmac_down h message down = rw down refl

  hmac_answer-Ran :
      (c : Csm) (message : Bytes) (o : Option Key)
      → c.hsm.fail_mode ≡ false
      → lookup key_id c.hsm.key_store ≡ o
      → Ran c message (end_job (record c { state = active }) (hmac_answer c.hsm message o))
  unfolding Ran end_job hmac_answer
  hmac_answer-Ran c message none up e = Job.made up e
  hmac_answer-Ran c message (some (symmetric key)) up e = Job.stored up e
  hmac_answer-Ran c message (some (private_key key)) up e = Job.wrong_type up e

  pub compute_mac-Job :
      (c : Csm) (message : Bytes)
      → Job c message (compute_mac lib key_id message c).0 (compute_mac lib key_id message c).1
  unfolding Ran end_job
  compute_mac-Job c message = elim (Bool-cases c.hsm.fail_mode) [
    | inl down ↦
        subst (Ran c message) (sym (job_from c message _ (hmac_down c.hsm message down)))
          (Job.unavailable down)
    | inr up ↦
        subst (Ran c message) (sym (job_from c message _ (hmac_up c.hsm message _ up refl)))
          (hmac_answer-Ran c message (lookup key_id c.hsm.key_store) up refl)
  ]

  -- Once a MAC has been computed with a key identifier, computing it again over any bytes gives the
  -- digest under the same key: a key made up on first use is kept.
  pub compute_mac_stable :
      (c c' : Csm) (first second full : Bytes)
      → compute_mac lib key_id first c ≡ (c', ok full)
      → compute_mac lib key_id second c'
        ≡ (record c' { state = finished }, ok (lib.hmac_digest (mac_key c.hsm) second))
  compute_mac_stable c c' first second full e =
      compute_mac_held c' (mac_key c.hsm) second (compute_mac_made c first full c' e).0
