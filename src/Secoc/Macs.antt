-- ===== src/Secoc/Macs.antt =====
-- What the two functions of sim/authenticator.py compute for a configured PDU.
use sec_oc.Base.{ℕ, ◌+◌, ◌%◌, ◌≡◌, refl, sym, ap, ◌∙◌, String, Bool, ◌++◌, take, arith}
use sec_oc.Base.{
  ok, and_then, ok-injective, and_then-eq-ok, >>=-eq-ok, ◌>>=◌, Outcome-cases, inl, inr, Method,
}
use sec_oc.Base.{raised, raised-injective, Exception, Outcome, ◌⊎◌}
use sec_oc.Base.Bytes.{Bytes, big_endian, modulus, bytes_eq}
use sec_oc.Crypto.Csm.{Csm, compute_mac, finished}
use sec_oc.Crypto.Csm
use sec_oc.Crypto.Macs.{HoldsKey, mac_key, compute_mac_held, compute_mac_made, Job, compute_mac-Job}
use mathlib.Core.Path.{subst}
use sec_oc.Pdu.RoundTrip.{freshness_field_lem}
use sec_oc.Profile.{SecurityProfileEntry, Transport, get_profile, truncation_lengths}
use sec_oc.Secoc.Objects.{Setup, Stack}
use sec_oc.Secoc.Authenticator.{
  resolve_key_id, mac_input, full_mac, check_budget, generate_mac, verify_mac,
}

-- The profile of the PDU, and the lengths of the field and of the authenticator that it gives.
pub record HasProfile (p : String) (t : Transport) (s : Stack) (profile : SecurityProfileEntry)
    (n m : ℕ) : Type 0 where
  pub found : get_profile p s.profiles ≡ ok profile
  pub lengths : truncation_lengths profile t ≡ ok (n, m)

-- The MAC of a payload at a freshness value, under a key, cut to the length of the authenticator.
abbrev pub truncated_mac : Setup → Bytes → Bytes → ℕ → ℕ → ℕ → Bytes
truncated_mac env key payload v n m =
    take m (env.lib.hmac_digest key (payload ++ big_endian n (v % modulus n)))

-- The key that the stack uses under an identifier: the one stored, or the one it makes up on first
-- use.
pub stack_key : Setup → String → Stack → Bytes
stack_key env key_id s = mac_key env.lib key_id s.csm.hsm

module _ (env : Setup) (p : String) (t : Transport) (profile : SecurityProfileEntry) (n m : ℕ) where
  mac_input_lem :
      (s : Stack) (key_id : String) (a : Bytes) (v : ℕ)
      → HasProfile p t s profile n m
      → resolve_key_id env p profile s ≡ ok key_id
      → mac_input env p a v t s ≡ ok (key_id, a ++ big_endian n (v % modulus n), m)
  unfolding mac_input
  mac_input_lem s key_id a v c r = rw (c.found, r, c.lengths, freshness_field_lem v n)

  mac_input_step :
      (s : Stack) (a : Bytes) (v : ℕ)
      → HasProfile p t s profile n m
      → mac_input env p a v t s ≡ (
          resolve_key_id env p profile s >>= λ key_id.
          ok (key_id, a ++ big_endian n (v % modulus n), m))
  unfolding mac_input
  mac_input_step s a v c = rw (c.found, c.lengths, freshness_field_lem v n)

  mac_input_resolves :
      (s : Stack) (a : Bytes) (v : ℕ) (input : String × Bytes × ℕ)
      → HasProfile p t s profile n m
      → mac_input env p a v t s ≡ ok input
      → resolve_key_id env p profile s ≡ ok input.0
  mac_input_resolves s a v input c e =
      let (key_id, r, same) =
        >>=-eq-ok (resolve_key_id env p profile s)
          (λ key_id. ok (key_id, a ++ big_endian n (v % modulus n), m))
          (sym (mac_input_step s a v c) ∙ e) in
      r ∙ ap (λ i. ok i.0) (ok-injective same)

  full_mac_made :
      (s s' : Stack) (key_id : String) (message full : Bytes)
      → full_mac env key_id message s ≡ (s', ok full)
      → (s' ≡ record s { csm = s'.csm })
        × HoldsKey s'.csm key_id (stack_key env key_id s)
        × (full ≡ env.lib.hmac_digest (stack_key env key_id s) message)
        × Job env.lib key_id s.csm message s'.csm (ok full)
  unfolding full_mac stack_key Csm.generate_mac
  full_mac_made s s' key_id message full e =
      let made =
        compute_mac_made env.lib key_id s.csm message full s'.csm (ap (λ x. (x.0.csm, x.1)) e) in
      (
        sym (ap (λ x. x.0) e) ∙ ap (λ c. record s { csm = c }) (ap (λ x. x.0.csm) e),
        made.0,
        made.1,
        subst (λ (x : Csm × Outcome Bytes). Job env.lib key_id s.csm message x.0 x.1)
            (ap (λ x. (x.0.csm, x.1)) e) (compute_mac-Job env.lib key_id s.csm message),
      )

  full_mac_held :
      (s : Stack) (key_id : String) (key message : Bytes)
      → HoldsKey s.csm key_id key
      → full_mac env key_id message s ≡ (
        record s { csm = record s.csm { state = finished } },
        ok (env.lib.hmac_digest key message),
      )
  unfolding full_mac Csm.generate_mac
  full_mac_held s key_id key message held =
      rw (compute_mac_held env.lib key_id s.csm key message held)

  -- What `generate_mac` does for a PDU whose key is in place.
  pub generate_mac_held :
      (s : Stack) (key_id : String) (key a : Bytes) (v : ℕ)
      → HasProfile p t s profile n m
      → resolve_key_id env p profile s ≡ ok key_id
      → HoldsKey s.csm key_id key
      → generate_mac env p a v t s ≡ (
        check_budget env s.op_seq
            (record s { op_seq = s.op_seq + 1; csm = record s.csm { state = finished } }),
        ok (truncated_mac env key a v n m),
      )
  unfolding generate_mac
  generate_mac_held s key_id key a v c r held = rw (mac_input_lem s key_id a v c r) (
      rw (
        full_mac_held (record s { op_seq = s.op_seq + 1 }) key_id key
          (a ++ big_endian n (v % modulus n)) held))

  -- What `verify_mac` does for a PDU whose key is in place.
  pub verify_mac_held :
      (s : Stack) (key_id : String) (key a : Bytes) (v : ℕ) (mac : Bytes)
      → HasProfile p t s profile n m
      → resolve_key_id env p profile s ≡ ok key_id
      → HoldsKey s.csm key_id key
      → verify_mac env p a v mac t s ≡ (
        record s { csm = record s.csm { state = finished } },
        ok (bytes_eq (truncated_mac env key a v n m) mac),
      )
  unfolding verify_mac
  verify_mac_held s key_id key a v mac c r held =
      rw (mac_input_lem s key_id a v c r)
        (rw (full_mac_held s key_id key (a ++ big_endian n (v % modulus n)) held))

  compare : Bytes → ℕ → Bytes → Method Stack Bool
  compare mac mac_len full s = (s, ok (bytes_eq (take mac_len full) mac))

  verify_mac_lem :
      (s : Stack) (key_id : String) (a : Bytes) (v : ℕ) (mac : Bytes)
      → HasProfile p t s profile n m
      → resolve_key_id env p profile s ≡ ok key_id
      → verify_mac env p a v mac t s
        ≡ and_then (full_mac env key_id (a ++ big_endian n (v % modulus n)) s) (compare mac m)
  unfolding verify_mac compare
  verify_mac_lem s key_id a v mac c r = rw (mac_input_lem s key_id a v c r)

  verify_mac_input :
      (s s' : Stack) (a : Bytes) (v : ℕ) (mac : Bytes) (matches : Bool)
      → verify_mac env p a v mac t s ≡ (s', ok matches)
      → (input : String × Bytes × ℕ) × (mac_input env p a v t s ≡ ok input)
  unfolding verify_mac
  verify_mac_input s s' a v mac matches e = elim (Outcome-cases (mac_input env p a v t s)) [
    | inl (input, made) ↦ (input, made)
    | inr (x, none_made) ↦ cc
  ]

  -- What a verification that returned has computed.
  pub record Verified (s s' : Stack) (a : Bytes) (v : ℕ) (mac : Bytes) (matches : Bool)
      : Type 0 where
    pub key_id : String
    pub resolved : resolve_key_id env p profile s ≡ ok key_id
    pub unchanged : s' ≡ record s { csm = s'.csm }
    pub holds : HoldsKey s'.csm key_id (stack_key env key_id s)
    pub full : Bytes
    pub job : Job env.lib key_id s.csm (a ++ big_endian n (v % modulus n)) s'.csm (ok full)
    pub compared : bytes_eq (truncated_mac env (stack_key env key_id s) a v n m) mac ≡ matches

  pub verify_mac-Verified :
      (s s' : Stack) (a : Bytes) (v : ℕ) (mac : Bytes) (matches : Bool)
      → HasProfile p t s profile n m
      → verify_mac env p a v mac t s ≡ (s', ok matches)
      → Verified s s' a v mac matches
  unfolding compare
  verify_mac-Verified s s' a v mac matches c e =
      let (input, made) = verify_mac_input s s' a v mac matches e in
      let r = mac_input_resolves s a v input c made in
      let (s1, full, done, e2) =
        and_then-eq-ok (full_mac env input.0 (a ++ big_endian n (v % modulus n)) s) (compare mac m)
          (sym (verify_mac_lem s input.0 a v mac c r) ∙ e) in
      let (same, held, digest, job) =
        full_mac_made s s1 input.0 (a ++ big_endian n (v % modulus n)) full done in
      let last : s1 ≡ s' = ap (λ x. x.0) e2 in
      record {
        key_id = input.0;
        resolved = r;
        unchanged = sym last ∙ same ∙ ap (λ x. record s { csm = x.csm }) last;
        holds = rw (sym last) held;
        full = full;
        job =
            subst
              (λ (x : Stack).
                Job env.lib input.0 s.csm (a ++ big_endian n (v % modulus n)) x.csm (ok full))
              last job;
        compared = ap (λ f. bytes_eq (take m f) mac) (sym digest) ∙ ok-injective (ap (λ x. x.1) e2);
      }

  -- Whatever it answers, a verification changes no more than the crypto stack.
  pub verify_mac_state :
      (s : Stack) (a : Bytes) (v : ℕ) (mac : Bytes)
      → (verify_mac env p a v mac t s).0 ≡ record s { csm = (verify_mac env p a v mac t s).0.csm }
  unfolding verify_mac full_mac
  verify_mac_state s a v mac = ground arith

  compare_raised :
      (mac : Bytes) (x : Stack × Outcome Bytes) (e : Exception)
      → (and_then x (compare mac m)).1 ≡ raised e
      → x.1 ≡ raised e
  unfolding compare
  compare_raised mac (s', ok full) e h = cc
  compare_raised mac (s', raised d) e h = ap raised (raised-injective h)

  compare_state : (mac : Bytes) (x : Stack × Outcome Bytes) → (and_then x (compare mac m)).0 ≡ x.0
  unfolding compare
  compare_state mac (s', ok full) = refl
  compare_state mac (s', raised d) = refl

  full_mac_raised :
      (s s' : Stack) (key_id : String) (message : Bytes) (e : Exception)
      → (full_mac env key_id message s).1 ≡ raised e
      → s' ≡ (full_mac env key_id message s).0
      → Job env.lib key_id s.csm message s'.csm (raised e)
  unfolding full_mac Csm.generate_mac
  full_mac_raised s s' key_id message e h same = rw (ap (λ x. x.csm) same) (
      subst
        (λ (o : Outcome Bytes).
          Job env.lib key_id s.csm message (compute_mac env.lib key_id message s.csm).0 o)
        h (compute_mac-Job env.lib key_id s.csm message))

  unresolved :
      (s : Stack) (a : Bytes) (v : ℕ) (mac : Bytes) (d : Exception)
      → HasProfile p t s profile n m
      → resolve_key_id env p profile s ≡ raised d
      → verify_mac env p a v mac t s ≡ (s, raised d)
  unfolding verify_mac
  unresolved s a v mac d c r = rw (
      mac_input_step s a v c
      ∙ ap (λ o. o >>= λ key_id. ok (key_id, a ++ big_endian n (v % modulus n), m)) r)

  -- A verification raises because the key is not found, and nothing has changed, or because the MAC
  -- job raises.
  pub verify_mac_raised :
      (s : Stack) (a : Bytes) (v : ℕ) (mac : Bytes) (e : Exception)
      → HasProfile p t s profile n m
      → (verify_mac env p a v mac t s).1 ≡ raised e
      → ((resolve_key_id env p profile s ≡ raised e) × ((verify_mac env p a v mac t s).0 ≡ s))
        ⊎ ((key_id : String) × (resolve_key_id env p profile s ≡ ok key_id)
            × Job env.lib key_id s.csm
                (a ++ big_endian n (v % modulus n))
                (verify_mac env p a v mac t s).0.csm
                (raised e))
  verify_mac_raised s a v mac e c h = elim (Outcome-cases (resolve_key_id env p profile s)) [
    | inl (key_id, r) ↦
        let message = a ++ big_endian n (v % modulus n) in
        inr (
          key_id,
          r,
          full_mac_raised s (verify_mac env p a v mac t s).0 key_id message e
              (compare_raised mac (full_mac env key_id message s) e
                (ap (λ x. x.1) (sym (verify_mac_lem s key_id a v mac c r)) ∙ h))
              (ap (λ x. x.0) (verify_mac_lem s key_id a v mac c r)
                ∙ compare_state mac (full_mac env key_id message s)),
        )
    | inr (d, r) ↦
        let e2 = unresolved s a v mac d c r in
        inl (r ∙ ap raised (raised-injective (ap (λ x. x.1) (sym e2) ∙ h)), ap (λ x. x.0) e2)
  ]
