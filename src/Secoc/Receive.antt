-- ===== src/Secoc/Receive.antt =====
-- What `receive_secured` of sim/secoc.py does on each of its branches.
use sec_oc.Base.{
  ◌≢◌, ℕ, ◌≡◌, inl, inr, refl, sym, ap, ◌∙◌, String, Bool, true, false, Option, arith, Bool-cases,
}
use sec_oc.Base.{
  Outcome, Exception, ok, raised, value_error, is_value_error, and_then, Outcome-cases,
}
use sec_oc.Base.Bytes.{Bytes, modulus, bytes_eq_iff}
use sec_oc.Freshness.{load_last_valid_freshness, in_window, reconstruct}
use sec_oc.Freshness.Window.{
  LastValid, validate_freshness_lem, validate_freshness_raises, in_window_iff, in_window_outside,
}
use sec_oc.Nvm.Values.{as_int}
use sec_oc.Pdu.{Parts, parse_secured_pdu}
use sec_oc.Pdu.RoundTrip.{parse_lengths_known}
use sec_oc.Profile.{SecurityProfileEntry, Transport, get_profile}
use sec_oc.Secoc.Objects.{Setup, Stack}
use sec_oc.Secoc.Authenticator.{verify_mac}
use sec_oc.Secoc.Macs.{Verified, verify_mac-Verified, verify_mac_raised, verify_mac_state}
use sec_oc.Secoc.Reception.{Splits, IsFresh, Refused, Fails, Reception}
use sec_oc.Secoc.{reject, accept, check_mac, check_parts, receive_secured}

is_value_error_only : (e : Exception) → is_value_error e ≡ true → e ≡ value_error
unfolding is_value_error
is_value_error_only e h = ground arith

not_value_error : (e : Exception) → is_value_error e ≡ false → e ≢ value_error
unfolding is_value_error
not_value_error e b q = let same = ap is_value_error q in cc

module _ (env : Setup) (p : String) (frame : Bytes) (t : Transport) (s : Stack) where
  -- The relation, at what a method leaves.
  Ends : Stack × Outcome (Option Bytes) → Type 0
  Ends x = Reception env p frame t s x.0 x.1

  -- After a verification that changed only the crypto stack.
  accept-Ends :
      {profile : SecurityProfileEntry} {n m : ℕ} {parts : Parts} {last v : ℕ}
      (x : Stack × Outcome Bool)
      → Splits env p frame t s profile n m parts
      → IsFresh env p frame t s parts last v
      → x.0 ≡ record s { csm = x.0.csm }
      → ((b : Bool)
          → x.1 ≡ ok b
          → Verified env p t profile n m s x.0 parts.authentic_pdu v parts.mac b)
      → ((e : Exception) → x.1 ≡ raised e → Fails env p frame t s e x.0.csm)
      → Ends (and_then x (accept p frame parts.authentic_pdu v))
  unfolding accept reject Ends
  accept-Ends (s1, raised e) split fresh same known cause =
      rw same (Reception.failed (cause e refl))
  accept-Ends {parts = parts} (s1, ok true) split fresh same known cause =
      let found = known true refl in
      rw same (
        Reception.accepted split fresh found.resolved found.job
          ((bytes_eq_iff _ parts.mac).0 found.compared))
  accept-Ends {parts = parts} (s1, ok false) split fresh same known cause =
      let found = known false refl in
      rw same (
        Reception.rejected (
          Refused.forged split fresh found.resolved found.job
            (λ e. let same_mac = (bytes_eq_iff _ parts.mac).1 e in cc)))

  unverified :
      {profile : SecurityProfileEntry} {n m : ℕ} (parts : Parts) (last v : ℕ) (e : Exception)
      → Splits env p frame t s profile n m parts
      → IsFresh env p frame t s parts last v
      → (verify_mac env p parts.authentic_pdu v parts.mac t s).1 ≡ raised e
      → Fails env p frame t s e (verify_mac env p parts.authentic_pdu v parts.mac t s).0.csm
  unverified {profile} {n} {m} parts last v e split fresh h =
      elim (verify_mac_raised env p t profile n m s parts.authentic_pdu v parts.mac e
        split.configured h) [
          | inl (unresolved, same) ↦
              rw (ap (λ x. x.csm) same) (Fails.unknown_key split fresh unresolved)
          | inr (key_id, resolved, job) ↦ Fails.failed_job split fresh resolved job
        ]

  check_mac-Ends :
      {profile : SecurityProfileEntry} {n m : ℕ} (parts : Parts) (last : ℕ) (validated : Bool × ℕ)
      → Splits env p frame t s profile n m parts
      → LastValid p s.nvm last
      → in_window env.fm.window_size last
          (reconstruct (modulus env.fm.freshness_length) last parts.freshness_value)
        ≡ validated
      → Ends (check_mac env p frame t parts validated s)
  unfolding check_mac reject Ends
  check_mac-Ends parts last (false, v) split before w = Reception.rejected (
      Refused.stale split
        (record { before = before; outside = in_window_outside env.fm.window_size last _ v w }))
  check_mac-Ends {profile = profile} {n} {m} parts last (true, v) split before w =
      let (c, lo, hi) = (in_window_iff env.fm.window_size last _ v).0 w in
      let x = verify_mac env p parts.authentic_pdu v parts.mac t s in
      accept-Ends x split (record { before = before; rebuilt = sym c; newer = lo; near = hi })
        (verify_mac_state env p t profile n m s parts.authentic_pdu v parts.mac)
        (λ b e.
          verify_mac-Verified env p t profile n m s x.0 parts.authentic_pdu v parts.mac b
            split.configured (ap (λ r. (x.0, r)) e))
        (λ e h.
          unverified parts last v e split
            (record { before = before; rebuilt = sym c; newer = lo; near = hi }) h)

  check_parts-Ends :
      (profile : SecurityProfileEntry) (o : Outcome Parts)
      → get_profile p s.profiles ≡ ok profile
      → parse_secured_pdu frame profile t ≡ o
      → Ends (check_parts env p frame t o s)
  unfolding check_parts reject Ends
  check_parts-Ends profile (raised e) found parsed = elim (Bool-cases (is_value_error e)) [
    | inl b ↦ rw b (
        Reception.rejected (Refused.malformed found (parsed ∙ ap raised (is_value_error_only e b))))
    | inr b ↦ rw b (Reception.failed (Fails.unusable_profile found parsed (not_value_error e b)))
  ]
  check_parts-Ends profile (ok parts) found parsed =
      elim (Outcome-cases (as_int (load_last_valid_freshness p s.nvm))) [
        | inl (last, before) ↦
            let (n, m, lengths) = parse_lengths_known frame profile t parts parsed in
            rw (validate_freshness_lem env.fm p s.nvm last parts.freshness_value before) (
              check_mac-Ends parts last _
                (record {
                  configured = record { found = found; lengths = lengths };
                  parsed = parsed;
                })
                before refl)
        | inr (e, none_before) ↦
            let (n, m, lengths) = parse_lengths_known frame profile t parts parsed in
            rw (validate_freshness_raises env.fm p s.nvm parts.freshness_value e none_before) (
              Reception.failed (
                Fails.unreadable_counter
                  (record {
                    configured = record { found = found; lengths = lengths };
                    parsed = parsed;
                  })
                  none_before))
      ]

  -- On every path of `receive_secured` the state that it leaves and its answer are a reception of
  -- the frame: it raises for one of five causes, and nothing has changed but what a failed MAC job
  -- leaves, if that is the cause; or it answers None because the frame is malformed, its value lies
  -- outside the window or its MAC is another, one failure of the PDU is logged and counted, and the
  -- crypto stack is the one before or, for another MAC, what the MAC job leaves; or it answers the
  -- payload, the value is fresh, the MAC is the one of payload and value, the MAC job has run, the
  -- value is committed and the frame published. A MAC job fails, and changes no key, when the HSM
  -- is out of service or a private key is stored under the identifier that the PDU resolves to;
  -- otherwise it leaves every key that is stored, and adds one, made up at random, exactly when none
  -- is stored under that identifier.
  pub receive_secured-Reception :
      Reception env p frame t s
        (receive_secured env p frame t s).0
        (receive_secured env p frame t s).1
  unfolding receive_secured Ends
  receive_secured-Reception = elim (Outcome-cases (get_profile p s.profiles)) [
    | inl (profile, found) ↦
        rw found (check_parts-Ends profile (parse_secured_pdu frame profile t) found refl)
    | inr (e, missing) ↦ rw missing (Reception.failed (Fails.unknown_pdu missing))
  ]
