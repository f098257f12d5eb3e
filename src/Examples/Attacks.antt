-- ===== src/Examples/Attacks.antt =====
-- The properties of attacks. The digest of the stand-in package is a sum, so collisions are easy.
use sec_oc.Base.{ℕ, ◌≡◌, refl, ap, String, some, [], ◌∷◌, ◌++◌, ok, arith, eq_iff}
use sec_oc.Base.Bytes.{Bytes, big_endian, length-big_endian}
use sec_oc.Base.Dict.{lookup}
use sec_oc.Attack.{
  flip, xor_bits, intercept, tamper, invalid_mac, generate_forged_pdu, with_trailer,
  forged_authentic_pdu, invalid_mac_bytes,
}
use sec_oc.Attack.Defence.{tampered_collides, forged_needs_mac}
use sec_oc.Bus.{publish, get_last}
use sec_oc.Bus.Queue.{get_last-publish}
use sec_oc.Crypto.Hsm.{symmetric}
use sec_oc.Freshness.Window.{LastValid-commit_freshness}
use sec_oc.Profile.{can_fd, get_profile, truncation_lengths}
use sec_oc.Secoc.{receive_secured, fit_payload}
use sec_oc.Secoc.Authenticator.{resolve_key_id}
use sec_oc.Secoc.Exchange.{frame, receive_frame}
use sec_oc.Secoc.Transmit.{IsReady}
use sec_oc.Secoc.Macs.{HasProfile, truncated_mac, stack_key}
use sec_oc.Secoc.Objects.{Stack}
use sec_oc.Examples.Messages.{payload, frame6}
use sec_oc.Examples.Node.{
  checksum, toy_library-HasLengths, brake, brake_key, brake_profile, setup, empty_nvm, key_bytes,
  brake_hsm, node, node-HasProfile_fd, node-IsReady_fd,
}

abbrev changed : Bytes
changed = 0 ∷ 2 ∷ 3 ∷ 4 ∷ []

changed_fits : fit_payload can_fd changed ≡ ok changed
unfolding fit_payload
changed_fits = refl

abbrev tampered : Bytes
tampered =
    (intercept 1 (record {
      pdu_id = brake;
      data_bytes = payload ++ (big_endian 2 8 ++ truncated_mac setup key_bytes payload 7 2 8);
      timestamp = 0;
    })).tampered_raw_bytes

same_frame :
    tampered ≡ frame setup brake can_fd brake_profile 2 8 key_bytes changed changed changed_fits 8
unfolding frame intercept tamper flip xor_bits big_endian checksum
same_frame = refl

tampered_accepted : (receive_secured setup brake tampered can_fd (node 7)).1 ≡ ok (some changed)
tampered_accepted = rw same_frame (
    ap (λ x. x.1)
      (receive_frame setup brake can_fd brake_profile 2 8 key_bytes changed changed changed_fits
        toy_library-HasLengths (omega arith) (omega arith) (node 7) 7 8 8 refl (omega arith)
        (node-IsReady_fd 7) (omega arith) (omega arith) refl))

tampered_collides_example :
    (key_id : String) × (resolve_key_id setup brake brake_profile (node 7) ≡ ok key_id)
    × (w : ℕ) × (truncated_mac setup
          (stack_key setup key_id (node 7))
          (flip 1 1 ∷ 2 ∷ 3 ∷ 4 ∷ [])
          w
          2
          8
        ≡ truncated_mac setup key_bytes payload 7 2 8)
tampered_collides_example =
    tampered_collides setup brake can_fd (node 7) brake_profile 2 8 (node-HasProfile_fd 7)
      (omega arith) toy_library-HasLengths (omega arith) key_bytes 1 1 7 0 (2 ∷ 3 ∷ 4 ∷ [])
      (big_endian 2 8) changed (length-big_endian 2 8) tampered_accepted

seen : get_last brake (publish brake frame6 (node 0).bus) ≡ some frame6
seen = ground (arith, get_last-publish brake brake frame6 (node 0).bus, eq_iff brake brake)

abbrev weak_key : Bytes
weak_key = 198 ∷ []

abbrev weak_node : Stack
weak_node = record (node 0) {
  csm = record (node 0).csm {
    hsm = record brake_hsm { key_store = (brake_key, symmetric weak_key) ∷ [] };
  };
}

weak_node-HasProfile : HasProfile brake can_fd weak_node brake_profile 2 8
unfolding get_profile lookup truncation_lengths
weak_node-HasProfile = record { found = refl; lengths = refl }

weak_node-IsReady : IsReady setup brake can_fd brake_profile 2 8 weak_key 0 weak_node
unfolding resolve_key_id lookup
weak_node-IsReady = record {
  configured = weak_node-HasProfile;
  key_id = brake_key;
  resolved = refl;
  held = record { stored = refl; available = refl };
  before = LastValid-commit_freshness brake 0 empty_nvm;
}

forged_fits : fit_payload can_fd forged_authentic_pdu ≡ ok forged_authentic_pdu
unfolding fit_payload
forged_fits = refl

same_forged :
    generate_forged_pdu invalid_mac
    ≡ frame setup brake can_fd brake_profile 2 8 weak_key forged_authentic_pdu forged_authentic_pdu
        forged_fits 1
unfolding frame generate_forged_pdu with_trailer big_endian checksum
same_forged = refl

forged_accepted :
    (receive_secured setup brake (generate_forged_pdu invalid_mac) can_fd weak_node).1
    ≡ ok (some forged_authentic_pdu)
forged_accepted = rw same_forged (
    ap (λ x. x.1)
      (receive_frame setup brake can_fd brake_profile 2 8 weak_key forged_authentic_pdu
        forged_authentic_pdu forged_fits toy_library-HasLengths (omega arith) (omega arith)
        weak_node 0 1 1 refl (omega arith) weak_node-IsReady (omega arith) (omega arith) refl))

forged_needs_mac_example :
    (key_id : String) × (resolve_key_id setup brake brake_profile weak_node ≡ ok key_id)
    × (v : ℕ) × (truncated_mac setup (stack_key setup key_id weak_node) forged_authentic_pdu v 2 8
        ≡ invalid_mac_bytes)
forged_needs_mac_example =
    forged_needs_mac setup brake weak_node brake_profile invalid_mac forged_authentic_pdu
      weak_node-HasProfile toy_library-HasLengths forged_accepted
