-- ===== src/Examples/Messages.antt =====
-- The properties of Secured I-PDUs, on one PDU and a payload of four bytes.
use sec_oc.Base.{
  ℕ, ◌+◌, ◌%◌, ◌≡◌, ◌≤◌, ◌<◌, ◌↔◌, refl, ap, true, none, some, List, [], ◌∷◌, ◌++◌, arith, ok,
  ◌>>=◌,
}
use sec_oc.Base.Bytes.{Bytes, big_endian, modulus}
use sec_oc.Crypto.Csm.{finished}
use sec_oc.Bus.{publish}
use sec_oc.Freshness.{validate_freshness, commit_freshness}
use sec_oc.Freshness.Window.{LastValid, LastValid-commit_freshness, validate_freshness_iff}
use sec_oc.Pdu.{Parts, build_secured_pdu, parse_secured_pdu}
use sec_oc.Pdu.RoundTrip.{IsFrame, parse-build, parse_secured_pdu-IsFrame}
use sec_oc.Profile.{can_fd, classic_can, truncation_lengths}
use sec_oc.Secoc.{receive_secured, transmit_secured, fit_payload}
use sec_oc.Secoc.Answers.{
  IsAcceptance, IsRejection, receive_secured-IsAcceptance, receive_secured-IsRejection,
}
use sec_oc.Secoc.Exchange.{
  IsDelivered, exchange, frame, parse_frame, receive_frame, replay_accepted,
}
use sec_oc.Secoc.Transmit.{IsTransmitted, transmit_secured-IsTransmitted}
use sec_oc.Secoc.Macs.{truncated_mac}
use sec_oc.Secoc.Receive.{receive_secured-Reception}
use sec_oc.Secoc.Reception.{Reception}
use sec_oc.Secoc.Replay.{replay_rejected}
use sec_oc.Secoc.Stall.{classic_can_stalls}
use sec_oc.Secoc.Traces.{Arrival, receive_all, Accepts, Ascends, last_of, receive_all-rises}
use sec_oc.Examples.Node.{
  toy_library-HasLengths, brake, brake_profile, setup, empty_nvm, key_bytes, node,
  node-HasProfile_fd, node-IsReady_fd, node-IsReady_can,
}

abbrev pub payload : Bytes
payload = 1 ∷ 2 ∷ 3 ∷ 4 ∷ []

pub fits_fd : fit_payload can_fd payload ≡ ok payload
unfolding fit_payload
fits_fd = refl

lengths_can : truncation_lengths brake_profile classic_can ≡ ok (1, 3)
unfolding truncation_lengths
lengths_can = refl

lengths_fd : truncation_lengths brake_profile can_fd ≡ ok (2, 8)
unfolding truncation_lengths
lengths_fd = refl

fits_can : fit_payload classic_can payload ≡ ok payload
unfolding fit_payload
fits_can = refl

-- The frame that the node makes at the value 6.
abbrev pub frame6 : Bytes
frame6 = frame setup brake can_fd brake_profile 2 8 key_bytes payload payload fits_fd 6

-- Receiving it, at the last value 5.
received6 : receive_secured setup brake frame6 can_fd (node 5) ≡ (
  record (node 5) {
    csm = record (node 5).csm { state = finished };
    nvm = commit_freshness brake 6 (node 5).nvm;
    bus = publish brake frame6 (node 5).bus;
  },
  ok (some payload),
)
received6 =
    receive_frame setup brake can_fd brake_profile 2 8 key_bytes payload payload fits_fd
      toy_library-HasLengths (omega arith) (omega arith) (node 5) 5 6 6 refl (omega arith)
      (node-IsReady_fd 5) (omega arith) (omega arith) refl

pub accepted6 : (receive_secured setup brake frame6 can_fd (node 5)).1 ≡ ok (some payload)
accepted6 = ap (λ x. x.1) received6

pub committed6 : LastValid brake (receive_secured setup brake frame6 can_fd (node 5)).0.nvm 6
committed6 = rw received6 (LastValid-commit_freshness brake 6 (node 5).nvm)

again6 : (receive_secured setup brake frame6 can_fd (node 6)).1 ≡ ok none
again6 =
    replay_rejected setup brake frame6 can_fd (node 5) payload 6 (node 6) 6 accepted6 committed6
      refl (LastValid-commit_freshness brake 6 empty_nvm) (omega arith) (omega arith)

receive_secured-Reception_example :
    Reception setup brake frame6 can_fd
      (node 5)
      (receive_secured setup brake frame6 can_fd (node 5)).0
      (receive_secured setup brake frame6 can_fd (node 5)).1
receive_secured-Reception_example = receive_secured-Reception setup brake frame6 can_fd (node 5)

receive_secured-IsAcceptance_example :
    IsAcceptance setup brake frame6 can_fd
      (node 5)
      2
      8
      brake_profile
      payload
      (receive_secured setup brake frame6 can_fd (node 5)).0
receive_secured-IsAcceptance_example =
    receive_secured-IsAcceptance setup brake frame6 can_fd (node 5) brake_profile 2 8
      (node-HasProfile_fd 5) (omega arith) payload accepted6

receive_secured-IsRejection_example :
    IsRejection setup brake frame6 can_fd
      (node 6)
      (receive_secured setup brake frame6 can_fd (node 6)).0
receive_secured-IsRejection_example =
    receive_secured-IsRejection setup brake frame6 can_fd (node 6) again6

exchange_example :
    IsDelivered setup brake can_fd brake_profile 2 8 key_bytes payload payload fits_fd
      toy_library-HasLengths
      (omega arith)
      (omega arith)
      (node 5)
      (node 3)
      6
exchange_example =
    exchange setup brake can_fd brake_profile 2 8 key_bytes payload payload fits_fd
      toy_library-HasLengths (omega arith) (omega arith) (node 5) (node 3) 5 3 6 (node-IsReady_fd 5)
      (node-IsReady_fd 3) refl (omega arith) (omega arith) (omega arith) refl

replay_rejected_example : (receive_secured setup brake frame6 can_fd (node 40)).1 ≡ ok none
replay_rejected_example =
    replay_rejected setup brake frame6 can_fd (node 5) payload 6 (node 40) 40 accepted6 committed6
      refl (LastValid-commit_freshness brake 40 empty_nvm) (omega arith) (omega arith)

abbrev arrivals : List Arrival
arrivals =
    record { pdu_id = brake; secured_pdu = frame6; transport = can_fd }
    ∷ record { pdu_id = brake; secured_pdu = frame6; transport = can_fd }
    ∷ []

receive_all-rises_example :
    (values : List ℕ) × Accepts setup brake arrivals (node 5) values
    × Ascends 5 values
    × LastValid brake (receive_all setup arrivals (node 5)).nvm (last_of 5 values)
receive_all-rises_example =
    receive_all-rises setup brake arrivals (node 5) 5 (LastValid-commit_freshness brake 5 empty_nvm)

transmit_secured-IsTransmitted_example :
    let (s', sent) = transmit_secured setup brake payload can_fd (node 5) in
    (sent
      ≡ ok (
          payload ++ (big_endian 2 (6 % modulus 2) ++ truncated_mac setup key_bytes payload 6 2 8)))
    × IsTransmitted setup brake can_fd brake_profile 2 8 key_bytes (node 5) s'
transmit_secured-IsTransmitted_example =
    transmit_secured-IsTransmitted setup brake can_fd brake_profile 2 8 key_bytes payload payload
      fits_fd (node 5) 5 (node-IsReady_fd 5)

replay_accepted_example :
    (secured_pdu : Bytes) × ((transmit_secured setup brake payload can_fd (node 5)).1
      ≡ ok secured_pdu)
    × ((receive_secured setup brake secured_pdu can_fd (node 5)).1 ≡ ok (some payload))
    × ((receive_secured setup brake secured_pdu can_fd (node 65540)).1 ≡ ok (some payload))
replay_accepted_example =
    replay_accepted setup brake can_fd brake_profile 2 8 key_bytes payload payload fits_fd
      toy_library-HasLengths (omega arith) (omega arith) (node 5) (node 5) (node 65540) 5 65540
      (node-IsReady_fd 5) (node-IsReady_fd 5) (node-IsReady_fd 65540) refl (omega arith)
      (omega arith) (omega arith) (omega arith)

classic_can_stalls_example :
    (secured_pdu : Bytes) × ((transmit_secured setup brake payload classic_can (node 255)).1
      ≡ ok secured_pdu)
    × ((receive_secured setup brake secured_pdu classic_can (node 255)).1 ≡ ok none)
classic_can_stalls_example =
    classic_can_stalls setup brake brake_profile 3 key_bytes payload payload (node 255) (node 255)
      255 fits_can toy_library-HasLengths (omega arith) (node-IsReady_can 255)
      (node-IsReady_can 255) refl (omega arith) (omega arith)

validate_freshness_iff_example :
    (validate_freshness setup.fm brake 1 (node 65535).nvm ≡ ok (true, 65537))
    ↔ ((65535 < 65537) × (65537 ≤ 65535 + 16) × (65537 % modulus 2 ≡ 1))
validate_freshness_iff_example =
    validate_freshness_iff setup.fm brake (node 65535).nvm 65535 1 65537
      (LastValid-commit_freshness brake 65535 empty_nvm) (omega arith) (omega arith)

parse-build_example :
    (build_secured_pdu payload 65541 (9 ∷ 8 ∷ 7 ∷ []) brake_profile classic_can >>= λ pdu.
    parse_secured_pdu pdu brake_profile classic_can)
    ≡ ok (record {
      authentic_pdu = payload;
      freshness_value = 65541 % modulus 1;
      mac = 9 ∷ 8 ∷ 7 ∷ [];
    })
parse-build_example =
    parse-build payload (9 ∷ 8 ∷ 7 ∷ []) 65541 brake_profile classic_can 1 3 lengths_can
      (omega arith) refl refl

abbrev parts6 : Parts
parts6 = record {
  authentic_pdu = payload;
  freshness_value = 6 % modulus 2;
  mac = truncated_mac setup key_bytes payload 6 2 8;
}

parse_secured_pdu-IsFrame_example : (f : Bytes) × IsFrame frame6 2 8 can_fd parts6 f
parse_secured_pdu-IsFrame_example =
    parse_secured_pdu-IsFrame frame6 brake_profile can_fd 2 8 lengths_fd parts6 (omega arith) (
      parse_frame setup brake can_fd brake_profile 2 8 key_bytes payload payload fits_fd
        toy_library-HasLengths (omega arith) (omega arith) 6 lengths_fd)
