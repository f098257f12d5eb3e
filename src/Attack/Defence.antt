-- ===== src/Attack/Defence.antt =====
-- What a node does with the frames of the attack tools.
use sec_oc.Base.{
  ℕ, ◌+◌, ◌≡◌, ◌≢◌, ◌≤◌, refl, sym, ap, ◌∙◌, String, some, arith, [], ◌∷◌, ◌++◌, ok, length,
  length-append, length-take, take, drop, take-append_left, drop-append_left, List, ◌%◌,
}
use sec_oc.Base.Bytes.{Bytes, big_endian, length-big_endian, modulus}
use sec_oc.Base.Dict.{lookup, lookup-insert_self}
use sec_oc.Bus.{CanBus, publish, get_last}
use sec_oc.Crypto.Library.{HasLengths}
use sec_oc.Profile.{SecurityProfileEntry, Transport, can_fd}
use sec_oc.Secoc.Objects.{Setup, Stack}
use sec_oc.Secoc.Authenticator.{resolve_key_id}
use sec_oc.Secoc.Macs.{HasProfile, truncated_mac, stack_key}
use sec_oc.Secoc.Answers.{receive_secured-IsAcceptance}
use sec_oc.Secoc.{receive_secured}
use sec_oc.Attack.{
  ReplayAttack, capture, replay, inject_found, inject, flip, tamper, intercept, ForgeMode,
  malformed_structure, invalid_mac, wrong_freshness, generate_forged_pdu, with_trailer,
  forged_authentic_pdu, invalid_mac_bytes,
}

-- Two ways to write one list as two parts are the same, if the second parts are as long.
same_parts :
    {A : Type 0} (xs ys xs' ys' : List A)
    → xs ++ ys ≡ xs' ++ ys'
    → length ys ≡ length ys'
    → (xs ≡ xs') × (ys ≡ ys')
same_parts xs ys xs' ys' e size =
    let front : length xs ≡ length xs' =
      omega (arith, length-append xs ys, length-append xs' ys', ap length e) in
    (
      sym (take-append_left xs ys (length xs) refl)
          ∙ ap (take (length xs)) e
          ∙ take-append_left xs' ys' (length xs) front,
      sym (drop-append_left xs ys (length xs) refl)
          ∙ ap (drop (length xs)) e
          ∙ drop-append_left xs' ys' (length xs) front,
    )

module _ (env : Setup) (p : String) (t : Transport) (s : Stack) (profile : SecurityProfileEntry)
    (n m : ℕ) (c : HasProfile p t s profile n m) (nonempty : n + m ≢ 0) (laws : HasLengths env.lib)
    (short : m ≤ 32) where
  -- What an accepted frame that ends in `mac` says of it.
  accepted_mac :
      (payload field mac a : Bytes)
      → length field ≡ n
      → length mac ≡ m
      → (receive_secured env p (payload ++ (field ++ mac)) t s).1 ≡ ok (some a)
      → (key_id : String) × (resolve_key_id env p profile s ≡ ok key_id)
        × (v : ℕ) × (truncated_mac env (stack_key env key_id s) payload v n m ≡ mac)
  accepted_mac payload field mac a fn mm e =
      let acc =
        receive_secured-IsAcceptance env p (payload ++ (field ++ mac)) t s profile n m c nonempty a
          e in
      let made = truncated_mac env (stack_key env acc.key_id s) a acc.value n m in
      let digest =
        env.lib.hmac_digest (stack_key env acc.key_id s)
          (a ++ big_endian n (acc.value % modulus n)) in
      let made_length : length made ≡ m = omega (
        arith,
        length-take m digest,
        laws.hmac_length (stack_key env acc.key_id s) (a ++ big_endian n (acc.value % modulus n)),
      ) in
      let (front, back) =
        same_parts a (acc.field ++ made) payload (field ++ mac) acc.layout (
          omega (arith, length-append acc.field made, length-append field mac, acc.field_length)) in
      let (_, macs) = same_parts acc.field made field mac back (made_length ∙ sym mm) in
      (
        acc.key_id,
        acc.resolved,
        acc.value,
        ap (λ x. truncated_mac env (stack_key env acc.key_id s) x acc.value n m) (sym front) ∙ macs,
      )

  -- A man in the middle who flips bits of the first payload byte of a frame, made under any key and
  -- at any value, gets it accepted only if the truncated MAC of the changed payload, under the key
  -- that the receiving node uses for the PDU (the one stored under the identifier that the PDU
  -- resolves to, or the one it makes up if there is none) and at some value, is the MAC that the frame carries: for a profile whose
  -- trailer is not empty, an authenticator of at most 32 bytes, and digests of 32 bytes.
  pub tampered_collides :
      (key : Bytes) (byte mask v time : ℕ) (rest field a : Bytes)
      → length field ≡ n
      → let genuine = (byte ∷ rest) ++ (field ++ truncated_mac env key (byte ∷ rest) v n m) in
        let tampered =
          intercept mask (record { pdu_id = p; data_bytes = genuine; timestamp = time }) in
        (receive_secured env p tampered.tampered_raw_bytes t s).1 ≡ ok (some a)
        → (key_id : String) × (resolve_key_id env p profile s ≡ ok key_id)
          × (w : ℕ) × (truncated_mac env (stack_key env key_id s) (flip mask byte ∷ rest) w n m
              ≡ truncated_mac env key (byte ∷ rest) v n m)
  unfolding intercept tamper
  tampered_collides key byte mask v time rest field a fn e =
      let digest = env.lib.hmac_digest key ((byte ∷ rest) ++ big_endian n (v % modulus n)) in
      accepted_mac (flip mask byte ∷ rest) field (truncated_mac env key (byte ∷ rest) v n m) a fn
        (omega (
          arith,
          length-take m digest,
          laws.hmac_length key ((byte ∷ rest) ++ big_endian n (v % modulus n)),
        ))
        e

-- No frame of the fuzzing engine, in any of its modes, is accepted on CAN FD under a
-- profile with a field of two bytes and an authenticator of eight, unless eight bytes of 255 happen
-- to be the truncated MAC of the forged payload at some value under the key that the node uses for the
-- PDU: the one stored under the identifier that the PDU resolves to, or the one it makes up; digests
-- have 32 bytes.
pub forged_needs_mac :
    (env : Setup) (p : String) (s : Stack) (profile : SecurityProfileEntry) (mode : ForgeMode)
    (a : Bytes)
    → HasProfile p can_fd s profile 2 8
    → HasLengths env.lib
    → (receive_secured env p (generate_forged_pdu mode) can_fd s).1 ≡ ok (some a)
    → (key_id : String) × (resolve_key_id env p profile s ≡ ok key_id)
      × (v : ℕ) × (truncated_mac env (stack_key env key_id s) forged_authentic_pdu v 2 8
          ≡ invalid_mac_bytes)
unfolding generate_forged_pdu with_trailer
forged_needs_mac env p s profile malformed_structure a c laws e =
    let acc =
      receive_secured-IsAcceptance env p (0 ∷ []) can_fd s profile 2 8 c (omega arith) a e in
    let made = truncated_mac env (stack_key env acc.key_id s) a acc.value 2 8 in
    absurd (
      omega (
        arith,
        length-append a (acc.field ++ made),
        length-append acc.field made,
        acc.field_length,
        ap length acc.layout,
      ))
forged_needs_mac env p s profile invalid_mac a c laws e =
    accepted_mac env p can_fd s profile 2 8 c (omega arith) laws (omega arith) forged_authentic_pdu
      (big_endian 2 1) invalid_mac_bytes a (length-big_endian 2 1) refl e
forged_needs_mac env p s profile wrong_freshness a c laws e =
    accepted_mac env p can_fd s profile 2 8 c (omega arith) laws (omega arith) forged_authentic_pdu
      (big_endian 2 65535) invalid_mac_bytes a (length-big_endian 2 65535) refl e

-- What a replay puts on the bus is the frame that was last published for the PDU at the capture.
pub replay-capture :
    (p : String) (raw_bytes : Bytes) (seen bus : CanBus) (attack : ReplayAttack)
    → get_last p seen ≡ some raw_bytes
    → replay p (capture p seen attack).0 bus ≡ publish p raw_bytes bus
unfolding replay capture inject_found inject
replay-capture p raw_bytes seen bus attack e =
    rw (lookup-insert_self p (get_last p seen) attack.captured, e)

pub replay_found :
    (p : String) (raw_bytes : Bytes) (attack : ReplayAttack) (bus : CanBus)
    → lookup p attack.captured ≡ some (some raw_bytes)
    → replay p attack bus ≡ publish p raw_bytes bus
unfolding replay inject_found inject
replay_found p raw_bytes attack bus captured = rw captured refl
