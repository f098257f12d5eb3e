-- ===== src/Secoc/Exchange.antt =====
-- A Secured I-PDU from `transmit_secured` of one node to `receive_secured` of another, sim/secoc.py.
use native.Mathlib.Nat.{add-mod_right}
use sec_oc.Base.{
  ℕ, ◌+◌, ◌%◌, ◌≤◌, ◌<◌, ◌≡◌, ◌≢◌, refl, sym, ap, ◌∙◌, String, some, arith, ◌++◌, length, take,
  length-take, ok, ◌>>=◌,
}
use sec_oc.Base.Bytes.{Bytes, big_endian, modulus, modulus_pos}
use sec_oc.Bus.{publish}
use sec_oc.Crypto.Library.{HasLengths}
use sec_oc.Crypto.Csm.{finished}
use sec_oc.Freshness.{commit_freshness}
use sec_oc.Freshness.Residue.{reconstruct_unique}
use sec_oc.Freshness.Window.{LastValid, LastValid-commit_freshness}
use sec_oc.Pdu.{parse_secured_pdu}
use sec_oc.Pdu.RoundTrip.{parse-build, build_secured_pdu_lem}
use sec_oc.Profile.{SecurityProfileEntry, Transport, truncation_lengths}
use sec_oc.Secoc.Objects.{Setup, Stack}
use sec_oc.Secoc.Macs.{truncated_mac}
use sec_oc.Secoc.Delivery.{receive_secured-accepts}
use sec_oc.Secoc.{transmit_secured, receive_secured, fit_payload}
use sec_oc.Secoc.Transmit.{IsReady, transmit_secured-IsTransmitted, fit_payload-PayloadFits}

module _ (env : Setup) (p : String) (t : Transport) (profile : SecurityProfileEntry) (n m : ℕ)
    (key a payload : Bytes) (fits : fit_payload t a ≡ ok payload) where
  -- The frame at the counter value `v`.
  unfoldable pub frame : ℕ → Bytes
  frame v = payload ++ (big_endian n (v % modulus n) ++ truncated_mac env key payload v n m)

  module _ (laws : HasLengths env.lib) (short : m ≤ 32) (nonempty : n + m ≢ 0) where
    mac_length : (v : ℕ) → length (truncated_mac env key payload v n m) ≡ m
    mac_length v =
        let digest = env.lib.hmac_digest key (payload ++ big_endian n (v % modulus n)) in
        omega (
          arith,
          length-take m digest,
          laws.hmac_length key (payload ++ big_endian n (v % modulus n)),
        )

    pub parse_frame :
        (v : ℕ)
        → truncation_lengths profile t ≡ ok (n, m)
        → parse_secured_pdu (frame v) profile t
          ≡ ok (record {
            authentic_pdu = payload;
            freshness_value = v % modulus n;
            mac = truncated_mac env key payload v n m;
          })
    unfolding frame
    parse_frame v lengths =
        ap (λ o. o >>= λ pdu. parse_secured_pdu pdu profile t)
          (sym (
            build_secured_pdu_lem payload (truncated_mac env key payload v n m) v profile t n m
              lengths))
        ∙ parse-build payload (truncated_mac env key payload v n m) v profile t n m lengths nonempty
            (mac_length v) (fit_payload-PayloadFits t a payload fits)

    -- `receive_secured` of a node that holds the same key, has the same profile, and whose last
    -- accepted value is `mine`, accepts the frame at the counter value `v` as any value `w` that
    -- lies above `mine` by no more than the window and has the low bytes of `v`.
    pub receive_frame :
        (r : Stack) (mine v w : ℕ)
        → env.fm.freshness_length ≡ n
        → env.fm.window_size ≤ modulus n
        → IsReady env p t profile n m key mine r
        → mine < w
        → w ≤ mine + env.fm.window_size
        → w % modulus n ≡ v % modulus n
        → receive_secured env p (frame v) t r ≡ (
          record r {
            csm = record r.csm { state = finished };
            nvm = commit_freshness p w r.nvm;
            bus = publish p (frame v) r.bus;
          },
          ok (some payload),
        )
    receive_frame r mine v w fl narrow ready lo hi residue =
        receive_secured-accepts env p (frame v) t r profile n m
          (record {
            authentic_pdu = payload;
            freshness_value = v % modulus n;
            mac = truncated_mac env key payload v n m;
          })
          mine
          (record {
            configured = ready.configured;
            parsed = parse_frame v ready.configured.lengths;
          })
          ready.before w ready.key_id key
          (record {
            before = ready.before;
            rebuilt =
                rw fl (
                  reconstruct_unique (modulus n) mine v w (modulus_pos n) lo (omega arith) residue);
            newer = lo;
            near = hi;
          })
          ready.resolved ready.held
          (ap (λ x. take m (env.lib.hmac_digest key (payload ++ big_endian n x))) residue)

    -- What the frame that `s` transmits does at a node `r` that accepts it as `w`.
    pub record IsDelivered (s r : Stack) (w : ℕ) : Type 0 where
      pub secured_pdu : Bytes
      pub sent : (transmit_secured env p a t s).1 ≡ ok secured_pdu
      pub answer : (receive_secured env p secured_pdu t r).1 ≡ ok (some payload)
      pub after : LastValid p (receive_secured env p secured_pdu t r).0.nvm w
      pub bus : (receive_secured env p secured_pdu t r).0.bus ≡ publish p secured_pdu r.bus

    -- Take two nodes that are ready for a PDU with the same profile and the same key, held in an
    -- HSM that answers, a payload that fits the transport, digests of 32 bytes, an authenticator
    -- of at most 32 bytes, a trailer that is not empty, and a freshness manager of the profile's
    -- length whose window is no longer than the period of the truncated counter. The frame that
    -- one transmits, at its last accepted value plus one, is accepted by the other with the padded
    -- payload, as any value `w` that lies above its own last accepted value by no more than the
    -- window and has the same low bytes; `w` is committed and the frame published.
    pub exchange :
        (s r : Stack) (last mine w : ℕ)
        → IsReady env p t profile n m key last s
        → IsReady env p t profile n m key mine r
        → env.fm.freshness_length ≡ n
        → env.fm.window_size ≤ modulus n
        → mine < w
        → w ≤ mine + env.fm.window_size
        → w % modulus n ≡ (last + 1) % modulus n
        → IsDelivered s r w
    unfolding frame
    exchange s r last mine w ready_s ready_r fl narrow lo hi residue =
        let received = receive_frame r mine (last + 1) w fl narrow ready_r lo hi residue in
        record {
          secured_pdu = frame (last + 1);
          sent =
              (transmit_secured-IsTransmitted env p t profile n m key a payload fits s last
                ready_s).0;
          answer = ap (λ x. x.1) received;
          after = rw received (LastValid-commit_freshness p w r.nvm);
          bus = ap (λ x. x.0.bus) received;
        }

    -- The MAC covers the truncated counter only. Under the conditions of `exchange`, and with a
    -- window that is not empty, the frame that a node transmits is accepted by a node with the
    -- same last accepted value, and also by any node that is ready with the same key and whose
    -- last accepted value lies below the value of the frame plus one period, by no more than the
    -- window: the frame is accepted again one period later.
    pub replay_accepted :
        (s r later : Stack) (last mine : ℕ)
        → IsReady env p t profile n m key last s
        → IsReady env p t profile n m key last r
        → IsReady env p t profile n m key mine later
        → env.fm.freshness_length ≡ n
        → 0 < env.fm.window_size
        → env.fm.window_size ≤ modulus n
        → mine < last + 1 + modulus n
        → last + 1 + modulus n ≤ mine + env.fm.window_size
        → (secured_pdu : Bytes) × ((transmit_secured env p a t s).1 ≡ ok secured_pdu)
          × ((receive_secured env p secured_pdu t r).1 ≡ ok (some payload))
          × ((receive_secured env p secured_pdu t later).1 ≡ ok (some payload))
    unfolding frame
    replay_accepted s r later last mine ready_s ready_r ready_later fl some_window narrow lo hi = (
      frame (last + 1),
      (transmit_secured-IsTransmitted env p t profile n m key a payload fits s last ready_s).0,
      ap (λ x. x.1)
          (receive_frame r last (last + 1) (last + 1) fl narrow ready_r (omega arith) (omega arith)
            refl),
      ap (λ x. x.1)
          (receive_frame later mine (last + 1) (last + 1 + modulus n) fl narrow ready_later lo hi
            (add-mod_right (last + 1) (modulus n))),
    )
