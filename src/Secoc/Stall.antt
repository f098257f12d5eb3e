-- ===== src/Secoc/Stall.antt =====
-- The Classic CAN scheme of sim/secoc.py, whose truncated counter is shorter than the one that
-- sim/freshness_manager.py reconstructs.
use native.Mathlib.Nat.{mod-lt}
use sec_oc.Base.{ℕ, ◌+◌, ◌%◌, ◌≤◌, ◌<◌, ◌≡◌, ap, String, none, arith, ok}
use sec_oc.Base.Bytes.{Bytes, modulus}
use sec_oc.Crypto.Library.{HasLengths}
use sec_oc.Freshness.Residue.{reconstruct_short}
use sec_oc.Profile.{SecurityProfileEntry, classic_can}
use sec_oc.Secoc.Objects.{Setup, Stack}
use sec_oc.Secoc.Delivery.{receive_secured-stale}
use sec_oc.Secoc.Exchange.{frame, parse_frame}
use sec_oc.Secoc.Transmit.{IsReady, transmit_secured-IsTransmitted}
use sec_oc.Secoc.{transmit_secured, receive_secured, reject, fit_payload}

module _ (env : Setup) (p : String) (profile : SecurityProfileEntry) (m : ℕ)
    (key a payload : Bytes) where
  -- On Classic CAN with a truncated counter of one byte, a freshness manager built for two bytes,
  -- a payload that fits, digests of 32 bytes and an authenticator of at most 32 bytes: if two
  -- nodes are ready with the same profile, key and last accepted value, and the low 16 bits of
  -- that value are at least 255 and more than a window below 65536, then the frame that one
  -- transmits is rejected by the other.
  pub classic_can_stalls :
      (s r : Stack) (last : ℕ)
      → fit_payload classic_can a ≡ ok payload
      → HasLengths env.lib
      → m ≤ 32
      → IsReady env p classic_can profile 1 m key last s
      → IsReady env p classic_can profile 1 m key last r
      → env.fm.freshness_length ≡ 2
      → 255 ≤ last % 65536
      → last % 65536 + env.fm.window_size < 65536
      → (secured_pdu : Bytes) × ((transmit_secured env p a classic_can s).1 ≡ ok secured_pdu)
        × ((receive_secured env p secured_pdu classic_can r).1 ≡ ok none)
  unfolding frame reject
  classic_can_stalls s r last fits laws short ready_s ready_r fl high low =
      let field : (last + 1) % modulus 1 < 256 = mod-lt (last + 1) (omega arith) in
      (
        frame env p classic_can profile 1 m key a payload fits (last + 1),
        (transmit_secured-IsTransmitted env p classic_can profile 1 m key a payload fits s last
            ready_s).0,
        ap (λ x. x.1)
            (receive_secured-stale env p _ classic_can r profile 1 m _ last
              (record {
                configured = ready_r.configured;
                parsed =
                    parse_frame env p classic_can profile 1 m key a payload fits laws short
                      (omega arith) (last + 1) ready_r.configured.lengths;
              })
              ready_r.before
              (rw fl (
                reconstruct_short 65536 last ((last + 1) % modulus 1) env.fm.window_size
                  (omega arith) (omega arith) low))),
      )
