-- ===== src/Api/Exchange.antt =====
-- A PDU through the two endpoints of api/routers/secoc.py: transmitted, received, received again.
use mathlib.Core.Path.{subst}
use sec_oc.Base.{
  ℕ, ◌+◌, ◌≤◌, ◌<◌, ◌≡◌, ◌≢◌, refl, sym, ap, ◌∙◌, String, Bool, true, false, ◌&&◌, Option, none,
  some, arith, inl, inr, ltb, Bool-cases,
}
use sec_oc.Base.{Outcome, ok, raised, and_then, within}
use sec_oc.Base.Bytes.{Bytes, modulus, big_endian}
use sec_oc.Bus.{publish}
use sec_oc.Crypto.Csm.{CsmState, finished}
use sec_oc.Crypto.Library.{HasLengths}
use sec_oc.Freshness.{commit_freshness}
use sec_oc.Freshness.Window.{LastValid, LastValid-commit_freshness}
use sec_oc.Monitor.{Monitor}
use sec_oc.Nvm.Hex.{hex, AllBytes}
use sec_oc.Pdu.RoundTrip.{build_secured_pdu_lem}
use sec_oc.Profile.{SecurityProfileEntry, can_fd, get_profile}
use sec_oc.Secoc
use sec_oc.Secoc.{fit_payload}
use sec_oc.Secoc.Authenticator.{resolve_key_id, check_budget}
use sec_oc.Secoc.Exchange.{frame, receive_frame}
use sec_oc.Secoc.Macs.{truncated_mac}
use sec_oc.Secoc.Objects.{Setup, Stack}
use sec_oc.Secoc.Replay.{replay_rejected}
use sec_oc.Secoc.Transmit.{IsReady, transmit_secured-build}
use sec_oc.Api.Texts.{HasBytes, AllBytes-append, AllBytes-take, AllBytes-big_endian, parse_hex-hex}
use sec_oc.Api.State.{AppState, broadcast_updates, get_status}
use sec_oc.Api.Endpoints.{
  ReceiveResponse, transmit_secured, receive_secured, transmit_bytes, receive_bytes,
  receive_response, excepting, transmit_status, receive_status,
}

-- What the two endpoints answer to a PDU that is transmitted, received and received again.
pub record IsExchanged (env : Setup) (online : ℕ → ℕ → Bool) (p : String) (payload : Bytes)
    (a : AppState) : Type 0 where
  pub secured_pdu_hex : String
  pub sent : AppState
  pub transmits :
      transmit_secured env online p (hex payload) "CAN_FD" a
      ≡ (sent, ok (record { pdu_id = p; secured_pdu_hex = secured_pdu_hex }))
  pub got : AppState
  pub first : ReceiveResponse
  pub receives : receive_secured env online p secured_pdu_hex "CAN_FD" sent ≡ (got, ok first)
  pub accepted : first.accepted ≡ true
  pub payload_back : first.authentic_pdu_hex ≡ some (hex payload)
  pub second : ReceiveResponse
  pub again : (receive_secured env online p secured_pdu_hex "CAN_FD" got).1 ≡ ok second
  pub refused : second.accepted ≡ false
  pub nothing_back : second.authentic_pdu_hex ≡ none

module _ (env : Setup) (p : String) (profile : SecurityProfileEntry) (n m : ℕ) (key : Bytes)
    (last : ℕ) where
  -- Readiness depends on no counter of operations, job state or event.
  IsReady-moved :
      (s : Stack) (seq : ℕ) (state : CsmState) (monitor : Monitor)
      → IsReady env p can_fd profile n m key last s
      → IsReady env p can_fd profile n m key last
          (record s { op_seq = seq; csm = record s.csm { state = state }; monitor = monitor })
  unfolding resolve_key_id
  IsReady-moved s seq state monitor ready = record {
    configured = record { found = ready.configured.found; lengths = ready.configured.lengths };
    key_id = ready.key_id;
    resolved = ready.resolved;
    held = record { stored = ready.held.stored; available = ready.held.available };
    before = ready.before;
  }

  -- The node after a transmission.
  transmitted : Stack → Stack
  transmitted s =
      check_budget env s.op_seq
        (record s { op_seq = s.op_seq + 1; csm = record s.csm { state = finished } })

  transmitted-IsReady :
      (s : Stack)
      → IsReady env p can_fd profile n m key last s
      → IsReady env p can_fd profile n m key last (transmitted s)
  unfolding transmitted check_budget
  transmitted-IsReady s ready =
      elim (Bool-cases (ltb 5000 (env.elapsed_us s.op_seq) && env.has_event_logger)) [
        | inl late ↦ rw late (IsReady-moved s (s.op_seq + 1) finished _ ready)
        | inr fine ↦ rw fine (IsReady-moved s (s.op_seq + 1) finished s.monitor ready)
      ]

  module _ (payload : Bytes) (fits : fit_payload can_fd payload ≡ ok payload) where
    -- The frame of the next counter value.
    next_frame : Bytes
    next_frame = frame env p can_fd profile n m key payload payload fits (last + 1)

    node_transmits :
        (s : Stack)
        → IsReady env p can_fd profile n m key last s
        → Secoc.transmit_secured env p payload can_fd s ≡ (transmitted s, ok next_frame)
    unfolding transmitted next_frame frame
    node_transmits s ready =
        transmit_secured-build env p can_fd profile n m key payload payload fits s last ready
        ∙ ap (λ o. (transmitted s, o))
            (build_secured_pdu_lem payload (truncated_mac env key payload (last + 1) n m) (last + 1)
              profile can_fd n m ready.configured.lengths)

    next_frame-AllBytes : HasBytes env.lib → AllBytes payload → AllBytes next_frame
    unfolding next_frame frame
    next_frame-AllBytes laws bytes = AllBytes-append payload _ bytes (
        AllBytes-append (big_endian n _) _ (AllBytes-big_endian n _)
          (AllBytes-take m _ (laws.hmac_bytes key _)))

    module _ (online : ℕ → ℕ → Bool) (a : AppState)
        (ready : IsReady env p can_fd profile n m key last a.stack) (laws : HasLengths env.lib)
        (byte_laws : HasBytes env.lib) (bytes : AllBytes payload) (short : m ≤ 32)
        (nonempty : n + m ≢ 0) (fl : env.fm.freshness_length ≡ n)
        (some_window : 0 < env.fm.window_size) (narrow : env.fm.window_size < modulus n) where
      -- The application after the transmission.
      after_transmit : AppState
      after_transmit = broadcast_updates online (record a { stack = transmitted a.stack })

      bytes_sent :
          transmit_bytes env online p payload can_fd a
          ≡ (record a { stack = transmitted a.stack }, ok next_frame)
      unfolding transmit_bytes
      bytes_sent =
          ap (λ x. excepting transmit_status (within (λ s. record a { stack = s }) x))
            (node_transmits a.stack ready)

      transmit_answers :
          transmit_secured env online p (hex payload) "CAN_FD" a
          ≡ (after_transmit, ok (record { pdu_id = p; secured_pdu_hex = hex next_frame }))
      unfolding transmit_secured after_transmit
      transmit_answers = rw (parse_hex-hex payload bytes) (rw bytes_sent refl)

      -- The node after the reception.
      received : Stack
      received =
          let s = transmitted a.stack in
          record s {
            csm = record s.csm { state = finished };
            nvm = commit_freshness p (last + 1) s.nvm;
            bus = publish p next_frame s.bus;
          }

      node_receives :
          Secoc.receive_secured env p next_frame can_fd (transmitted a.stack)
          ≡ (received, ok (some payload))
      unfolding received next_frame
      node_receives =
          receive_frame env p can_fd profile n m key payload payload fits laws short nonempty
            (transmitted a.stack) last (last + 1) (last + 1) fl (omega arith)
            (transmitted-IsReady a.stack ready) (omega arith) (omega arith) refl

      after_receive : AppState
      after_receive = broadcast_updates online (record after_transmit { stack = received })

      bytes_received : receive_bytes env online p next_frame can_fd after_transmit ≡ (
        after_receive,
        ok (
            receive_response p
              (some payload)
              (get_status (record after_transmit { stack = received }))),
      )
      unfolding receive_bytes after_receive after_transmit broadcast_updates transmitted
      bytes_received =
          ap
            (λ x.
              and_then
                (excepting receive_status (within (λ s. record after_transmit { stack = s }) x))
                (λ authentic_pdu a1. (
                  broadcast_updates online a1,
                  ok (receive_response p authentic_pdu (get_status a1)),
                )))
            node_receives

      frame_bytes : AllBytes next_frame
      frame_bytes = next_frame-AllBytes byte_laws bytes

      -- The endpoint, for the frame in hexadecimal, is the reception of the frame.
      receive_hex :
          (b : AppState)
          → receive_secured env online p (hex next_frame) "CAN_FD" b
            ≡ receive_bytes env online p next_frame can_fd b
      unfolding receive_secured
      receive_hex b = rw (parse_hex-hex next_frame frame_bytes) refl

      committed : LastValid p received.nvm (last + 1)
      unfolding received
      committed = LastValid-commit_freshness p (last + 1) (transmitted a.stack).nvm

      received_profiles : received.profiles ≡ (transmitted a.stack).profiles
      unfolding received
      received_profiles = refl

      node_refuses : (Secoc.receive_secured env p next_frame can_fd received).1 ≡ ok none
      node_refuses =
          replay_rejected env p next_frame can_fd (transmitted a.stack) payload (last + 1) received
            (last + 1) (ap (λ x. x.1) node_receives)
            (subst (λ x. LastValid p x.0.nvm (last + 1)) (sym node_receives) committed)
            (ap (get_profile p) received_profiles) committed (omega arith)
            (let e = ap modulus fl in omega arith)

      -- A reception that the node refuses is answered.
      bytes_refused :
          (b : AppState)
          → (Secoc.receive_secured env p next_frame can_fd b.stack).1 ≡ ok none
          → (response : ReceiveResponse) × ((receive_bytes env online p next_frame can_fd b).1
              ≡ ok response)
            × (response.accepted ≡ false)
            × (response.authentic_pdu_hex ≡ none)
      unfolding receive_bytes receive_response
      bytes_refused b refused =
          refusal (Secoc.receive_secured env p next_frame can_fd b.stack) refused
        where
          refusal :
              (x : Stack × Outcome (Option Bytes))
              → x.1 ≡ ok none
              → (response : ReceiveResponse) × ((and_then
                    (excepting receive_status (within (λ s. record b { stack = s }) x))
                    (λ authentic_pdu a1. (
                      broadcast_updates online a1,
                      ok (receive_response p authentic_pdu (get_status a1)),
                    ))).1
                  ≡ ok response)
                × (response.accepted ≡ false)
                × (response.authentic_pdu_hex ≡ none)
          refusal (s, ok none) e = (_, refl, refl, refl)
          refusal (s, ok (some v)) e = absurd (cc)
          refusal (s, raised d) e = absurd (cc)

      -- For a PDU with a profile, a key and a counter value, in an application whose HSM answers: a
      -- payload posted in hexadecimal to the transmit endpoint for CAN FD is answered with a frame
      -- in hexadecimal; that frame, posted to the receive endpoint, is accepted and gives the
      -- payload back in hexadecimal; posted a second time it is refused. The digests are bytes, 32
      -- of them, the authenticator has at most 32, the trailer is not empty, and the window is not
      -- empty and shorter than the period of the truncated counter.
      pub endpoints_exchange : IsExchanged env online p payload a
      endpoints_exchange =
          let (response, answer, denied, nothing) =
            bytes_refused after_receive after_receive_refuses in
          record {
            secured_pdu_hex = hex next_frame;
            sent = after_transmit;
            transmits = transmit_answers;
            got = after_receive;
            first = _;
            receives = receive_hex after_transmit ∙ bytes_received;
            accepted = unfold receive_response in refl;
            payload_back = unfold receive_response in refl;
            second = response;
            again = ap (λ x. x.1) (receive_hex after_receive) ∙ answer;
            refused = denied;
            nothing_back = nothing;
          }
        where
          after_receive_refuses :
              (Secoc.receive_secured env p next_frame can_fd after_receive.stack).1 ≡ ok none
          after_receive_refuses = unfold after_receive broadcast_updates in node_refuses
