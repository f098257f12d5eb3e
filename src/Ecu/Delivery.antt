-- ===== src/Ecu/Delivery.antt =====
-- A signal from `send_signal` of one ECU over the bus to the handler of another: sim/sender_ecu.py,
-- sim/pdu_router.py, sim/can_bus.py and sim/receiver_ecu.py together.
use sec_oc.Base.{
  ℕ, ◌+◌, ◌%◌, ◌≤◌, ◌≡◌, ◌≢◌, refl, ap, ◌∙◌, String, true, some, [], ◌∷◌, ◌++◌, arith, eq_iff,
  length, length-append, length-take, ok, and_then, within,
}
use sec_oc.Base.Bytes.{Bytes, modulus, big_endian, length-big_endian}
use sec_oc.Base.Dict.{get_or, lookup}
use sec_oc.Bus.{CanBus, publish, get_last}
use sec_oc.Bus.Queue.{get_last-publish}
use sec_oc.Bus.Router.{IsWired, capacity}
use sec_oc.Crypto.Csm.{finished}
use sec_oc.Crypto.Library.{HasLengths}
use sec_oc.Freshness.{commit_freshness, load_last_valid_freshness}
use sec_oc.Nvm.Values.{as_int}
use sec_oc.Freshness.Window.{LastValid, LastValid-commit_freshness}
use sec_oc.Monitor.{normal_operation}
use sec_oc.Profile.{SecurityProfileEntry, can_fd, is_in}
use sec_oc.Secoc.{receive_secured, fit_payload}
use sec_oc.Secoc.Authenticator.{resolve_key_id}
use sec_oc.Secoc.Exchange.{frame, receive_frame}
use sec_oc.Secoc.Macs.{truncated_mac}
use sec_oc.Secoc.Objects.{Setup, Stack}
use sec_oc.Secoc.Transmit.{IsReady, transmit_secured-IsTransmitted}
use sec_oc.Ecu.{
  SenderEcu, ReceiverEcu, state, is_normal, notify, finish_frame, send_signal, on_frame_received,
}
use sec_oc.Ecu.Receiving.{get_or-increment, on_frame_up}
use sec_oc.Ecu.Sending.{send_signal-publishes}

-- Readiness does not depend on the bus.
IsReady-bus :
    (env : Setup) (p : String) (profile : SecurityProfileEntry) (n m : ℕ) (key : Bytes) (last : ℕ)
    (s : Stack) (bus : CanBus)
    → IsReady env p can_fd profile n m key last s
    → IsReady env p can_fd profile n m key last (record s { bus = bus })
unfolding resolve_key_id
IsReady-bus env p profile n m key last s bus ready = record {
  configured = record { found = ready.configured.found; lengths = ready.configured.lengths };
  key_id = ready.key_id;
  resolved = ready.resolved;
  held = ready.held;
  before = ready.before;
}

can_fd_fits : (a : Bytes) → fit_payload can_fd a ≡ ok a
unfolding fit_payload
can_fd_fits a = refl

-- The receiving ECU on the bus that another ECU has left.
abbrev pub on_bus : {H : Type 0} → CanBus → ReceiverEcu H → ReceiverEcu H
on_bus bus ecu = record ecu {
  base = record ecu.base { secoc = record ecu.base.secoc { bus = bus } };
}

module _ (env : Setup) {H : Type 0} (p : String) (profile : SecurityProfileEntry) (n m : ℕ)
    (key a : Bytes) (handler : H) where
  -- What `send_signal` of one ECU and `on_frame_received` of another do to a signal.
  pub record IsDelivered (sender : SenderEcu) (receiver : ReceiverEcu H) (v : ℕ) : Type 0 where
    pub secured_pdu : Bytes
    pub sent : (send_signal env p a sender).1 ≡ ok true
    pub on_the_bus : get_last p (send_signal env p a sender).0.base.secoc.bus ≡ some secured_pdu
    pub got : ReceiverEcu H
    pub received :
        on_frame_received env p secured_pdu
          (on_bus (send_signal env p a sender).0.base.secoc.bus receiver)
        ≡ (got, ok true)
    pub calls : got.calls ≡ receiver.calls ++ (handler, p, a) ∷ []
    pub counted : get_or p 0 got.rx_accepted_count ≡ get_or p 0 receiver.rx_accepted_count + 1
    pub rejected : got.rx_rejected_count ≡ receiver.rx_rejected_count
    pub committed : LastValid p got.base.secoc.nvm v

  finish_accepted :
      (ecu : ReceiverEcu H)
      → lookup p ecu.signal_handlers ≡ some handler
      → let (got, answer) = finish_frame p (some a) ecu in
        (answer ≡ ok true)
        × (got.calls ≡ ecu.calls ++ (handler, p, a) ∷ [])
        × (get_or p 0 got.rx_accepted_count ≡ get_or p 0 ecu.rx_accepted_count + 1)
        × (got.rx_rejected_count ≡ ecu.rx_rejected_count)
        × (got.base ≡ ecu.base)
  unfolding finish_frame notify
  finish_accepted ecu registered =
      rw registered (refl, refl, get_or-increment p ecu.rx_accepted_count, refl, refl)

  -- The frame at the counter value `v`.
  made : ℕ → Bytes
  made v = frame env p can_fd profile n m key a a (can_fd_fits a) v

  length-made : HasLengths env.lib → m ≤ 32 → (v : ℕ) → length (made v) ≡ length a + (n + m)
  unfolding made frame
  length-made laws short v =
      let field = big_endian n (v % modulus n) in
      let mac = truncated_mac env key a v n m in
      let digest = env.lib.hmac_digest key (a ++ field) in
      omega (
        arith,
        length-append a (field ++ mac),
        length-append field mac,
        length-big_endian n (v % modulus n),
        length-take m digest,
        laws.hmac_length key (a ++ field),
      )

  module _ (sender : SenderEcu) (receiver : ReceiverEcu H) (last mine : ℕ)
      (managed_tx : is_in p sender.managed_pdu_ids ≡ true)
      (managed_rx : is_in p receiver.managed_pdu_ids ≡ true)
      (normal_tx : sender.base.secoc.monitor.ecu_state ≡ normal_operation)
      (normal_rx : receiver.base.secoc.monitor.ecu_state ≡ normal_operation)
      (ready_tx : IsReady env p can_fd profile n m key last sender.base.secoc)
      (ready_rx : IsReady env p can_fd profile n m key mine receiver.base.secoc)
      (registered : lookup p receiver.signal_handlers ≡ some handler)
      (wired : IsWired sender.base.pdu_router) (laws : HasLengths env.lib) (short : m ≤ 32)
      (nonempty : n + m ≢ 0) (carried : length a + (n + m) ≤ capacity sender.base.pdu_router)
      (fl : env.fm.freshness_length ≡ n) (narrow : env.fm.window_size ≤ modulus n)
      (lo : mine ≤ last) (hi : last + 1 ≤ mine + env.fm.window_size) where
    -- The bus after the transmission.
    sent_bus : CanBus
    sent_bus = (send_signal env p a sender).0.base.secoc.bus

    sending :
        ((send_signal env p a sender).1 ≡ ok true)
        × (sent_bus ≡ publish p (made (last + 1)) sender.base.secoc.bus)
    unfolding made frame sent_bus
    sending =
        let (answer, bus, memory, count) =
          send_signal-publishes env p a sender profile n m key last (made (last + 1)) managed_tx
            normal_tx ready_tx
            (transmit_secured-IsTransmitted env p can_fd profile n m key a a (can_fd_fits a)
              sender.base.secoc last ready_tx).0
            wired (omega (arith, length-made laws short (last + 1), carried)) in
        (answer, bus)

    -- The receiving ECU as the frame finds it, and its node after the frame.
    waiting : ReceiverEcu H
    waiting = on_bus sent_bus receiver

    node_after : Stack
    node_after = record receiver.base.secoc {
      csm = record receiver.base.secoc.csm { state = finished };
      nvm = commit_freshness p (last + 1) receiver.base.secoc.nvm;
      bus = publish p (made (last + 1)) sent_bus;
    }

    node_receives :
        receive_secured env p (made (last + 1)) can_fd waiting.base.secoc
        ≡ (node_after, ok (some a))
    unfolding made waiting node_after
    node_receives =
        receive_frame env p can_fd profile n m key a a (can_fd_fits a) laws short nonempty
          waiting.base.secoc mine (last + 1) (last + 1) fl narrow
          (IsReady-bus env p profile n m key mine receiver.base.secoc sent_bus ready_rx)
          (omega arith) hi refl

    -- The receiving ECU before it finishes the frame.
    with_node : ReceiverEcu H
    with_node = record receiver { base = record receiver.base { secoc = node_after } }

    receiving :
        on_frame_received env p (made (last + 1)) waiting ≡ finish_frame p (some a) with_node
    unfolding waiting with_node state is_normal
    receiving =
        on_frame_up p env (made (last + 1)) waiting managed_rx (ap is_normal normal_rx)
        ∙ ap
            (λ x.
              and_then
                (within (λ stack. record waiting { base = record waiting.base { secoc = stack } })
                  x)
                (finish_frame p))
            node_receives

    -- A signal of two ECUs on one bus. Both manage the PDU and are in normal operation; their nodes
    -- are ready for it with the same profile and key, the receiving one at a counter value that is
    -- not above the sending one's and less than a window behind its next; the receiver has a handler
    -- for the PDU; the sender's router is wired and carries a frame of this length; the digests have
    -- 32 bytes, the authenticator at most 32, the trailer is not empty, and the freshness manager
    -- has the profile's length and a window no longer than the period. Then `send_signal` returns
    -- True; the last frame of the PDU on the bus, given to `on_frame_received` of the receiver, makes
    -- it return True, call the handler once, with the payload that was sent, count one accepted and
    -- no rejected frame, and commit the sender's next counter value.
    pub send_signal-on_frame_received : IsDelivered sender receiver (last + 1)
    unfolding sent_bus waiting with_node node_after
    send_signal-on_frame_received =
        let (sent, bus) = sending in
        let (answer, calls, counted, rejected, base) = finish_accepted with_node registered in
        record {
          secured_pdu = made (last + 1);
          sent = sent;
          on_the_bus =
              ap (get_last p) bus
              ∙ ground
                  (arith, get_last-publish p p (made (last + 1)) sender.base.secoc.bus, eq_iff p p);
          got = (finish_frame p (some a) with_node).0;
          received = receiving ∙ ap (λ r. ((finish_frame p (some a) with_node).0, r)) answer;
          calls = calls;
          counted = counted;
          rejected = rejected;
          committed =
              ap (λ b. as_int (load_last_valid_freshness p b.secoc.nvm)) base
              ∙ LastValid-commit_freshness p (last + 1) receiver.base.secoc.nvm;
        }
