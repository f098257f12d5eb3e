-- ===== src/Ecu/Sending.antt =====
-- What a sending ECU of sim/sender_ecu.py does in normal operation and in the lockout.
use sec_oc.Base.{ℕ, ◌+◌, ◌≤◌, ◌≡◌, refl, ap, ◌∙◌, String, true, length, ok, le→leb}
use sec_oc.Base.Bytes.{Bytes}
use sec_oc.Base.Dict.{get_or}
use sec_oc.Bus.{publish}
use sec_oc.Bus.Router.{IsWired, capacity, transmit-capacity}
use sec_oc.Monitor.{normal_operation}
use sec_oc.Profile.{SecurityProfileEntry, can_fd, is_in}
use sec_oc.Secoc.{transmit_secured, fit_payload}
use sec_oc.Secoc.Objects.{Setup, Stack}
use sec_oc.Secoc.Transmit.{IsReady, transmit_secured-IsTransmitted}
use sec_oc.Ecu.{SenderEcu, state, is_normal, on_secoc, put_on_bus, send_now, send_signal}
use sec_oc.Ecu.Receiving.{get_or-increment}

-- A frame that the wired router can carry goes out and is counted.
put_on_bus_lem :
    (p : String) (frame : Bytes) (ecu : SenderEcu)
    → IsWired ecu.base.pdu_router
    → length frame ≤ capacity ecu.base.pdu_router
    → let (ecu', sent) = put_on_bus p frame ecu in
      (sent ≡ ok true)
      × (ecu'.base.secoc.bus ≡ publish p frame ecu.base.secoc.bus)
      × (ecu'.base.secoc.nvm ≡ ecu.base.secoc.nvm)
      × (get_or p 0 ecu'.tx_count ≡ get_or p 0 ecu.tx_count + 1)
unfolding put_on_bus on_secoc
put_on_bus_lem p frame ecu wired fits =
    rw (transmit-capacity ecu.base.pdu_router p frame ecu.base.secoc.bus wired) (
      rw (le→leb (length frame) (capacity ecu.base.pdu_router) fits)
        (refl, refl, refl, get_or-increment p ecu.tx_count))

module _ (env : Setup) (p : String) (a : Bytes) (ecu : SenderEcu) where
  can_fd_fits : fit_payload can_fd a ≡ ok a
  unfolding fit_payload
  can_fd_fits = refl

  send_signal_up :
      is_in p ecu.managed_pdu_ids ≡ true
      → is_normal (state ecu.base) ≡ true
      → send_signal env p a ecu ≡ send_now env p a ecu
  unfolding send_signal
  send_signal_up managed up = rw (managed, up)

  send_now_made :
      (secured_pdu : Bytes) (s' : Stack)
      → transmit_secured env p a can_fd ecu.base.secoc ≡ (s', ok secured_pdu)
      → send_now env p a ecu ≡ put_on_bus p secured_pdu (on_secoc ecu s')
  unfolding send_now
  send_now_made secured_pdu s' made = rw made

  -- In normal operation, for a PDU that the ECU manages, whose node is ready to send and whose frame
  -- the wired router can carry, `send_signal` returns True, publishes exactly the frame that
  -- `transmit_secured` makes, adds one to the count of the PDU and leaves the memory as it was.
  pub send_signal-publishes :
      (profile : SecurityProfileEntry) (n m : ℕ) (key : Bytes) (last : ℕ) (secured_pdu : Bytes)
      → is_in p ecu.managed_pdu_ids ≡ true
      → ecu.base.secoc.monitor.ecu_state ≡ normal_operation
      → IsReady env p can_fd profile n m key last ecu.base.secoc
      → (transmit_secured env p a can_fd ecu.base.secoc).1 ≡ ok secured_pdu
      → IsWired ecu.base.pdu_router
      → length secured_pdu ≤ capacity ecu.base.pdu_router
      → let (ecu', sent) = send_signal env p a ecu in
        (sent ≡ ok true)
        × (ecu'.base.secoc.bus ≡ publish p secured_pdu ecu.base.secoc.bus)
        × (ecu'.base.secoc.nvm ≡ ecu.base.secoc.nvm)
        × (get_or p 0 ecu'.tx_count ≡ get_or p 0 ecu.tx_count + 1)
  unfolding state is_normal on_secoc
  send_signal-publishes profile n m key last secured_pdu managed normal ready made wired fits =
      let done =
        (transmit_secured-IsTransmitted env p can_fd profile n m key a a can_fd_fits ecu.base.secoc
          last ready).1 in
      let x = transmit_secured env p a can_fd ecu.base.secoc in
      let path =
        send_signal_up managed (ap is_normal normal)
        ∙ send_now_made secured_pdu x.0 (ap (λ r. (x.0, r)) made) in
      let (answer, bus, memory, count) =
        put_on_bus_lem p secured_pdu (on_secoc ecu x.0) wired fits in
      rw path (answer, bus ∙ ap (publish p secured_pdu) done.bus, memory ∙ done.memory, count)
