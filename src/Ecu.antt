-- ===== src/Ecu.antt =====
-- sim/ecu_base.py, sim/sender_ecu.py and sim/receiver_ecu.py: the ECUs around a SecOC node. The
-- state of an ECU is the one that the policy engine of its node sets; log lines are left out.
pub mod Lifecycle
pub mod Receiving
pub mod Sending
pub mod Lockout
pub mod Delivery
use sec_oc.Base.{
  ℕ, ◌+◌, String, Bool, true, false, not, Option, none, some, List, [], ◌∷◌, ◌++◌, if◌then◌else◌,
}
use sec_oc.Base.{
  Method, Outcome, ok, raised, ecu_base_error, sender_ecu_error, receiver_ecu_error, and_then,
  within,
}
use sec_oc.Base.Bytes.{Bytes}
use sec_oc.Base.Dict.{Dict, lookup, insert, get_or}
use sec_oc.Bus.Router.{PduRouter, register_ecu, deregister_ecu, transmit}
use sec_oc.Monitor.{EcuStateValue, normal_operation, security_violation_lockout, boot_blocked}
use sec_oc.Profile.{can_fd, is_in}
use sec_oc.Secoc
use sec_oc.Secoc.{transmit_secured, receive_secured}
use sec_oc.Secoc.Objects.{Setup, Stack}

-- `ECUBase`: a router refers to an ECU by its name.
pub record EcuBase : Type 0 where
  pub ecu_id : String
  pub secoc : Stack
  pub pdu_router : PduRouter String
  pub running : Bool

-- `ECUBase.state`
pub state : EcuBase → EcuStateValue
state ecu = ecu.secoc.monitor.ecu_state

pub is_normal : EcuStateValue → Bool
is_normal normal_operation = true
is_normal security_violation_lockout = false
is_normal boot_blocked = false

register : EcuBase → EcuBase
register ecu = record ecu {
  pdu_router = register_ecu ecu.ecu_id ecu.ecu_id ecu.pdu_router;
  running = true;
}

-- `ECUBase.on_startup`
pub on_startup : Method EcuBase (Unit {0})
unfolding register
on_startup ecu = if ecu.running then (ecu, raised ecu_base_error) else (register ecu, ok tt)

-- `ECUBase.on_reset`
pub on_reset : EcuBase → EcuBase
unfolding register
on_reset ecu =
    let recovered = record ecu { secoc = Secoc.reset ecu.secoc } in
    if recovered.running then recovered else register recovered

-- `ECUBase.shutdown`
pub shutdown : EcuBase → EcuBase
shutdown ecu = record ecu { pdu_router = deregister_ecu ecu.ecu_id ecu.pdu_router; running = false }

-- `SenderECU`
pub record SenderEcu : Type 0 where
  pub base : EcuBase
  pub managed_pdu_ids : List String
  pub tx_count : Dict ℕ

-- `ReceiverECU`: `H` is the type of the application's callbacks, `calls` the calls made of them.
pub record ReceiverEcu (H : Type 0) : Type 0 where
  pub base : EcuBase
  pub managed_pdu_ids : List String
  pub signal_handlers : Dict H
  pub rx_accepted_count : Dict ℕ
  pub rx_rejected_count : Dict ℕ
  pub calls : List (H × String × Bytes)

-- `self.tx_count[pdu_id] = self.tx_count.get(pdu_id, 0) + 1`, and the like.
pub increment : String → Dict ℕ → Dict ℕ
increment pdu_id counts = insert pdu_id (get_or pdu_id 0 counts + 1) counts

on_secoc : SenderEcu → Stack → SenderEcu
on_secoc ecu stack = record ecu { base = record ecu.base { secoc = stack } }

-- The end of `send_signal`: the frame goes to the router, and the transmission is counted.
put_on_bus : String → Bytes → Method SenderEcu Bool
unfolding on_secoc increment
put_on_bus pdu_id secured_pdu ecu =
    and_then
      (within (λ bus. on_secoc ecu (record ecu.base.secoc { bus = bus }))
        (transmit ecu.base.pdu_router pdu_id secured_pdu ecu.base.secoc.bus))
      λ _ sent. (record sent { tx_count = increment pdu_id sent.tx_count }, ok true)

module _ {H : Type 0} where
  -- The call of the handler, if there is one.
  notify : Option H → String → Bytes → ReceiverEcu H → ReceiverEcu H
  notify none pdu_id authentic_pdu ecu = ecu
  notify (some handler) pdu_id authentic_pdu ecu = record ecu {
    calls = ecu.calls ++ (handler, pdu_id, authentic_pdu) ∷ [];
  }

  count_rejected : String → ReceiverEcu H → ReceiverEcu H × Outcome Bool
  unfolding increment
  count_rejected pdu_id ecu =
      (record ecu { rx_rejected_count = increment pdu_id ecu.rx_rejected_count }, ok false)

  -- The end of `on_frame_received`, for the answer of the node.
  pub finish_frame : String → Option Bytes → Method (ReceiverEcu H) Bool
  unfolding count_rejected notify increment
  finish_frame pdu_id none ecu = count_rejected pdu_id ecu
  finish_frame pdu_id (some authentic_pdu) ecu =
      let counted = record ecu { rx_accepted_count = increment pdu_id ecu.rx_accepted_count } in
      (notify (lookup pdu_id counted.signal_handlers) pdu_id authentic_pdu counted, ok true)

module _ (env : Setup) where
  -- `send_signal`, in normal operation.
  send_now : String → Bytes → Method SenderEcu Bool
  unfolding on_secoc put_on_bus
  send_now pdu_id authentic_pdu ecu =
      and_then
        (within (on_secoc ecu) (transmit_secured env pdu_id authentic_pdu can_fd ecu.base.secoc))
        (put_on_bus pdu_id)

  -- `SenderECU.send_signal`
  pub send_signal : String → Bytes → Method SenderEcu Bool
  unfolding is_normal state send_now
  send_signal pdu_id authentic_pdu ecu =
      if is_in pdu_id ecu.managed_pdu_ids
      then if is_normal (state ecu.base) then send_now pdu_id authentic_pdu ecu else (ecu, ok false)
      else (ecu, raised sender_ecu_error)

  -- `SenderECU.transmit_periodic`: the payload is asked for when it is sent.
  pub transmit_periodic : String → (Unit {0} → Bytes) → Method SenderEcu (Unit {0})
  transmit_periodic pdu_id authentic_pdu_provider ecu =
      if is_in pdu_id ecu.managed_pdu_ids
      then and_then (send_signal pdu_id (authentic_pdu_provider tt) ecu) (λ _ e. (e, ok tt))
      else (ecu, raised sender_ecu_error)

  module _ {H : Type 0} where
    -- `ReceiverECU.on_frame_received`
    pub on_frame_received : String → Bytes → Method (ReceiverEcu H) Bool
    unfolding is_normal state count_rejected finish_frame
    on_frame_received pdu_id secured_pdu ecu =
        if is_in pdu_id ecu.managed_pdu_ids
        then if is_normal (state ecu.base)
          then and_then
              (within (λ stack. record ecu { base = record ecu.base { secoc = stack } })
                (receive_secured env pdu_id secured_pdu can_fd ecu.base.secoc))
              (finish_frame pdu_id)
          else count_rejected pdu_id ecu
        else (ecu, ok false)

-- `ReceiverECU.register_signal_handler`
pub register_signal_handler : {H : Type 0} → String → H → Method (ReceiverEcu H) (Unit {0})
register_signal_handler pdu_id handler ecu =
    if is_in pdu_id ecu.managed_pdu_ids
    then (record ecu { signal_handlers = insert pdu_id handler ecu.signal_handlers }, ok tt)
    else (ecu, raised receiver_ecu_error)
