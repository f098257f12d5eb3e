-- ===== src/Examples/Ecus.antt =====
-- The properties of ECUs, on a brake ECU that sends and receives one PDU.
use sec_oc.Base.{
  ℕ, ◌+◌, ◌≡◌, ◌≤◌, refl, sym, ap, String, true, false, none, some, [], ◌∷◌, length, arith, ok,
}
use sec_oc.Base.Dict.{get_or, lookup}
use sec_oc.Bus.{CanInterface, can_interface, can_fd_interface}
use sec_oc.Bus.Router.{PduRouter, IsWired, capacity}
use sec_oc.Ecu.{EcuBase, SenderEcu, ReceiverEcu, on_frame_received}
use sec_oc.Ecu.Receiving.{IsHandled, on_frame_received-IsHandled, dropped_locked, receive_frames}
use sec_oc.Ecu.{state}
use sec_oc.Ecu.Lockout.{dropped_none, fifth_failure_locks}
use sec_oc.Freshness.Window.{LastValid-commit_freshness}
use sec_oc.Monitor.{get_failure_count}
use sec_oc.Secoc.Replay.{replay_rejected}
use sec_oc.Examples.Messages.{accepted6, committed6}
use sec_oc.Examples.Node.{empty_nvm}
use sec_oc.Ecu.Delivery.{IsDelivered, send_signal-on_frame_received}
use sec_oc.Monitor.{security_violation_lockout}
use sec_oc.Profile.{is_in, can_fd}
use sec_oc.Secoc.Objects.{Stack}
use sec_oc.Examples.Messages.{payload, frame6}
use sec_oc.Examples.Node.{
  brake, brake_profile, setup, toy_library-HasLengths, key_bytes, quiet_monitor, node,
  node-IsReady_fd,
}

abbrev pub router : PduRouter String
router = record {
  ecu_id = "BrakeECU";
  can_if = can_interface "BrakeECU";
  can_fd_if = some (can_fd_interface "BrakeECU");
  registered_ecus = [];
}

limit : (i : CanInterface) → some (can_fd_interface "BrakeECU") ≡ some i → i.max_payload_bytes ≡ 64
unfolding can_fd_interface
limit i e = ap (λ o. elim o [ none ↦ 64 | some j ↦ j.max_payload_bytes ]) (sym e)

abbrev ecu_at : Stack → EcuBase
ecu_at secoc = record { ecu_id = "BrakeECU"; secoc = secoc; pdu_router = router; running = false }

abbrev sender : SenderEcu
sender = record { base = ecu_at (node 5); managed_pdu_ids = brake ∷ []; tx_count = [] }

abbrev receiver_at : Stack → ReceiverEcu ℕ
receiver_at secoc = record {
  base = ecu_at secoc;
  managed_pdu_ids = brake ∷ [];
  signal_handlers = (brake, 1) ∷ [];
  rx_accepted_count = [];
  rx_rejected_count = [];
  calls = [];
}

abbrev locked_node : Stack
locked_node = record (node 5) {
  monitor = record quiet_monitor { ecu_state = security_violation_lockout; locked_out = true };
}

managed : is_in brake (brake ∷ []) ≡ true
unfolding is_in
managed = refl

pub wired : IsWired router
unfolding can_interface can_fd_interface
wired = record { classic = refl; fd = λ i e. limit i e }

handled : lookup brake (receiver_at (node 5)).signal_handlers ≡ some 1
unfolding lookup
handled = refl

on_frame_received-IsHandled_example :
    IsHandled brake
      (receiver_at locked_node)
      (on_frame_received setup brake frame6 (receiver_at locked_node)).0
      false
on_frame_received-IsHandled_example =
    on_frame_received-IsHandled brake setup frame6 (receiver_at locked_node) false managed
      (dropped_locked setup brake frame6 (receiver_at locked_node) refl)

room : length payload + (2 + 8) ≤ capacity sender.base.pdu_router
room = omega arith

-- The sender and the receiver have both reached the value 5.
send_signal-on_frame_received_example :
    IsDelivered setup brake brake_profile 2 8 key_bytes payload 1 sender (receiver_at (node 5)) 6
send_signal-on_frame_received_example =
    send_signal-on_frame_received setup brake brake_profile 2 8 key_bytes payload 1 sender
      (receiver_at (node 5)) 5 5 managed managed refl refl (node-IsReady_fd 5) (node-IsReady_fd 5)
      handled wired toy_library-HasLengths (omega arith) (omega arith) room refl (omega arith)
      (omega arith) (omega arith)

-- A node that has counted four failures of the PDU.
abbrev weary_node : Stack
weary_node = record (node 6) { monitor = record quiet_monitor { counts = (brake, 4) ∷ [] } }

four_counted : 4 ≤ get_failure_count brake weary_node.monitor
unfolding get_failure_count get_or lookup
four_counted = omega arith

replayed : (on_frame_received setup brake frame6 (receiver_at weary_node)).1 ≡ ok false
replayed = dropped_none setup brake frame6 (receiver_at weary_node) managed refl (
    replay_rejected setup brake frame6 can_fd (node 5) payload 6 weary_node 6 accepted6 committed6
      refl (LastValid-commit_freshness brake 6 empty_nvm) (omega arith) (omega arith))

fifth_failure_locks_example :
    let ecu' = (on_frame_received setup brake frame6 (receiver_at weary_node)).0 in
    (state ecu'.base ≡ security_violation_lockout)
    × ((receive_frames setup ((brake, frame6) ∷ []) ecu').base ≡ ecu'.base)
    × ((receive_frames setup ((brake, frame6) ∷ []) ecu').calls ≡ ecu'.calls)
fifth_failure_locks_example =
    fifth_failure_locks setup brake frame6 (receiver_at weary_node) ((brake, frame6) ∷ []) managed
      refl refl four_counted replayed
