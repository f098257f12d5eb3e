-- ===== src/Bus.antt =====
-- The simulated CAN bus and its transports: sim/can_bus.py, sim/can_interface.py,
-- sim/can_fd_interface.py and sim/pdu_router.py. The bus is the one object of its class, so it is
-- passed along. A PDU identifier is a text.
pub mod Router
pub mod Queue
use sec_oc.Base.{
  ℕ, String, Bool, true, false, Option, none, some, List, [], ◌∷◌, ◌++◌, ltb, length, if◌then◌else◌,
}
use sec_oc.Base.{Method, ok, raised, payload_too_large_error}
use sec_oc.Base.Bytes.{Bytes}
use sec_oc.Base.Dict.{Dict, lookup, insert}
use sec_oc.Config.{can_max_payload_bytes, can_fd_max_payload_bytes}

pub record CanBus : Type 0 where
  pub running : Bool
  pub last_frames : Dict Bytes
  pub queue : List (String × Bytes)

-- `CanBus.__new__`, the first time.
pub new_bus : CanBus
new_bus = record { running = false; last_frames = []; queue = [] }

-- `CanBus.start`
pub start : CanBus → CanBus
start bus = record { running = true; last_frames = []; queue = [] }

-- `CanBus.publish`
pub publish : String → Bytes → CanBus → CanBus
publish pdu_id frame bus = record bus {
  last_frames = insert pdu_id frame bus.last_frames;
  queue = bus.queue ++ (pdu_id, frame) ∷ [];
}

-- `CanBus.get_last`
pub get_last : String → CanBus → Option Bytes
get_last pdu_id bus = lookup pdu_id bus.last_frames

pop : List (String × Bytes) → CanBus → CanBus × Option (String × Bytes)
pop [] bus = (bus, none)
pop (frame ∷ frames) bus = (record bus { queue = frames }, some frame)

-- `CanBus.consume`
pub consume : CanBus → CanBus × Option (String × Bytes)
unfolding pop
consume bus = pop bus.queue bus

-- `CanInterface` and its subclass `CanFdInterface`, by their limit.
pub record CanInterface : Type 0 where
  pub ecu_id : String
  pub max_payload_bytes : ℕ

unfoldable pub can_interface : String → CanInterface
can_interface ecu_id = record { ecu_id = ecu_id; max_payload_bytes = can_max_payload_bytes }

unfoldable pub can_fd_interface : String → CanInterface
can_fd_interface ecu_id = record { ecu_id = ecu_id; max_payload_bytes = can_fd_max_payload_bytes }

-- `CanInterface.send_frame`
pub send_frame : CanInterface → String → Bytes → Method CanBus (Unit {0})
send_frame transport pdu_id frame bus =
    if ltb transport.max_payload_bytes (length frame)
    then (bus, raised payload_too_large_error)
    else (publish pdu_id frame bus, ok tt)

retry : (CanBus → CanBus) → CanBus × Option (String × Bytes) → CanBus × Option (String × Bytes)
retry meanwhile (bus, some frame) = (bus, some frame)
retry meanwhile (bus, none) = consume (meanwhile bus)

-- `CanInterface.receive_frame`: `meanwhile` is what other tasks do to the bus while it sleeps.
pub receive_frame : (CanBus → CanBus) → CanBus → CanBus × Option (String × Bytes)
unfolding retry
receive_frame meanwhile bus = retry meanwhile (consume bus)
