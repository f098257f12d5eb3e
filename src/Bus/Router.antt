-- ===== src/Bus/Router.antt =====
-- sim/pdu_router.py: the choice of a transport, and the delivery of a frame to its ECU.
use sec_oc.Base.{
  ℕ, ◌≡◌, inl, inr, Option-cases, String, Bool, true, false, Option, none, some, arith, eq_iff, leb,
  length, if◌then◌else◌,
}
use sec_oc.Base.{Method, ok, raised, payload_too_large_error}
use sec_oc.Base.Bytes.{Bytes}
use sec_oc.Base.Dict.{Dict, lookup, insert, erase, lookup-insert_self, lookup-erase}
use sec_oc.Config.{can_max_payload_bytes, can_fd_max_payload_bytes}
use sec_oc.Bus.{CanBus, CanInterface, publish, send_frame}

-- `E` is the type of references to ECUs.
pub record PduRouter (E : Type 0) : Type 0 where
  pub ecu_id : String
  pub can_if : CanInterface
  pub can_fd_if : Option CanInterface
  pub registered_ecus : Dict E

-- The second half of `route_to_bus`.
route_fd : Option CanInterface → String → Bytes → Method CanBus (Unit {0})
route_fd none pdu_id frame bus = (bus, raised payload_too_large_error)
route_fd (some fd) pdu_id frame bus =
    if leb (length frame) can_fd_max_payload_bytes
    then send_frame fd pdu_id frame bus
    else (bus, raised payload_too_large_error)

module _ {E : Type 0} where
  -- `PduRouter.register_ecu`
  pub register_ecu : String → E → PduRouter E → PduRouter E
  register_ecu id ecu router = record router {
    registered_ecus = insert id ecu router.registered_ecus;
  }

  -- `PduRouter.deregister_ecu`
  pub deregister_ecu : String → PduRouter E → PduRouter E
  deregister_ecu id router = record router { registered_ecus = erase id router.registered_ecus }

  -- `PduRouter.is_registered`
  unfoldable pub is_registered : String → PduRouter E → Bool
  is_registered id router = elim (lookup id router.registered_ecus) [
    | none ↦ false
    | some ecu ↦ true
  ]

  -- `PduRouter.route_to_bus`
  pub route_to_bus : PduRouter E → String → Bytes → Method CanBus (Unit {0})
  unfolding route_fd
  route_to_bus router pdu_id frame bus =
      if leb (length frame) can_max_payload_bytes
      then send_frame router.can_if pdu_id frame bus
      else route_fd router.can_fd_if pdu_id frame bus

  -- `PduRouter.transmit`
  pub transmit : PduRouter E → String → Bytes → Method CanBus (Unit {0})
  transmit router pdu_id frame = route_to_bus router pdu_id frame

  -- `PduRouter.route_from_bus`: `on_frame_received` is the method of the ECU that is found.
  pub route_from_bus :
      {S : Type 0} → PduRouter E → (E → String → Bytes → S → S) → String → Bytes → S → S × Bool
  route_from_bus router on_frame_received pdu_id frame s =
      elim (lookup router.ecu_id router.registered_ecus) [
        | none ↦ (s, false)
        | some ecu ↦ (on_frame_received ecu pdu_id frame s, true)
      ]

-- The largest frame that a router can send.
abbrev pub capacity : {E : Type 0} → PduRouter E → ℕ
capacity router = elim router.can_fd_if [ none ↦ 8 | some fd ↦ 64 ]

-- The router was built with a Classic CAN interface, and with a CAN FD interface or none.
pub record IsWired {E : Type 0} (router : PduRouter E) : Type 0 where
  pub classic : router.can_if.max_payload_bytes ≡ 8
  pub fd : (i : CanInterface) → router.can_fd_if ≡ some i → i.max_payload_bytes ≡ 64

-- A wired router sends every frame that fits its capacity, and nothing else: a larger frame raises
-- and leaves the bus as it was. The limit of the chosen interface never adds a refusal.
pub transmit-capacity :
    {E : Type 0} (router : PduRouter E) (pdu_id : String) (frame : Bytes) (bus : CanBus)
    → IsWired router
    → transmit router pdu_id frame bus ≡ (
        if leb (length frame) (capacity router)
        then (publish pdu_id frame bus, ok tt)
        else (bus, raised payload_too_large_error))
unfolding transmit route_to_bus send_frame
transmit-capacity router pdu_id frame bus w = elim (Option-cases router.can_fd_if) [
  | inl e ↦ ground (arith, w.classic)
  | inr (i, e) ↦ ground (arith, w.classic, w.fd i e)
]

module _ {E : Type 0} where
  pub is_registered-register_ecu :
      (id : String) (ecu : E) (router : PduRouter E)
      → is_registered id (register_ecu id ecu router) ≡ true
  unfolding is_registered register_ecu
  is_registered-register_ecu id ecu router =
      ground (arith, lookup-insert_self id ecu router.registered_ecus)

  pub is_registered-deregister_ecu :
      (id : String) (router : PduRouter E) → is_registered id (deregister_ecu id router) ≡ false
  unfolding is_registered deregister_ecu
  is_registered-deregister_ecu id router =
      ground (arith, lookup-erase id id router.registered_ecus, eq_iff id id)
