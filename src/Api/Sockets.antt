-- ===== src/Api/Sockets.antt =====
-- api/websocket.py: the connected clients of the dashboard. A client is a number; the JSON text of
-- a message is left out, and a broadcast runs to its end before another task changes the list.
use sec_oc.Base.{ℕ, ◌+◌, String, Bool, Option, List, [], ◌∷◌, ◌++◌, ◌==◌, if◌then◌else◌}
use sec_oc.Monitor.{EcuStateValue}
use sec_oc.Monitor.Events.{DemEvent}

-- What `AppState.get_status` returns.
pub record Status : Type 0 where
  pub ecu_state : EcuStateValue
  pub locked_out : Bool
  pub boot_integrity_ok : Option Bool
  pub failed_component : Option String

-- The two payloads that are broadcast.
pub data Payload : Type 0 where
  dem_event : DemEvent → Payload
  ecu_state : Status → Payload

-- `ConnectionManager`, with what each client has received and how many broadcasts there were.
pub record ConnectionManager : Type 0 where
  pub connections : List ℕ
  pub received : List (ℕ × Payload)
  pub broadcasts : ℕ

-- `ConnectionManager.__init__`
unfoldable pub new_manager : ConnectionManager
new_manager = record { connections = []; received = []; broadcasts = 0 }

-- `connect`
unfoldable pub connect : ℕ → ConnectionManager → ConnectionManager
connect ws m = record m { connections = m.connections ++ ws ∷ [] }

-- `list.remove(ws)`, of a client that is in the list.
unfoldable pub remove : ℕ → List ℕ → List ℕ
remove ws [] = []
remove ws (v ∷ connections) =
    let rest = remove ws connections in if v == ws then connections else v ∷ rest

-- `for ws in dead: self._connections.remove(ws)`
unfoldable pub remove_all : List ℕ → List ℕ → List ℕ
remove_all [] connections = connections
remove_all (ws ∷ dead) connections = remove_all dead (remove ws connections)

-- `sends ws` says whether `ws.send_text` returns; the clients for which it raises are the dead ones.
module _ (sends : ℕ → Bool) where
  unfoldable pub dead_of : List ℕ → List ℕ
  dead_of [] = []
  dead_of (ws ∷ connections) =
      let rest = dead_of connections in if sends ws then rest else ws ∷ rest

  unfoldable pub sent_to : Payload → List ℕ → List (ℕ × Payload)
  sent_to payload [] = []
  sent_to payload (ws ∷ connections) =
      let rest = sent_to payload connections in if sends ws then (ws, payload) ∷ rest else rest

-- `online t ws` says whether a text is sent to `ws` at the broadcast with the number `t`.
module _ (online : ℕ → ℕ → Bool) where
  -- `broadcast`, of which `broadcast_dem_event` and `broadcast_ecu_state` are two uses.
  unfoldable pub broadcast : Payload → ConnectionManager → ConnectionManager
  unfolding remove_all dead_of sent_to
  broadcast payload m =
      let sends = online m.broadcasts in
      record {
        connections = remove_all (dead_of sends m.connections) m.connections;
        received = m.received ++ sent_to sends payload m.connections;
        broadcasts = m.broadcasts + 1;
      }

  -- The loop of `broadcast_updates` in api/events.py, over the new events.
  unfoldable pub broadcast_each : List DemEvent → ConnectionManager → ConnectionManager
  unfolding broadcast
  broadcast_each [] m = m
  broadcast_each (e ∷ events) m = broadcast_each events (broadcast (dem_event e) m)

-- `disconnect`; a client that is not in the list makes `list.remove` raise in its own task, and
-- changes nothing.
unfoldable pub disconnect : ℕ → ConnectionManager → ConnectionManager
unfolding remove
disconnect ws m = record m { connections = remove ws m.connections }
