-- ===== src/Secoc/Objects.antt =====
-- The objects that one SecOC node is built from, and what its environment fixes.
use sec_oc.Base.{ℕ, Bool}
use sec_oc.Base.Dict.{Dict}
use sec_oc.Bus.{CanBus}
use sec_oc.Crypto.Csm.{Csm}
use sec_oc.Crypto.Library.{Library}
use sec_oc.Freshness.{FreshnessManager}
use sec_oc.Monitor.{Monitor}
use sec_oc.Nvm.{Nvm}
use sec_oc.Profile.{SecurityProfileEntry}

-- The state that the calls of a node read and write. `profiles` is what its `SecurityProfile`
-- holds, `op_seq` belongs to its `Authenticator`, the bus is the one that all nodes share.
pub record Stack : Type 0 where
  pub profiles : Dict SecurityProfileEntry
  pub nvm : Nvm
  pub csm : Csm
  pub op_seq : ℕ
  pub monitor : Monitor
  pub bus : CanBus

-- What does not change: the packages, the arguments of the constructors, and the time that the
-- profiler measures for each generation of a MAC, by its number, in microseconds (0 for the
-- profiler that does nothing).
pub record Setup : Type 0 where
  pub lib : Library
  pub fm : FreshnessManager
  pub has_key_manager : Bool
  pub has_event_logger : Bool
  pub elapsed_us : ℕ → ℕ
