-- ===== src/Nvm.antt =====
-- sim/nvm.py: a key-value store with a copy on disk, written whole after each change. The disk
-- holds the JSON document; writing the file and renaming it are one step.
pub mod Values
pub mod Hex
pub mod Keys
pub mod Codec
pub mod RoundTrip
pub mod Store
use sec_oc.Base.{ℕ, ◌+◌, ◌-◌, ◌^◌, String, Option, none, some, [], leb, if◌then◌else◌}
use sec_oc.Base.{Method, Outcome, ok, raised, nvm_error, ◌>>=◌, and_then}
use sec_oc.Base.Dict.{Dict, get_or, insert}
use Values.{Value, null, integer, as_int}
use Codec.{encode_store, decode_document}

pub record Nvm : Type 0 where
  pub store : Dict Value
  pub file : Option Value

-- `NvM._load` on the document found on disk; a missing file leaves the store empty.
pub load : Option Value → Outcome (Dict Value)
unfolding decode_document
load none = ok []
load (some document) = decode_document document

-- `NvM.__init__`
pub open_nvm : Option Value → Outcome Nvm
unfolding load
open_nvm file = do store ← load file; ok (record { store = store; file = file })

-- `NvM.flush`
unfoldable pub flush : Nvm → Nvm
flush nvm = record nvm { file = some (encode_store nvm.store) }

-- `NvM.read`
unfoldable pub read : String → Value → Nvm → Value
read key default nvm = get_or key default nvm.store

-- `NvM.write`
unfoldable pub write : String → Value → Nvm → Nvm
unfolding flush
write key value nvm = flush (record nvm { store = insert key value nvm.store })

abbrev pub counter_limit : ℕ
counter_limit = 2 ^ 63 - 1

-- `NvM.increment_counter`
pub increment_counter : String → Method Nvm ℕ
unfolding read write
increment_counter key nvm =
    and_then (nvm, as_int (read key (integer 0) nvm))
      λ current nvm.
        if leb counter_limit current
        then (nvm, raised (nvm_error "counter_overflow"))
        else (write key (integer (current + 1)) nvm, ok (current + 1))

-- `NvM.reset_to_defaults`
pub reset_to_defaults : Nvm → Nvm
unfolding flush
reset_to_defaults nvm = flush (record nvm { store = [] })
