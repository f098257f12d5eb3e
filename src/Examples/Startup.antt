-- ===== src/Examples/Startup.antt =====
-- The application on an empty memory, with the profile of one PDU.
use sec_oc.Base.{◌≡◌, String, true, [], ◌∷◌, ok}
use sec_oc.Base.Bytes.{Bytes}
use sec_oc.Keys.Provision.{resolve_key-none}
use sec_oc.Nvm.Store.{read_empty}
use sec_oc.Profile.{SecurityProfile}
use sec_oc.Secoc.Objects.{Setup}
use sec_oc.Api.FirstKeys.{IsReadable, has_none}
use sec_oc.Api.Golden.{all_fit}
use sec_oc.Api.Start.{IsStarted, start_up_lem}
use sec_oc.Api.State.{new_state, start_up}
use sec_oc.Examples.Node.{brake, brake_profile, setup, empty_nvm}

-- The setup of the application, which has a key manager.
abbrev app_setup : Setup
app_setup = record setup { has_key_manager = true }

abbrev profiles : SecurityProfile
profiles = record { profiles = (brake, brake_profile) ∷ []; config_file = [] }

abbrev firmware : Bytes
firmware = 70 ∷ 87 ∷ []

empty-IsReadable : (q : String) → IsReadable q empty_nvm
empty-IsReadable q = has_none (resolve_key-none q empty_nvm (read_empty _ _))

-- The boot hashes of an empty memory are written, so the check passes.
start_up_lem_example :
    let (a, answer) = start_up app_setup firmware (new_state empty_nvm profiles) in
    IsStarted empty_nvm profiles a × (answer ≡ ok (all_fit app_setup firmware empty_nvm))
start_up_lem_example = start_up_lem app_setup firmware empty_nvm profiles empty-IsReadable
