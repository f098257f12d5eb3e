-- ===== src/Scenarios/Provided.antt =====
-- What `_new_profile_provider` of sim/scenario_runner.py makes.
use sec_oc.Base.{◌≡◌, refl, String, [], ◌∷◌}
use sec_oc.Base.{ok}
use sec_oc.Base.Dict.{Dict}
use sec_oc.Nvm.Values.{Value}
use sec_oc.Profile.{SecurityProfile}
use sec_oc.Profile.Defaults.{default_profile, reload_sha256}
use sec_oc.Scenarios.Bodies.{new_profile_provider, new_profile_file}

-- The profiles of a new provider, whose file has another version of the algorithm or not.
unfoldable pub provided : String → String → Dict (Dict Value) → SecurityProfile
provided p name file = record { profiles = (p, default_profile p name) ∷ []; config_file = file }

pub new_profile_provider_lem :
    (p : String) → new_profile_provider p ≡ (provided p "HMAC-SHA256" (new_profile_file p), ok tt)
unfolding new_profile_provider provided
new_profile_provider_lem p = reload_sha256 p _ refl
