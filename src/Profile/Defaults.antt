-- ===== src/Profile/Defaults.antt =====
-- The one entry that `_new_profile_provider` of sim/scenario_runner.py writes to a file, and what
-- `reload` of sim/security_profile.py makes of it.
use Prim.Native.String.{◌++◌}
use sec_oc.Base.{◌≡◌, refl, String, none, [], ◌∷◌}
use sec_oc.Base.{ok}
use sec_oc.Base.Dict.{Dict, lookup, insert}
use sec_oc.Config.{default_freshness_length, default_authenticator_length}
use sec_oc.Nvm.Values.{Value, integer, text}
use sec_oc.Profile.{
  SecurityProfileEntry, SecurityProfile, reload, load_entries, load_entry, extra_fields, is_empty,
  both_or_neither, is_missing, assert_config, read_algorithm, read_lengths, read_fields,
  build_entry, required, as_text, is_supported, is_in, optional_length, lengths_fit,
  replace_profiles,
}

abbrev pub default_entry : String → String → Dict Value
default_entry pdu_id algorithm =
    ("algorithm", text algorithm)
    ∷ ("key_id", text ("secoc_mac_key_" ++ pdu_id))
    ∷ ("freshness_length", integer default_freshness_length)
    ∷ ("authenticator_length", integer default_authenticator_length)
    ∷ ("profile_version", text "v1")
    ∷ []

abbrev pub default_profile : String → String → SecurityProfileEntry
default_profile pdu_id name = record {
  algorithm = name;
  key_id = "secoc_mac_key_" ++ pdu_id;
  freshness_length = default_freshness_length;
  authenticator_length = default_authenticator_length;
  profile_version = "v1";
  tfv_length = none;
  tmac_length = none;
}

abbrev with_entry : String → String → SecurityProfile → SecurityProfile
with_entry p name sp = record sp { profiles = (p, default_profile p name) ∷ [] }

module _ (p : String) (sp : SecurityProfile) where
  pub reload_sha256 :
      sp.config_file ≡ (p, default_entry p "HMAC-SHA256") ∷ []
      → reload sp ≡ (with_entry p "HMAC-SHA256" sp, ok tt)
  unfolding reload load_entries load_entry extra_fields is_empty assert_config read_algorithm
      read_lengths read_fields build_entry required as_text is_supported is_in optional_length
      both_or_neither is_missing lengths_fit replace_profiles lookup insert
  reload_sha256 file = rw file refl

  pub reload_sha512 :
      sp.config_file ≡ (p, default_entry p "HMAC-SHA512") ∷ []
      → reload sp ≡ (with_entry p "HMAC-SHA512" sp, ok tt)
  unfolding reload load_entries load_entry extra_fields is_empty assert_config read_algorithm
      read_lengths read_fields build_entry required as_text is_supported is_in optional_length
      both_or_neither is_missing lengths_fit replace_profiles lookup insert
  reload_sha512 file = rw file refl
