-- ===== src/Profile.antt =====
-- sim/security_profile.py: per-PDU security profiles, loaded from a JSON file. The file is an
-- object of objects; a length that is no number, or a name that is no text, raises when it is
-- loaded.
pub mod Reload
pub mod Defaults
use sec_oc.Base.{
  ℕ, ◌+◌, String, Bool, true, false, not, Option, none, some, List, [], ◌∷◌, str_eq, ◌==◌, ◌||◌,
  if◌then◌else◌,
}
use sec_oc.Base.{Outcome, ok, raised, ◌>>=◌, type_error, key_error, Method}
use sec_oc.Base.{secoc_config_error, security_profile_config_error}
use sec_oc.Base.Dict.{Dict, lookup, insert}
use sec_oc.Config.{supported_algorithms}
use sec_oc.Nvm.Values.{Value, null, text, integer, as_int}

pub data Transport : Type 0 where
  classic_can can_fd : Transport

pub record SecurityProfileEntry : Type 0 where
  pub algorithm : String
  pub key_id : String
  pub freshness_length : ℕ
  pub authenticator_length : ℕ
  pub profile_version : String
  pub tfv_length : Option ℕ
  pub tmac_length : Option ℕ

both_lengths : Option ℕ → Option ℕ → Outcome (ℕ × ℕ)
both_lengths (some tfv) (some tmac) = ok (tfv, tmac)
both_lengths none tmac = raised security_profile_config_error
both_lengths (some tfv) none = raised security_profile_config_error

-- `SecurityProfileEntry.truncation_lengths`
unfoldable pub truncation_lengths : SecurityProfileEntry → Transport → Outcome (ℕ × ℕ)
unfolding both_lengths
truncation_lengths p classic_can = both_lengths p.tfv_length p.tmac_length
truncation_lengths p can_fd = ok (p.freshness_length, p.authenticator_length)

abbrev pub allowed_fields : List String
allowed_fields =
    "algorithm" ∷ "key_id" ∷ "freshness_length" ∷ "authenticator_length" ∷ "profile_version"
    ∷ "tfv_length" ∷ "tmac_length" ∷ []

abbrev pub classic_can_trunc_budget_bytes : ℕ
classic_can_trunc_budget_bytes = 4

-- `s in names`
unfoldable pub is_in : String → List String → Bool
is_in s [] = false
is_in s (t ∷ names) = str_eq s t || is_in s names

-- `set(entry.keys()) - _ALLOWED_FIELDS`
extra_fields : Dict Value → List String
extra_fields [] = []
extra_fields ((k, v) ∷ entry) =
    let rest = extra_fields entry in if is_in k allowed_fields then rest else k ∷ rest

is_empty : List String → Bool
is_empty [] = true
is_empty (s ∷ names) = false

-- `entry[k]`
required : String → Dict Value → Outcome Value
required k entry = elim (lookup k entry) [ none ↦ raised key_error | some v ↦ ok v ]

as_text : Value → Outcome String
as_text (text s) = ok s
as_text _ = raised type_error

-- `algorithm in SUPPORTED_ALGORITHMS`
is_supported : Value → Bool
is_supported (text s) = is_in s supported_algorithms
is_supported _ = false

-- `entry.get(k)`, for a length
optional_length : Option Value → Outcome (Option ℕ)
optional_length none = ok none
optional_length (some null) = ok none
optional_length (some v) = do n ← as_int v; ok (some n)

is_missing : Option Value → Bool
is_missing none = true
is_missing (some null) = true
is_missing (some v) = false

-- `(tfv_length is None) == (tmac_length is None)`
both_or_neither : Option Value → Option Value → Bool
unfolding is_missing
both_or_neither tfv tmac = if is_missing tfv then is_missing tmac else not (is_missing tmac)

-- The tests of `reload` on the two Classic CAN lengths.
lengths_fit : Option ℕ → Option ℕ → Bool
lengths_fit none none = true
lengths_fit (some tfv) (some tmac) = tfv + tmac == classic_can_trunc_budget_bytes
lengths_fit none (some tmac) = false
lengths_fit (some tfv) none = false

assert_config : Bool → Outcome (Unit {0})
assert_config true = ok tt
assert_config false = raised security_profile_config_error

build_entry : String → Option ℕ × Option ℕ → String × ℕ × ℕ × String → SecurityProfileEntry
build_entry name (tfv, tmac) (key_name, fresh_length, auth_length, version_name) = record {
  algorithm = name;
  key_id = key_name;
  freshness_length = fresh_length;
  authenticator_length = auth_length;
  profile_version = version_name;
  tfv_length = tfv;
  tmac_length = tmac;
}

-- The four fields of the entry that the loop reads last.
read_fields : Dict Value → Outcome (String × ℕ × ℕ × String)
unfolding required as_text
read_fields entry = do
  key ← required "key_id" entry
  fresh ← required "freshness_length" entry
  auth ← required "authenticator_length" entry
  version ← required "profile_version" entry
  key_name ← as_text key
  fresh_length ← as_int fresh
  auth_length ← as_int auth
  version_name ← as_text version
  ok (key_name, fresh_length, auth_length, version_name)

-- The name of the algorithm, if it is supported.
read_algorithm : Dict Value → Outcome String
unfolding required as_text is_supported assert_config
read_algorithm entry = do
  algorithm_value ← required "algorithm" entry
  supported ← assert_config (is_supported algorithm_value)
  as_text algorithm_value

-- The two Classic CAN lengths, if they fit.
read_lengths : Dict Value → Outcome (Option ℕ × Option ℕ)
unfolding both_or_neither optional_length lengths_fit assert_config
read_lengths entry = do
  paired ← assert_config (both_or_neither (lookup "tfv_length" entry) (lookup "tmac_length" entry))
  tfv ← optional_length (lookup "tfv_length" entry)
  tmac ← optional_length (lookup "tmac_length" entry)
  fits ← assert_config (lengths_fit tfv tmac)
  ok (tfv, tmac)

-- The body of the loop in `reload`.
pub load_entry : Dict Value → Outcome SecurityProfileEntry
unfolding extra_fields is_empty assert_config read_algorithm read_lengths read_fields build_entry
load_entry entry = do
  allowed ← assert_config (is_empty (extra_fields entry))
  name ← read_algorithm entry
  lengths ← read_lengths entry
  fields ← read_fields entry
  ok (build_entry name lengths fields)

-- The loop of `reload`.
pub load_entries :
    Dict (Dict Value) → Dict SecurityProfileEntry → Outcome (Dict SecurityProfileEntry)
load_entries [] profiles = ok profiles
load_entries ((pdu_id, entry) ∷ raw) profiles =
    load_entry entry >>= λ p. load_entries raw (insert pdu_id p profiles)

-- `config_file` is what the file at `_config_path` holds.
pub record SecurityProfile : Type 0 where
  pub profiles : Dict SecurityProfileEntry
  pub config_file : Dict (Dict Value)

replace_profiles :
    SecurityProfile → Outcome (Dict SecurityProfileEntry) → SecurityProfile × Outcome (Unit {0})
replace_profiles sp (ok profiles) = (record sp { profiles = profiles }, ok tt)
replace_profiles sp (raised e) = (sp, raised e)

-- `reload`
pub reload : Method SecurityProfile (Unit {0})
unfolding load_entries replace_profiles
reload sp = replace_profiles sp (load_entries sp.config_file [])

-- `get_profile`
unfoldable pub get_profile : String → Dict SecurityProfileEntry → Outcome SecurityProfileEntry
get_profile pdu_id profiles = elim (lookup pdu_id profiles) [
  | none ↦ raised secoc_config_error
  | some p ↦ ok p
]

-- `update_profile_version`: the entry in memory is changed before the file is read.
unfoldable pub update_profile_version : String → String → Method SecurityProfile (Unit {0})
update_profile_version pdu_id version sp = elim (lookup pdu_id sp.profiles) [
  | none ↦ (sp, raised secoc_config_error)
  | some p ↦
      let changed = record sp {
        profiles = insert pdu_id (record p { profile_version = version }) sp.profiles;
      } in
      elim (lookup pdu_id sp.config_file) [
        | none ↦ (changed, raised key_error)
        | some entry ↦ (
          record changed {
            config_file =
                insert pdu_id (insert "profile_version" (text version) entry) sp.config_file;
          },
          ok tt,
        )
      ]
]
