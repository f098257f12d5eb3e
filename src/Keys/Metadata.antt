-- ===== src/Keys/Metadata.antt =====
-- sim/key_storage.py: key metadata as a dictionary in the memory, never with key bytes. A stored
-- field of another type than the class declares raises when it is read.
use sec_oc.Base.{
  ℕ, ◌≡◌, ◌≢◌, refl, ap, String, Option, none, some, arith, eq_iff, str_eq, if◌then◌else◌,
}
use sec_oc.Base.{Outcome, ok, raised, key_error, type_error, value_error, ◌>>=◌}
use sec_oc.Nvm.{Nvm, read, write}
use sec_oc.Nvm.Values.{Value, null, integer, text, object, Fields, end, field, as_int}
use sec_oc.Nvm.Keys.{key_meta_key, key_meta_key-injective}
use sec_oc.Nvm.Store.{read-write}

-- `KeyLifecycleState`
pub data KeyLifecycleState : Type 0 where
  active retired : KeyLifecycleState

pub record KeyMetadata : Type 0 where
  pub pdu_id : String
  pub key_id : String
  pub version : ℕ
  pub lifecycle_state : KeyLifecycleState

state_text : KeyLifecycleState → String
state_text active = "ACTIVE"
state_text retired = "RETIRED"

-- `KeyLifecycleState(value)`
state_of : String → Outcome KeyLifecycleState
state_of s =
    if str_eq s "ACTIVE"
    then ok active
    else if str_eq s "RETIRED"
    then ok retired
    else raised value_error

-- `record[k]`
field_value : String → Fields → Outcome Value
field_value k end = raised key_error
field_value k (field j v fs) = if str_eq j k then ok v else field_value k fs

as_text : Value → Outcome String
as_text (text s) = ok s
as_text _ = raised type_error

-- The record that is stored.
record_of : KeyMetadata → Value
unfolding state_text
record_of m = object (
    field "pdu_id" (text m.pdu_id) (
      field "key_id" (text m.key_id) (
        field "version" (integer m.version)
          (field "lifecycle_state" (text (state_text m.lifecycle_state)) end))))

-- `KeyStorage.save_key_metadata`
pub save_key_metadata : KeyMetadata → Nvm → Nvm
save_key_metadata m nvm = write (key_meta_key m.pdu_id) (record_of m) nvm

metadata_of : Value → Outcome (Option KeyMetadata)
unfolding state_of field_value as_text
metadata_of null = ok none
metadata_of (object fs) = do
  pdu_value ← field_value "pdu_id" fs
  pdu_id ← as_text pdu_value
  key_value ← field_value "key_id" fs
  key_id ← as_text key_value
  version_value ← field_value "version" fs
  version ← as_int version_value
  state_value ← field_value "lifecycle_state" fs
  state_name ← as_text state_value
  lifecycle_state ← state_of state_name
  ok (
      some (record {
        pdu_id = pdu_id;
        key_id = key_id;
        version = version;
        lifecycle_state = lifecycle_state;
      }))
metadata_of _ = raised type_error

-- `KeyStorage.get_key_metadata`
pub get_key_metadata : String → Nvm → Outcome (Option KeyMetadata)
get_key_metadata pdu_id nvm = metadata_of (read (key_meta_key pdu_id) null nvm)

state_of-state_text : (s : KeyLifecycleState) → state_of (state_text s) ≡ ok s
unfolding state_of state_text
state_of-state_text active = refl
state_of-state_text retired = refl

metadata_of-record_of : (m : KeyMetadata) → metadata_of (record_of m) ≡ ok (some m)
unfolding metadata_of record_of
metadata_of-record_of m = rw (state_of-state_text m.lifecycle_state)

-- Metadata that is saved for a PDU is found for it, and for no other.
pub get-save :
    (m : KeyMetadata) (p : String) (nvm : Nvm)
    → get_key_metadata p (save_key_metadata m nvm)
      ≡ (if str_eq m.pdu_id p then ok (some m) else get_key_metadata p nvm)
unfolding get_key_metadata save_key_metadata
get-save m p nvm = simp read-write (
    ground (
      arith,
      eq_iff (key_meta_key m.pdu_id) (key_meta_key p),
      eq_iff m.pdu_id p,
      key_meta_key-injective m.pdu_id p,
      metadata_of-record_of m,
    ))

-- Nothing else in the memory changes.
pub read-save :
    (m : KeyMetadata) (j : String) (default : Value) (nvm : Nvm)
    → key_meta_key m.pdu_id ≢ j
    → read j default (save_key_metadata m nvm) ≡ read j default nvm
unfolding save_key_metadata
read-save m j default nvm ne = ground (
  arith,
  read-write (key_meta_key m.pdu_id) j (record_of m) default nvm,
  eq_iff (key_meta_key m.pdu_id) j,
)

-- The entry of its PDU is the dictionary of its four fields.
pub read-save_self :
    (pdu_id key_id : String) (version : ℕ) (default : Value) (nvm : Nvm)
    → read (key_meta_key pdu_id) default (
        save_key_metadata
          (record { pdu_id = pdu_id; key_id = key_id; version = version; lifecycle_state = active })
          nvm)
      ≡ object (
          field "pdu_id" (text pdu_id) (
            field "key_id"
              (text key_id)
              (field "version" (integer version) (field "lifecycle_state" (text "ACTIVE") end))))
unfolding save_key_metadata record_of state_text
read-save_self pdu_id key_id version default nvm = ground (
  arith,
  read-write (key_meta_key pdu_id) (key_meta_key pdu_id)
      (record_of
        (record { pdu_id = pdu_id; key_id = key_id; version = version; lifecycle_state = active }))
      default nvm,
  eq_iff (key_meta_key pdu_id) (key_meta_key pdu_id),
)

-- What is found for a PDU depends on its own entry alone.
pub get_key_metadata-read :
    (p : String) (nvm nvm' : Nvm)
    → read (key_meta_key p) null nvm' ≡ read (key_meta_key p) null nvm
    → get_key_metadata p nvm' ≡ get_key_metadata p nvm
unfolding get_key_metadata
get_key_metadata-read p nvm nvm' same = ap metadata_of same

pub get_key_metadata-none :
    (p : String) (nvm : Nvm)
    → read (key_meta_key p) null nvm ≡ null
    → get_key_metadata p nvm ≡ ok none
unfolding get_key_metadata metadata_of
get_key_metadata-none p nvm empty = rw empty refl
