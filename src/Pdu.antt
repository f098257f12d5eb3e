-- ===== src/Pdu.antt =====
-- sim/pdu_manager.py and sim/serialization.py: the layout payload, freshness, authenticator of a
-- Secured I-PDU.
pub mod RoundTrip
pub mod Refusal
use sec_oc.Base.{
  ℕ, ◌+◌, ◌-◌, ◌%◌, Bool, true, false, [], ◌++◌, ltb, ◌==◌, if◌then◌else◌, length, take, drop,
}
use sec_oc.Base.{Outcome, ok, raised, ◌>>=◌, value_error}
use sec_oc.Base.Bytes.{Bytes, modulus, to_bytes, from_bytes, from_end, slice}
use sec_oc.Profile.{Transport, classic_can, can_fd, SecurityProfileEntry, truncation_lengths}

-- `Serialization.encode`
unfoldable pub serialize : Bytes → Bytes
serialize payload = payload

-- `Serialization.decode`
unfoldable pub deserialize : Bytes → Bytes
deserialize raw = raw

-- The first statements of `build_secured_pdu`, and of both functions of the authenticator: the low
-- bytes of the counter.
unfoldable pub freshness_field : ℕ → ℕ → Outcome Bytes
freshness_field freshness_value fresh_len = to_bytes (freshness_value % modulus fresh_len) fresh_len

-- `build_secured_pdu`
unfoldable pub build_secured_pdu :
    Bytes → ℕ → Bytes → SecurityProfileEntry → Transport → Outcome Bytes
build_secured_pdu authentic_pdu freshness_value mac profile transport = do
  (fresh_len, mac_len) ← truncation_lengths profile transport
  freshness_bytes ← freshness_field freshness_value fresh_len
  ok (serialize authentic_pdu ++ (freshness_bytes ++ mac))

-- The parts of a Secured I-PDU.
pub record Parts : Type 0 where
  pub authentic_pdu : Bytes
  pub freshness_value : ℕ
  pub mac : Bytes

-- `secured_pdu[:-trailer_len] if trailer_len else secured_pdu`
authentic_part : Bytes → ℕ → Bytes
authentic_part pdu trailer_len =
    if trailer_len == 0 then pdu else take (length pdu - trailer_len) pdu

-- `secured_pdu[-trailer_len : len(secured_pdu) - mac_len]`
freshness_part : Bytes → ℕ → ℕ → Bytes
freshness_part pdu trailer_len mac_len =
    slice pdu (from_end (length pdu) trailer_len) (length pdu - mac_len)

-- `secured_pdu[-mac_len:] if mac_len else b""`
mac_part : Bytes → ℕ → Bytes
mac_part pdu mac_len = if mac_len == 0 then [] else drop (length pdu - mac_len) pdu

-- The test on the payload of a Classic CAN frame.
payload_fits : Transport → Bytes → Bool
payload_fits classic_can payload = length payload == 4
payload_fits can_fd payload = true

-- `parse_secured_pdu`, once the two lengths are known.
pub parse_lengths : Bytes → Transport → ℕ → ℕ → Outcome Parts
parse_lengths pdu transport fresh_len mac_len =
    let trailer_len = fresh_len + mac_len in
    if ltb (length pdu) trailer_len
    then raised value_error
    else if payload_fits transport (authentic_part pdu trailer_len)
    then ok (record {
      authentic_pdu = deserialize (authentic_part pdu trailer_len);
      freshness_value = from_bytes (freshness_part pdu trailer_len mac_len);
      mac = mac_part pdu mac_len;
    })
    else raised value_error

-- `parse_secured_pdu`
pub parse_secured_pdu : Bytes → SecurityProfileEntry → Transport → Outcome Parts
parse_secured_pdu pdu profile transport = do
  (fresh_len, mac_len) ← truncation_lengths profile transport
  parse_lengths pdu transport fresh_len mac_len
