-- ===== src/Attack.antt =====
-- The attack tools: sim/message_injector.py, sim/message_frame.py, sim/replay_attack.py,
-- sim/mitm_attack.py and sim/fuzzing_engine.py.
pub mod Defence
use sec_oc.Base.{
  ℕ, zero, suc, ◌+◌, ◌-◌, ◌*◌, ◌/◌, ◌%◌, ◌^◌, String, Option, none, some, [], ◌∷◌, ◌++◌, ◌==◌,
  replicate, if◌then◌else◌,
}
use sec_oc.Base.Bytes.{Bytes, big_endian, modulus}
use sec_oc.Base.Dict.{Dict, lookup, insert}
use sec_oc.Bus.{CanBus, publish, get_last}
use sec_oc.Config.{default_freshness_length, default_authenticator_length}

-- `MessageInjector.inject`, and `FuzzingEngine.inject`, which calls it.
unfoldable pub inject : String → Bytes → CanBus → CanBus
inject pdu_id bytes bus = publish pdu_id bytes bus

pub record CapturedFrame : Type 0 where
  pub pdu_id : String
  pub raw_bytes : Option Bytes

-- `ReplayAttack`: a capture with nothing on the bus stores None.
pub record ReplayAttack : Type 0 where
  pub captured : Dict (Option Bytes)

-- `ReplayAttack.capture`
pub capture : String → CanBus → ReplayAttack → ReplayAttack × CapturedFrame
capture pdu_id bus attack =
    let raw_bytes = get_last pdu_id bus in
    (
      record { captured = insert pdu_id raw_bytes attack.captured },
      record { pdu_id = pdu_id; raw_bytes = raw_bytes },
    )

inject_found : String → Option (Option Bytes) → CanBus → CanBus
inject_found pdu_id none bus = bus
inject_found pdu_id (some none) bus = bus
inject_found pdu_id (some (some raw_bytes)) bus = inject pdu_id raw_bytes bus

-- `ReplayAttack.replay`
pub replay : String → ReplayAttack → CanBus → CanBus
unfolding inject_found
replay pdu_id attack bus = inject_found pdu_id (lookup pdu_id attack.captured) bus

-- `MessageFrame`
pub record MessageFrame : Type 0 where
  pub pdu_id : String
  pub data_bytes : Bytes
  pub timestamp : ℕ

-- `TamperedFrame`
pub record TamperedFrame : Type 0 where
  pub pdu_id : String
  pub original_raw_bytes : Bytes
  pub tampered_raw_bytes : Bytes
  pub timestamp : ℕ

-- `a ^ b`, for numbers of so many bits.
unfoldable pub xor_bits : ℕ → ℕ → ℕ → ℕ
xor_bits zero a b = 0
xor_bits (suc width) a b = (a + b) % 2 + 2 * xor_bits width (a / 2) (b / 2)

-- The flip of `MitmAttack.intercept`, for a mask of one byte.
unfoldable pub flip : ℕ → ℕ → ℕ
unfolding xor_bits
flip mask byte = xor_bits 8 byte mask

unfoldable pub tamper : ℕ → Bytes → Bytes
tamper mask [] = []
tamper mask (byte ∷ bytes) = flip mask byte ∷ bytes

-- `MitmAttack.intercept`
unfoldable pub intercept : ℕ → MessageFrame → TamperedFrame
unfolding tamper
intercept bit_flip_mask frame = record {
  pdu_id = frame.pdu_id;
  original_raw_bytes = frame.data_bytes;
  tampered_raw_bytes = tamper bit_flip_mask frame.data_bytes;
  timestamp = frame.timestamp;
}

-- `MitmAttack.forward`
pub forward : TamperedFrame → CanBus → CanBus
forward frame bus = inject frame.pdu_id frame.tampered_raw_bytes bus

-- `ForgeMode`
pub data ForgeMode : Type 0 where
  malformed_structure invalid_mac wrong_freshness : ForgeMode

abbrev pub forged_authentic_pdu : Bytes
forged_authentic_pdu = 222 ∷ 173 ∷ 190 ∷ 239 ∷ []

abbrev pub invalid_mac_bytes : Bytes
invalid_mac_bytes = replicate default_authenticator_length 255

abbrev forged_value : ForgeMode → ℕ
forged_value wrong_freshness = 65535
forged_value malformed_structure = 1
forged_value invalid_mac = 1

unfoldable pub with_trailer : ℕ → Bytes
with_trailer freshness_value =
    forged_authentic_pdu
    ++ (big_endian default_freshness_length freshness_value ++ invalid_mac_bytes)

-- `FuzzingEngine.generate_forged_pdu`
unfoldable pub generate_forged_pdu : ForgeMode → Bytes
unfolding with_trailer
generate_forged_pdu malformed_structure = 0 ∷ []
generate_forged_pdu invalid_mac = with_trailer (forged_value invalid_mac)
generate_forged_pdu wrong_freshness = with_trailer (forged_value wrong_freshness)
