-- ===== src/Examples/Signals.antt =====
-- Two signals of one PDU, with natural numbers as the numbers of the program.
use sec_oc.Base.{
  ℕ, ◌+◌, ◌-◌, ◌*◌, ◌/◌, ◌≡◌, refl, String, none, some, [], ◌∷◌, ◌==◌, if◌then◌else◌, arith, inr,
  length,
}
use sec_oc.Base.{ok, raised, zero_division_error}
use sec_oc.Base.Arrays.{find, put}
use sec_oc.Signals.Bits.{set_bit}
use sec_oc.Signals.Fields.{set_bits}
use sec_oc.Base.Bytes.{Bytes}
use sec_oc.Base.Dict.{Dict, lookup}
use sec_oc.Base.Int.{pos}
use sec_oc.Signals.{
  Numbers, SignalLayout, SignalPackager, scaled, physical, pack_signal, unpack_signal, send_signal,
}
use sec_oc.Signals.Buffers.{IsWellFormed, pack_signal-IsWellFormed}
use sec_oc.Signals.RoundTrip.{send_signal-unpack_signal, pack_signal-pack_signal}

abbrev naturals : Numbers ℕ
naturals = record {
  sub = λ a b. a - b;
  add = λ a b. a + b;
  mul = λ a b. a * b;
  div = λ a b. if b == 0 then raised zero_division_error else ok (a / b);
  round = λ a. ok (pos a);
  from_int = λ n. ok n;
}

abbrev speed : SignalLayout ℕ
speed = record {
  signal_name = "speed";
  pdu_id = 7;
  pdu_length_bytes = 3;
  offset_bits = 2;
  width_bits = 10;
  factor = 2;
  offset = 10;
}

abbrev gear : SignalLayout ℕ
gear = record {
  signal_name = "gear";
  pdu_id = 7;
  pdu_length_bytes = 3;
  offset_bits = 12;
  width_bits = 4;
  factor = 1;
  offset = 0;
}

abbrev table : Dict (SignalLayout ℕ)
table = ("speed", speed) ∷ ("gear", gear) ∷ []

abbrev packager : SignalPackager ℕ ℕ
packager = record {
  ecu_id = "ECU_TX";
  signal_table = table;
  tx_buffers = [];
  signal_handler = none;
}

lengths : (name : String) (l : SignalLayout ℕ) → lookup name table ≡ some l → l.pdu_length_bytes ≡ 3
unfolding lookup
lengths name l known = ground arith

packager-IsWellFormed : IsWellFormed packager
unfolding find
packager-IsWellFormed = record {
  agree = λ name name' l l' known known' same.
      omega (arith, lengths name l known, lengths name' l' known');
  buffers = λ k buf found. absurd (cc);
}

speed_known : lookup "speed" table ≡ some speed
unfolding lookup
speed_known = refl

gear_known : lookup "gear" table ≡ some gear
unfolding lookup
gear_known = refl

speed-scaled : scaled naturals speed 250 ≡ ok (pos 120)
unfolding scaled
speed-scaled = refl

gear-scaled : scaled naturals gear 5 ≡ ok (pos 5)
unfolding scaled
gear-scaled = refl

send_signal-unpack_signal_example :
    (pdu : Bytes) × (p' : SignalPackager ℕ ℕ) × (send_signal naturals "speed" 250 packager
      ≡ (p', ok pdu))
    × (length pdu ≡ 3)
    × (unpack_signal naturals pdu "speed" packager ≡ physical naturals speed 120)
    × ((k : ℕ) → find k p'.tx_buffers ≡ (if 7 == k then none else find k packager.tx_buffers))
send_signal-unpack_signal_example =
    send_signal-unpack_signal naturals packager "speed" 250 packager-IsWellFormed speed_known
      (omega arith) speed-scaled (omega arith) packager speed_known

pack_signal-pack_signal_example :
    (p1 : SignalPackager ℕ ℕ) × (p2 : SignalPackager ℕ ℕ) × (pdu1 : Bytes) × (pdu2 : Bytes)
    × (pack_signal naturals "speed" 250 packager ≡ (p1, ok pdu1))
    × (pack_signal naturals "gear" 5 p1 ≡ (p2, ok pdu2))
    × (unpack_signal naturals pdu2 "speed" packager ≡ physical naturals speed 120)
    × (unpack_signal naturals pdu2 "gear" packager ≡ physical naturals gear 5)
pack_signal-pack_signal_example =
    pack_signal-pack_signal naturals packager "speed" "gear" 250 5 packager-IsWellFormed speed_known
      gear_known (omega arith) (omega arith) speed-scaled gear-scaled (omega arith) (omega arith)
      refl (inr (omega arith)) packager speed_known gear_known

pack_signal-IsWellFormed_example : IsWellFormed (pack_signal naturals "speed" 250 packager).0
pack_signal-IsWellFormed_example =
    pack_signal-IsWellFormed naturals packager "speed" 250 packager-IsWellFormed

-- The two bytes and a half that the signals fill: 120 in ten bits from bit 2, 5 in four from bit 12.
packed_bytes :
    (pack_signal naturals "gear" 5 (pack_signal naturals "speed" 250 packager).0).1
    ≡ ok (7 ∷ 133 ∷ 0 ∷ [])
unfolding pack_signal lookup find set_bits set_bit put
packed_bytes = refl
