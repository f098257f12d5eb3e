-- ===== src/Signals.antt =====
-- sim/signal_packager.py: application signals in the bits of Authentic I-PDUs. The numbers of
-- Python that a value, a factor and an offset are made of are a parameter, `F` with its operations.
pub mod Bits
pub mod Fields
pub mod Buffers
pub mod RoundTrip
use sec_oc.Base.{
  ℕ, ◌^◌, String, Bool, true, false, Option, none, some, List, [], ◌∷◌, ltb, ◌==◌, if◌then◌else◌,
  length, replicate,
}
use sec_oc.Base.{
  Method, Outcome, ok, raised, ◌>>=◌, and_then, within, unknown_signal_error,
  signal_value_out_of_range_error,
}
use sec_oc.Base.Arrays.{Table, find, put, remove}
use sec_oc.Base.Bytes.{Bytes}
use sec_oc.Base.Dict.{Dict, lookup}
use sec_oc.Base.Int.{ℤ, pos, negsuc}
use Fields.{set_bits, get_bits}

-- The operations of Python on numbers; a division, a rounding and a conversion may raise.
pub record Numbers (F : Type 0) : Type 0 where
  pub sub : F → F → F
  pub add : F → F → F
  pub mul : F → F → F
  pub div : F → F → Outcome F
  pub round : F → Outcome ℤ
  pub from_int : ℕ → Outcome F

-- `SignalLayout`; positions and lengths are not negative.
pub record SignalLayout (F : Type 0) : Type 0 where
  pub signal_name : String
  pub pdu_id : ℕ
  pub pdu_length_bytes : ℕ
  pub offset_bits : ℕ
  pub width_bits : ℕ
  pub factor : F
  pub offset : F

-- One entry of `get_status()["signals"]`.
pub record SignalStatus (F : Type 0) : Type 0 where
  pub signal_name : String
  pub pdu_id : ℕ
  pub offset_bits : ℕ
  pub width_bits : ℕ
  pub factor : F
  pub offset : F

-- `SignalPackager`; its handler works on some object of type `H`, and not on the packager.
pub record SignalPackager (F H : Type 0) : Type 0 where
  pub ecu_id : String
  pub signal_table : Dict (SignalLayout F)
  pub tx_buffers : Table Bytes
  pub signal_handler : Option (String → F → Method H (Unit {0}))

-- The buffer that `setdefault` finds, or a new one of zeros.
unfoldable pub buffer_or_new : Option Bytes → ℕ → Bytes
buffer_or_new none pdu_length_bytes = replicate pdu_length_bytes 0
buffer_or_new (some buf) pdu_length_bytes = buf

module _ {F : Type 0} where
  found_layout : Option (SignalLayout F) → Outcome (SignalLayout F)
  found_layout none = raised unknown_signal_error
  found_layout (some layout) = ok layout

  statuses : Dict (SignalLayout F) → List (SignalStatus F)
  statuses [] = []
  statuses ((_, layout) ∷ table) =
      record {
        signal_name = layout.signal_name;
        pdu_id = layout.pdu_id;
        offset_bits = layout.offset_bits;
        width_bits = layout.width_bits;
        factor = layout.factor;
        offset = layout.offset;
      }
      ∷ statuses table

  module _ (num : Numbers F) where
    open num use {sub, add, mul, div, round, from_int}

    -- `round((value - layout.offset) / layout.factor)`
    unfoldable pub scaled : SignalLayout F → F → Outcome ℤ
    scaled layout value = div (sub value layout.offset) layout.factor >>= round

    -- `raw * layout.factor + layout.offset`
    unfoldable pub physical : SignalLayout F → ℕ → Outcome F
    physical layout raw = from_int raw >>= λ x. ok (add (mul x layout.factor) layout.offset)

module _ {F H : Type 0} where
  -- `SignalPackager.__init__`
  pub new_packager : String → Dict (SignalLayout F) → SignalPackager F H
  new_packager ecu_id signal_table = record {
    ecu_id = ecu_id;
    signal_table = signal_table;
    tx_buffers = [];
    signal_handler = none;
  }

  -- `_get_layout`
  unfoldable pub get_layout : String → SignalPackager F H → Outcome (SignalLayout F)
  unfolding found_layout
  get_layout signal_name p = found_layout (lookup signal_name p.signal_table)

  -- `register_signal_handler`
  pub register_signal_handler :
      (String → F → Method H (Unit {0})) → SignalPackager F H → SignalPackager F H
  register_signal_handler handler p = record p { signal_handler = some handler }

  -- `get_status`
  pub get_status : SignalPackager F H → String × List (SignalStatus F)
  unfolding statuses
  get_status p = (p.ecu_id, statuses p.signal_table)

  -- The end of `pack_signal`: the bits go into the buffer of the packager, in place.
  unfoldable pub pack_raw : SignalLayout F → ℕ → Method (SignalPackager F H) Bytes
  unfolding buffer_or_new
  pack_raw layout raw p =
      let buf = buffer_or_new (find layout.pdu_id p.tx_buffers) layout.pdu_length_bytes in
      let (buf', done) = set_bits layout.offset_bits layout.width_bits raw buf in
      (record p { tx_buffers = put layout.pdu_id buf' p.tx_buffers }, done >>= λ _. ok buf')

  -- The test of the range, and what follows it.
  unfoldable pub pack_checked : SignalLayout F → ℤ → Method (SignalPackager F H) Bytes
  unfolding pack_raw
  pack_checked layout (pos raw) p =
      if ltb raw (2 ^ layout.width_bits)
      then pack_raw layout raw p
      else (p, raised signal_value_out_of_range_error)
  pack_checked layout (negsuc n) p = (p, raised signal_value_out_of_range_error)

  -- The call of the handler, where there is one.
  unfoldable pub notify :
      Option (String → F → Method H (Unit {0})) → String → F → Method H (Unit {0})
  notify none signal_name value h = (h, ok tt)
  notify (some handler) signal_name value h = handler signal_name value h

  module _ (num : Numbers F) where
    -- `pack_signal`
    unfoldable pub pack_signal : String → F → Method (SignalPackager F H) Bytes
    unfolding get_layout scaled pack_checked
    pack_signal signal_name value p =
        and_then (p, get_layout signal_name p)
          λ layout p1. and_then (p1, scaled num layout value) λ raw p2. pack_checked layout raw p2

    -- `unpack_signal`
    unfoldable pub unpack_signal : Bytes → String → SignalPackager F H → Outcome F
    unfolding get_layout physical
    unpack_signal pdu_bytes signal_name p = get_layout signal_name p >>= λ layout.
        if length pdu_bytes == layout.pdu_length_bytes
        then get_bits layout.offset_bits layout.width_bits pdu_bytes >>= physical num layout
        else raised unknown_signal_error

    -- `send_signal`
    unfoldable pub send_signal : String → F → Method (SignalPackager F H) Bytes
    unfolding pack_signal get_layout
    send_signal signal_name value p = and_then (pack_signal signal_name value p) λ authentic_pdu p1.
        and_then (p1, get_layout signal_name p1)
          λ layout p2.
            (record p2 { tx_buffers = remove layout.pdu_id p2.tx_buffers }, ok authentic_pdu)

    -- The loop of `unpack_signal_from_pdu`, over what is left of the table.
    unfoldable pub unpack_each :
        Dict (SignalLayout F) → ℕ → Bytes → SignalPackager F H → Method H (Unit {0})
    unfolding unpack_signal notify
    unpack_each [] pdu_id authentic_pdu p h = (h, ok tt)
    unpack_each ((signal_name, layout) ∷ table) pdu_id authentic_pdu p h =
        and_then
          (if layout.pdu_id == pdu_id
            then and_then (h, unpack_signal authentic_pdu signal_name p)
                (notify p.signal_handler signal_name)
            else (h, ok tt))
          λ _ h'. unpack_each table pdu_id authentic_pdu p h'

    -- `unpack_signal_from_pdu`
    pub unpack_signal_from_pdu : ℕ → Bytes → SignalPackager F H → Method H (Unit {0})
    unfolding unpack_each
    unpack_signal_from_pdu pdu_id authentic_pdu p =
        unpack_each p.signal_table pdu_id authentic_pdu p
