-- ===== src/Signals/RoundTrip.antt =====
-- A signal that is packed is unpacked to the number that it stands for, alone or beside others.
use mathlib.Core.Path.{subst}
use sec_oc.Base.{
  ℕ, ◌+◌, ◌*◌, ◌^◌, ◌≤◌, ◌<◌, ◌≡◌, refl, sym, ap, ◌∙◌, String, none, some, arith, ◌==◌,
  if◌then◌else◌, length, lt→ltb, ==_iff,
}
use sec_oc.Base.{ok}
use sec_oc.Base.Arrays.{find, put, remove, find-put, find-remove}
use sec_oc.Base.Bytes.{Bytes}
use sec_oc.Base.Dict.{lookup}
use sec_oc.Base.Int.{pos}
use native.Mathlib.Nat.{mod-eq_of_lt}
use sec_oc.Signals.{
  SignalPackager, SignalLayout, Numbers, buffer_or_new, pack_raw, pack_checked, pack_signal,
  unpack_signal, send_signal, get_layout, scaled, physical,
}
use sec_oc.Signals.Bits.{AreBytes}
use sec_oc.Signals.Fields.{
  set_bits-ok, with_field, length-with_field, with_field-Holds, Holds, Holds-with_field,
  get_bits-Holds, Apart,
}
use sec_oc.Signals.Buffers.{
  IsWellFormed, buffer_or_new-IsBuffer, pack_scaled, pack_signal-IsWellFormed,
}

-- The buffer that the next signal of a layout goes into.
abbrev buffer : {F H : Type 0} → SignalPackager F H → SignalLayout F → Bytes
buffer p l = buffer_or_new (find l.pdu_id p.tx_buffers) l.pdu_length_bytes

abbrev packed : {F H : Type 0} → SignalPackager F H → SignalLayout F → ℕ → Bytes
packed p l raw = with_field l.offset_bits l.width_bits raw (buffer p l)

abbrev after : {F H : Type 0} → SignalPackager F H → SignalLayout F → ℕ → SignalPackager F H
after p l raw = record p { tx_buffers = put l.pdu_id (packed p l raw) p.tx_buffers }

-- The signal lies within its PDU.
abbrev pub Fits : {F : Type 0} → SignalLayout F → Type 0
Fits l = l.offset_bits + l.width_bits ≤ 8 * l.pdu_length_bytes

-- A PDU that holds the raw value is unpacked to what that stands for.
unpack_Holds :
    {F H : Type 0} (num : Numbers F) (q : SignalPackager F H) (name : String) {l : SignalLayout F}
    (raw : ℕ) (bs : Bytes)
    → lookup name q.signal_table ≡ some l
    → length bs ≡ l.pdu_length_bytes
    → raw < 2 ^ l.width_bits
    → Holds l.offset_bits l.width_bits raw bs
    → unpack_signal num bs name q ≡ physical num l raw
unfolding unpack_signal get_layout
unpack_Holds num q name {l} raw bs known long small held = rw known (
    rw ((==_iff (length bs) l.pdu_length_bytes).1 long) (
      rw (get_bits-Holds l.offset_bits l.width_bits raw bs held)
        (ap (physical num l) (mod-eq_of_lt small))))

module _ {F H : Type 0} (num : Numbers F) (p : SignalPackager F H) (name : String) (value : F)
    {l : SignalLayout F} {raw : ℕ} (wf : IsWellFormed p)
    (known : lookup name p.signal_table ≡ some l) (fits : Fits l)
    (scaling : scaled num l value ≡ ok (pos raw)) (small : raw < 2 ^ l.width_bits) where
  buffer_long : length (buffer p l) ≡ l.pdu_length_bytes
  buffer_long = (buffer_or_new-IsBuffer p name l wf known).1 name l known refl

  buffer_valid : AreBytes (buffer p l)
  buffer_valid = (buffer_or_new-IsBuffer p name l wf known).0

  pack_packed : pack_signal num name value p ≡ (after p l raw, ok (packed p l raw))
  unfolding pack_checked pack_raw
  pack_packed =
      let long = buffer_long in
      rw (pack_scaled num p name value known, scaling, lt→ltb raw (2 ^ l.width_bits) small)
        (rw (set_bits-ok l.offset_bits l.width_bits raw (buffer p l) (omega arith)) refl)

  packed_long : length (packed p l raw) ≡ l.pdu_length_bytes
  packed_long =
      let long = buffer_long in
      length-with_field l.offset_bits l.width_bits raw (buffer p l) (omega arith) ∙ long

  packed-Holds : Holds l.offset_bits l.width_bits raw (packed p l raw)
  packed-Holds =
      let long = buffer_long in
      with_field-Holds l.offset_bits l.width_bits raw (buffer p l) (omega arith) buffer_valid

  -- In a packager that is well-formed (all layouts of one PDU give it the same length, and each Tx
  -- buffer has the length of its PDU and holds bytes), a signal with a layout whose value scales to
  -- a natural number that fits its width, and whose place fits its PDU, is sent: the call returns a PDU of the configured length and removes the Tx buffer of that PDU and no other; a
  -- receiver that has the same layout under the same name unpacks the PDU to the number that the
  -- raw value stands for, or raises what the conversion of the raw value raises.
  pub send_signal-unpack_signal :
      {J : Type 0} (q : SignalPackager F J)
      → lookup name q.signal_table ≡ some l
      → (pdu : Bytes) × (p' : SignalPackager F H) × (send_signal num name value p ≡ (p', ok pdu))
        × (length pdu ≡ l.pdu_length_bytes)
        × (unpack_signal num pdu name q ≡ physical num l raw)
        × ((k : ℕ) → find k p'.tx_buffers ≡ (if l.pdu_id == k then none else find k p.tx_buffers))
  unfolding send_signal get_layout
  send_signal-unpack_signal q known' = (
    packed p l raw,
    record p { tx_buffers = remove l.pdu_id (after p l raw).tx_buffers },
    rw (pack_packed, known) refl,
    packed_long,
    unpack_Holds num q name raw (packed p l raw) known' packed_long small packed-Holds,
    λ k. ground (
      arith,
      find-remove l.pdu_id k (after p l raw).tx_buffers,
      find-put l.pdu_id k (packed p l raw) p.tx_buffers,
    ),
  )

module _ {F H : Type 0} (num : Numbers F) (p : SignalPackager F H) (name name2 : String)
    (value value2 : F) {l l2 : SignalLayout F} {raw raw2 : ℕ} (wf : IsWellFormed p)
    (known : lookup name p.signal_table ≡ some l) (known2 : lookup name2 p.signal_table ≡ some l2)
    (fits : Fits l) (fits2 : Fits l2) (scaling : scaled num l value ≡ ok (pos raw))
    (scaling2 : scaled num l2 value2 ≡ ok (pos raw2)) (small : raw < 2 ^ l.width_bits)
    (small2 : raw2 < 2 ^ l2.width_bits) (same_pdu : l2.pdu_id ≡ l.pdu_id)
    (apart : Apart l2.offset_bits l2.width_bits l.offset_bits l.width_bits) where
  first : pack_signal num name value p ≡ (after p l raw, ok (packed p l raw))
  first = pack_packed num p name value wf known fits scaling small

  after-IsWellFormed : IsWellFormed (after p l raw)
  after-IsWellFormed =
      subst (λ r. IsWellFormed r.0) first (pack_signal-IsWellFormed num p name value wf)

  second_buffer : buffer (after p l raw) l2 ≡ packed p l raw
  unfolding buffer_or_new
  second_buffer =
      rw (find-put l.pdu_id l2.pdu_id (packed p l raw) p.tx_buffers)
        (rw ((==_iff l.pdu_id l2.pdu_id).1 (sym same_pdu)) refl)

  -- The first signal is still there after the second.
  first_kept : Holds l.offset_bits l.width_bits raw (packed (after p l raw) l2 raw2)
  first_kept =
      let long = packed_long num p name value wf known fits scaling small in
      let long2 =
        buffer_long num (after p l raw) name2 value2 after-IsWellFormed known2 fits2 scaling2
          small2 in
      let same_length : length (packed p l raw) ≡ length (buffer (after p l raw) l2) =
        ap length (sym second_buffer) in
      Holds-with_field l2.offset_bits l2.width_bits raw2 l.offset_bits l.width_bits raw
        (buffer (after p l raw) l2) (omega arith) (omega arith)
        (buffer_valid num (after p l raw) name2 value2 after-IsWellFormed known2 fits2 scaling2
          small2)
        apart
        (subst (Holds l.offset_bits l.width_bits raw) (sym second_buffer)
          (packed-Holds num p name value wf known fits scaling small))

  -- In a packager that is well-formed (all layouts of one PDU give it the same length, and each Tx
  -- buffer has the length of its PDU and holds bytes), take two signals with layouts of one PDU that
  -- share no bit; both lie within the PDU, and both values scale to natural numbers that fit the
  -- widths. Packed one after the other by two calls of `pack_signal`, both calls return, and the PDU that the second call returns is unpacked to both numbers by a receiver
  -- with the same two layouts.
  pub pack_signal-pack_signal :
      {J : Type 0} (q : SignalPackager F J)
      → lookup name q.signal_table ≡ some l
      → lookup name2 q.signal_table ≡ some l2
      → (p1 : SignalPackager F H) × (p2 : SignalPackager F H) × (pdu1 : Bytes) × (pdu2 : Bytes)
        × (pack_signal num name value p ≡ (p1, ok pdu1))
        × (pack_signal num name2 value2 p1 ≡ (p2, ok pdu2))
        × (unpack_signal num pdu2 name q ≡ physical num l raw)
        × (unpack_signal num pdu2 name2 q ≡ physical num l2 raw2)
  pack_signal-pack_signal q known' known2' =
      let p1 = after p l raw in
      let wf1 = after-IsWellFormed in
      let pdu2 = packed p1 l2 raw2 in
      let long2 : length pdu2 ≡ l2.pdu_length_bytes =
        packed_long num p1 name2 value2 wf1 known2 fits2 scaling2 small2 in
      let long : length pdu2 ≡ l.pdu_length_bytes =
        long2 ∙ wf.agree name2 name l2 l known2 known same_pdu in
      (
        p1,
        after p1 l2 raw2,
        packed p l raw,
        pdu2,
        first,
        pack_packed num p1 name2 value2 wf1 known2 fits2 scaling2 small2,
        unpack_Holds num q name raw pdu2 known' long small first_kept,
        unpack_Holds num q name2 raw2 pdu2 known2' long2 small2
            (packed-Holds num p1 name2 value2 wf1 known2 fits2 scaling2 small2),
      )
