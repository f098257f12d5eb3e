-- ===== src/Signals/Buffers.antt =====
-- The Tx buffers of a signal packager: each has the length that its PDU is configured with.
use mathlib.Core.Path.{subst}
use sec_oc.Base.{
  ℕ, zero, suc, ◌/◌, ◌%◌, ◌^◌, ◌<◌, ◌≡◌, ◌≢◌, refl, sym, ap, ◌∙◌, String, none, some, arith, ltb,
  ◌==◌, length, replicate, Bool-cases, Option-cases, length-replicate, Outcome-cases, inl, inr,
  ==_iff,
}
use sec_oc.Base.{
  Outcome, Exception, ok, raised, ◌>>=◌, and_then, index_error, unknown_signal_error,
  raised-injective,
}
use sec_oc.Base.Arrays.{find, put, find-put, get_elem?, length-set}
use sec_oc.Base.Bytes.{Bytes}
use sec_oc.Base.Dict.{Dict, lookup}
use sec_oc.Base.Int.{ℤ, pos, negsuc}
use sec_oc.Signals.{
  SignalPackager, SignalLayout, Numbers, buffer_or_new, pack_raw, pack_checked, pack_signal,
  get_layout, scaled,
}
use sec_oc.Signals.Bits.{
  set_bit, AreBytes, AreBytes-set, AreBytes-get, with_bit, with_bit-lt, set_bit_found,
  set_bit_missing,
}
use sec_oc.Signals.Fields.{set_bits}

-- The layouts of one PDU agree on its length.
abbrev pub Agree : {F : Type 0} → Dict (SignalLayout F) → Type 0
Agree {F} table =
    (name name' : String) (l l' : SignalLayout F)
    → lookup name table ≡ some l
    → lookup name' table ≡ some l'
    → l.pdu_id ≡ l'.pdu_id
    → l.pdu_length_bytes ≡ l'.pdu_length_bytes

-- What a buffer of the PDU `k` is.
abbrev pub IsBuffer : {F : Type 0} → Dict (SignalLayout F) → ℕ → Bytes → Type 0
IsBuffer {F} table k buf =
    AreBytes buf
    × ((name : String) (l : SignalLayout F)
        → lookup name table ≡ some l
        → l.pdu_id ≡ k
        → length buf ≡ l.pdu_length_bytes)

pub record IsWellFormed {F H : Type 0} (p : SignalPackager F H) : Type 0 where
  pub agree : Agree p.signal_table
  pub buffers :
      (k : ℕ) (buf : Bytes) → find k p.tx_buffers ≡ some buf → IsBuffer p.signal_table k buf

zeros-AreBytes : (n : ℕ) → AreBytes (replicate n 0)
zeros-AreBytes zero = tt
zeros-AreBytes (suc n) = (omega arith, zeros-AreBytes n)

pub buffer_or_new-IsBuffer :
    {F H : Type 0} (p : SignalPackager F H) (name : String) (l : SignalLayout F)
    → IsWellFormed p
    → lookup name p.signal_table ≡ some l
    → IsBuffer p.signal_table l.pdu_id
        (buffer_or_new (find l.pdu_id p.tx_buffers) l.pdu_length_bytes)
unfolding buffer_or_new
buffer_or_new-IsBuffer p name l wf known = elim (Option-cases (find l.pdu_id p.tx_buffers)) [
  | inl missing ↦ rw missing (
    zeros-AreBytes l.pdu_length_bytes,
    λ name' l' known' same.
        length-replicate l.pdu_length_bytes 0 ∙ wf.agree name name' l l' known known' (sym same),
  )
  | inr (buf, found) ↦ rw found (wf.buffers l.pdu_id buf found)
]

-- Every write of a bit keeps the length, also one out of range, which raises.
set_bit-keeps :
    (i v : ℕ) (bs : Bytes)
    → v < 2
    → AreBytes bs
    → AreBytes (set_bit i v bs).0 × (length (set_bit i v bs).0 ≡ length bs)
set_bit-keeps i v bs small valid = elim (Option-cases (get_elem? bs (i / 8))) [
  | inl missing ↦ rw (set_bit_missing i v bs missing) (valid, refl)
  | inr (b, found) ↦ rw (set_bit_found i v bs found) (
    AreBytes-set bs (i / 8) (with_bit (i % 8) v b) valid
        (with_bit-lt (i % 8) v b (omega arith) small (AreBytes-get bs (i / 8) valid found)),
    length-set bs (i / 8) (with_bit (i % 8) v b),
  )
]

-- The turns of the loop that follow the first one, if that did not raise.
abbrev KeepsBytes : Bytes → Bytes → Type 0
KeepsBytes bs bs' = AreBytes bs' × (length bs' ≡ length bs)

and_then-KeepsBytes :
    (bs : Bytes) (r : Bytes × Outcome (Unit {0})) (rest : Bytes → Bytes × Outcome (Unit {0}))
    → ((bs' : Bytes) → AreBytes bs' → KeepsBytes bs' (rest bs').0)
    → KeepsBytes bs r.0
    → KeepsBytes bs (and_then r (λ _ bs'. rest bs')).0
and_then-KeepsBytes bs (bs', ok done) rest keeps (valid, same) =
    let (valid', same') = keeps bs' valid in (valid', same' ∙ same)
and_then-KeepsBytes bs (bs', raised e) rest keeps kept = kept

pub set_bits-keeps :
    (i width raw : ℕ) (bs : Bytes)
    → AreBytes bs
    → AreBytes (set_bits i width raw bs).0 × (length (set_bits i width raw bs).0 ≡ length bs)
unfolding set_bits
set_bits-keeps i zero raw bs valid = (valid, refl)
set_bits-keeps i (suc width) raw bs valid =
    and_then-KeepsBytes bs (set_bit i (raw / 2 ^ width % 2) bs) (set_bits (suc i) width raw)
      (λ bs' valid'. set_bits-keeps (suc i) width raw bs' valid')
      (set_bit-keeps i (raw / 2 ^ width % 2) bs (omega arith) valid)

put-IsWellFormed :
    {F H : Type 0} (p : SignalPackager F H) (k : ℕ) (buf : Bytes)
    → IsWellFormed p
    → IsBuffer p.signal_table k buf
    → IsWellFormed (record p { tx_buffers = put k buf p.tx_buffers })
put-IsWellFormed p k buf wf fine = record {
  agree = wf.agree;
  buffers = λ j buf' found. elim (Bool-cases (k == j)) [
    | inl same ↦
        let here : find j (put k buf p.tx_buffers) ≡ some buf =
          find-put k j buf p.tx_buffers ∙ rw same in
        let equal : buf ≡ buf' = cc in
        let key : k ≡ j = (==_iff k j).0 same in
        subst (λ b. IsBuffer p.signal_table j b) equal
          (subst (λ i. IsBuffer p.signal_table i buf) key fine)
    | inr other ↦
        let there : find j (put k buf p.tx_buffers) ≡ find j p.tx_buffers =
          find-put k j buf p.tx_buffers ∙ rw other in
        wf.buffers j buf' (sym there ∙ found)
  ];
}

module _ {F H : Type 0} (num : Numbers F) (p : SignalPackager F H) (name : String) where
  pack_raw-IsWellFormed :
      (l : SignalLayout F) (raw : ℕ)
      → IsWellFormed p
      → lookup name p.signal_table ≡ some l
      → IsWellFormed (pack_raw l raw p).0
  unfolding pack_raw
  pack_raw-IsWellFormed l raw wf known =
      let old = buffer_or_new (find l.pdu_id p.tx_buffers) l.pdu_length_bytes in
      let (valid, long) = buffer_or_new-IsBuffer p name l wf known in
      let (valid', same) = set_bits-keeps l.offset_bits l.width_bits raw old valid in
      put-IsWellFormed p l.pdu_id _ wf
        (valid', λ name' l' known' same_pdu. same ∙ long name' l' known' same_pdu)

  pack_checked-IsWellFormed :
      (l : SignalLayout F) (raw : ℤ)
      → IsWellFormed p
      → lookup name p.signal_table ≡ some l
      → IsWellFormed (pack_checked l raw p).0
  unfolding pack_checked
  pack_checked-IsWellFormed l (pos raw) wf known = elim (Bool-cases (ltb raw (2 ^ l.width_bits))) [
    | inl inside ↦ rw inside (pack_raw-IsWellFormed l raw wf known)
    | inr outside ↦ rw outside wf
  ]
  pack_checked-IsWellFormed l (negsuc n) wf known = wf

  -- What `pack_signal` does with a layout that was found.
  pub pack_scaled :
      (value : F) {l : SignalLayout F}
      → lookup name p.signal_table ≡ some l
      → pack_signal num name value p ≡ and_then (p, scaled num l value) (pack_checked l)
  unfolding pack_signal get_layout
  pack_scaled value known = rw known refl

  pack_unknown :
      (value : F)
      → lookup name p.signal_table ≡ none
      → pack_signal num name value p ≡ (p, raised unknown_signal_error)
  unfolding pack_signal get_layout
  pack_unknown value missing = rw missing refl

  -- Packing keeps every Tx buffer at the length that its PDU is configured with and its bytes
  -- below 256, for every name and value, whether it returns or raises, also where it raises an
  -- IndexError in the middle of a signal; the layouts of one PDU agree on its length.
  pub pack_signal-IsWellFormed :
      (value : F) → IsWellFormed p → IsWellFormed (pack_signal num name value p).0
  pack_signal-IsWellFormed value wf = elim (Option-cases (lookup name p.signal_table)) [
    | inl missing ↦ rw (pack_unknown value missing) wf
    | inr (l, known) ↦ rw (pack_scaled value known) (elim (Outcome-cases (scaled num l value)) [
      | inl (raw, fine) ↦ rw fine (pack_checked-IsWellFormed l raw wf known)
      | inr (e, failed) ↦ rw failed wf
    ])
  ]

set_bits_raises :
    (i width raw : ℕ) (bs : Bytes) {e : Exception}
    → (set_bits i width raw bs).1 ≡ raised e
    → e ≡ index_error
unfolding set_bits
set_bits_raises i zero raw bs h = absurd (cc)
set_bits_raises i (suc width) raw bs h = elim (Option-cases (get_elem? bs (i / 8))) [
  | inl missing ↦
      sym (raised-injective (rw (set_bit_missing i (raw / 2 ^ width % 2) bs missing) at h))
  | inr (b, found) ↦
      set_bits_raises (suc i) width raw _ (rw (set_bit_found i (raw / 2 ^ width % 2) bs found) at h)
]

done_raises :
    {A : Type 0} (done : Outcome (Unit {0})) (a : A) {e : Exception}
    → (done >>= λ _. ok a) ≡ raised e
    → done ≡ raised e
done_raises (ok done) a h = absurd (cc)
done_raises (raised d) a h = ap raised (raised-injective h)

module _ {F H : Type 0} (num : Numbers F) (p : SignalPackager F H) where
  pack_raw_refuses :
      (l : SignalLayout F) (raw : ℕ) {e : Exception}
      → (pack_raw l raw p).1 ≡ raised e
      → e ≡ index_error
  unfolding pack_raw
  pack_raw_refuses l raw h =
      let buf = buffer_or_new (find l.pdu_id p.tx_buffers) l.pdu_length_bytes in
      set_bits_raises l.offset_bits l.width_bits raw buf (done_raises _ _ h)

  pack_checked_refused :
      (l : SignalLayout F) (raw : ℤ) {e : Exception}
      → (pack_checked l raw p).1 ≡ raised e
      → e ≢ index_error
      → (pack_checked l raw p).0 ≡ p
  unfolding pack_checked
  pack_checked_refused l (pos raw) h other = elim (Bool-cases (ltb raw (2 ^ l.width_bits))) [
    | inl inside ↦ absurd (other (pack_raw_refuses l raw (rw inside at h)))
    | inr outside ↦ rw outside refl
  ]
  pack_checked_refused l (negsuc n) h other = refl

  -- A call of `pack_signal` that raises leaves the packager as it was, whatever it raises but an
  -- IndexError; so an unknown name, a value out of range and a failed scaling change no buffer.
  pub pack_signal_refused :
      (name : String) (value : F) {e : Exception}
      → (pack_signal num name value p).1 ≡ raised e
      → e ≢ index_error
      → (pack_signal num name value p).0 ≡ p
  pack_signal_refused name value h other = elim (Option-cases (lookup name p.signal_table)) [
    | inl missing ↦ ap (λ r. r.0) (pack_unknown num p name value missing)
    | inr (l, known) ↦
        let step = pack_scaled num p name value known in
        elim (Outcome-cases (scaled num l value)) [
          | inl (raw, fine) ↦
              rw (step, fine) (pack_checked_refused l raw (rw (step, fine) at h) other)
          | inr (d, failed) ↦ rw (step, failed) refl
        ]
  ]
