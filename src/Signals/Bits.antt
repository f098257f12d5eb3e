-- ===== src/Signals/Bits.antt =====
-- Single bits of a buffer of bytes, the highest bit of a byte first: the bodies of the loops of
-- `_set_bits` and `_get_bits` in sim/signal_packager.py.
use Prim.Native.Nat.{bit_and, bit_or}
use sec_oc.Base.{
  ℕ, zero, suc, ◌-◌, ◌*◌, ◌/◌, ◌%◌, ◌^◌, ◌<◌, ◌≡◌, refl, ap, Bool, true, ◌&&◌, none, some, [], ◌∷◌,
  arith, ltb, ◌==◌, if◌then◌else◌, length, all_below, all_below_sound,
}
use sec_oc.Base.{Method, Outcome, ok, raised, index_error}
use sec_oc.Base.Arrays.{get_elem?, set, length-set, get_elem?-set, get_elem?-lt}
use sec_oc.Base.Bytes.{Bytes}

-- `1 << (7 - bit_in_byte)`
abbrev mask : ℕ → ℕ
mask bit_in_byte = 2 ^ (7 - bit_in_byte)

-- The two assignments of `_set_bits`, on the byte; `~m` keeps all bits of a byte but those of `m`.
unfoldable pub with_bit : ℕ → ℕ → ℕ → ℕ
with_bit bit_in_byte bit_value byte =
    if bit_value == 0 then bit_and byte (255 - mask bit_in_byte) else bit_or byte (mask bit_in_byte)

-- `(byte >> (7 - bit_in_byte)) & 1`
unfoldable pub byte_bit : ℕ → ℕ → ℕ
byte_bit bit_in_byte byte = byte / mask bit_in_byte % 2

-- `buf[byte_index] …= …` for the bit at `bit_index`; the list raises when it has no such byte.
unfoldable pub set_bit : ℕ → ℕ → Method Bytes (Unit {0})
unfolding with_bit
set_bit bit_index bit_value buf = elim (get_elem? buf (bit_index / 8)) [
  | none ↦ (buf, raised index_error)
  | some byte ↦ (set buf (bit_index / 8) (with_bit (bit_index % 8) bit_value byte), ok tt)
]

-- `(data[byte_index] >> (7 - bit_in_byte)) & 1`
unfoldable pub get_bit : ℕ → Bytes → Outcome ℕ
unfolding byte_bit
get_bit bit_index bytes = elim (get_elem? bytes (bit_index / 8)) [
  | none ↦ raised index_error
  | some byte ↦ ok (byte_bit (bit_index % 8) byte)
]

-- What a read of bit `j` gives after a write of `v` to bit `i`, in every byte.
write_read : ℕ → ℕ → ℕ → ℕ → Bool
unfolding with_bit byte_bit
write_read i j v byte =
    byte_bit j (with_bit i v byte) == (if i == j then v else byte_bit j byte)
    && ltb (with_bit i v byte) 256

write_read_table :
    all_below 8 (λ i. all_below 8 (λ j. all_below 2 (λ v. all_below 256 (write_read i j v)))) ≡ true
unfolding all_below write_read
write_read_table = refl

write_read_all :
    (i j v byte : ℕ) → i < 8 → j < 8 → v < 2 → byte < 256 → write_read i j v byte ≡ true
write_read_all i j v byte hi hj hv hb = all_below_sound 256 (write_read i j v) byte hb (
    all_below_sound 2 (λ v. all_below 256 (write_read i j v)) v hv
      (all_below_sound 8 (λ j. all_below 2 (λ v. all_below 256 (write_read i j v))) j hj
        (all_below_sound 8
          (λ i. all_below 8 (λ j. all_below 2 (λ v. all_below 256 (write_read i j v)))) i hi
          write_read_table)))

pub byte_bit-with_bit :
    (i j v byte : ℕ)
    → i < 8
    → j < 8
    → v < 2
    → byte < 256
    → byte_bit j (with_bit i v byte) ≡ (if i == j then v else byte_bit j byte)
unfolding write_read
byte_bit-with_bit i j v byte hi hj hv hb = ground (arith, write_read_all i j v byte hi hj hv hb)

pub with_bit-lt : (i v byte : ℕ) → i < 8 → v < 2 → byte < 256 → with_bit i v byte < 256
unfolding write_read
with_bit-lt i v byte hi hv hb = ground (arith, write_read_all i i v byte hi hi hv hb)

-- The bytes of a buffer are below 256.
abbrev pub AreBytes : Bytes → Type 0
AreBytes [] = Unit
AreBytes (b ∷ bs) = (b < 256) × AreBytes bs

pub AreBytes-set : (bs : Bytes) (i v : ℕ) → AreBytes bs → v < 256 → AreBytes (set bs i v)
AreBytes-set [] i v h hv = tt
AreBytes-set (b ∷ bs) zero v h hv = (hv, h.1)
AreBytes-set (b ∷ bs) (suc i) v h hv = (h.0, AreBytes-set bs i v h.1 hv)

pub AreBytes-get : (bs : Bytes) (i : ℕ) {b : ℕ} → AreBytes bs → get_elem? bs i ≡ some b → b < 256
AreBytes-get [] i h e = absurd (cc)
AreBytes-get (x ∷ bs) zero h e = ground arith
AreBytes-get (x ∷ bs) (suc i) h e = AreBytes-get bs i h.1 e

pub set_bit_found :
    (i v : ℕ) (bs : Bytes) {b : ℕ}
    → get_elem? bs (i / 8) ≡ some b
    → set_bit i v bs ≡ (set bs (i / 8) (with_bit (i % 8) v b), ok tt)
unfolding set_bit
set_bit_found i v bs found = ground arith

pub set_bit_missing :
    (i v : ℕ) (bs : Bytes) → get_elem? bs (i / 8) ≡ none → set_bit i v bs ≡ (bs, raised index_error)
unfolding set_bit
set_bit_missing i v bs missing = ground arith

-- The buffer after a write within it.
pub written : ℕ → ℕ → Bytes → Bytes
unfolding set_bit
written i v bs = (set_bit i v bs).0

written_found :
    (i v : ℕ) (bs : Bytes) {b : ℕ}
    → get_elem? bs (i / 8) ≡ some b
    → written i v bs ≡ set bs (i / 8) (with_bit (i % 8) v b)
unfolding written
written_found i v bs found = ap (λ r. r.0) (set_bit_found i v bs found)

module _ (i v : ℕ) (bs : Bytes) (inside : i < 8 * length bs) where
  pub set_bit-ok : set_bit i v bs ≡ (written i v bs, ok tt)
  unfolding written
  set_bit-ok = ground (arith, get_elem?-lt bs (i / 8) (omega arith))

  pub length-written : length (written i v bs) ≡ length bs
  length-written =
      let (b, found) = get_elem?-lt bs (i / 8) (omega arith) in
      rw (written_found i v bs found) (length-set bs (i / 8) (with_bit (i % 8) v b))

  module _ (valid : AreBytes bs) (is_bit : v < 2) where
    pub written-AreBytes : AreBytes (written i v bs)
    written-AreBytes =
        let (b, found) = get_elem?-lt bs (i / 8) (omega arith) in
        rw (written_found i v bs found) (
          AreBytes-set bs (i / 8) _ valid
            (with_bit-lt (i % 8) v b (omega arith) is_bit (AreBytes-get bs (i / 8) valid found)))

    -- A read after a write: the bit written, or the bit that was there.
    pub get_bit-written :
        (j : ℕ)
        → j < 8 * length bs
        → get_bit j (written i v bs) ≡ (if i == j then ok v else get_bit j bs)
    unfolding written get_bit
    get_bit-written j hj =
        let (b, found) = get_elem?-lt bs (i / 8) (omega arith) in
        let (c, there) = get_elem?-lt bs (j / 8) (omega arith) in
        ground (
          arith,
          found,
          there,
          get_elem?-set bs (i / 8) (j / 8) (with_bit (i % 8) v b) (omega arith),
          byte_bit-with_bit (i % 8) (j % 8) v b (omega arith) (omega arith) is_bit
              (AreBytes-get bs (i / 8) valid found),
        )
