-- ===== src/Signals/Fields.antt =====
-- The loops `_set_bits` and `_get_bits` of sim/signal_packager.py: a field of bits, the highest
-- first, anywhere in a buffer.
use native.Mathlib.Nat.{
  mod-add-div', add-mul-mod_self_right, mod-eq_of_lt, one-le-pow, mod-lt, pow-succ',
}
use sec_oc.Base.{
  ℕ, zero, suc, ◌+◌, ◌*◌, ◌/◌, ◌%◌, ◌^◌, ◌≤◌, ◌<◌, ◌≡◌, refl, ap, ◌∙◌, ◌⊎◌, inl, arith, length,
}
use sec_oc.Base.{Method, Outcome, ok, ◌>>=◌, and_then}
use sec_oc.Base.Bytes.{Bytes}
use sec_oc.Signals.Bits.{
  set_bit, get_bit, written, set_bit-ok, length-written, AreBytes, written-AreBytes,
  get_bit-written,
}

-- `_set_bits`, from the bit at `bit_index` on with `width` bits left: what is shifted out of `raw`
-- is `width - 1 - i` for the turn `i` of the loop.
unfoldable pub set_bits : ℕ → ℕ → ℕ → Method Bytes (Unit {0})
set_bits bit_index zero raw buf = (buf, ok tt)
set_bits bit_index (suc width) raw buf =
    and_then (set_bit bit_index (raw / 2 ^ width % 2) buf)
      λ _ buf'. set_bits (suc bit_index) width raw buf'

-- `_get_bits`, from the bit at `bit_index` on with `width` bits left; `raw << 1` has no lowest
-- bit, so `|` adds the new one.
unfoldable pub get_bits_from : ℕ → ℕ → ℕ → Bytes → Outcome ℕ
get_bits_from raw bit_index zero bytes = ok raw
get_bits_from raw bit_index (suc width) bytes = get_bit bit_index bytes >>= λ bit_value.
    get_bits_from (raw * 2 + bit_value) (suc bit_index) width bytes

-- `_get_bits`
unfoldable pub get_bits : ℕ → ℕ → Bytes → Outcome ℕ
get_bits offset_bits width_bits bytes = get_bits_from 0 offset_bits width_bits bytes

-- The bits from `p` on are the `width` lowest of `raw`, the highest first.
abbrev pub Holds : ℕ → ℕ → ℕ → Bytes → Type 0
Holds p zero raw bs = Unit
Holds p (suc width) raw bs = (get_bit p bs ≡ ok (raw / 2 ^ width % 2)) × Holds (suc p) width raw bs

-- Two fields that share no bit.
abbrev pub Apart : ℕ → ℕ → ℕ → ℕ → Type 0
Apart p n q m = (p + n ≤ q) ⊎ (q + m ≤ p)

-- The buffer after the loop.
pub with_field : ℕ → ℕ → ℕ → Bytes → Bytes
with_field p zero raw bs = bs
with_field p (suc width) raw bs = with_field (suc p) width raw (written p (raw / 2 ^ width % 2) bs)

pub length-with_field :
    (p width raw : ℕ) (bs : Bytes)
    → p + width ≤ 8 * length bs
    → length (with_field p width raw bs) ≡ length bs
unfolding with_field
length-with_field p zero raw bs h = refl
length-with_field p (suc width) raw bs h =
    let same = length-written p (raw / 2 ^ width % 2) bs (omega arith) in
    length-with_field (suc p) width raw (written p (raw / 2 ^ width % 2) bs) (omega arith) ∙ same

pub set_bits-ok :
    (p width raw : ℕ) (bs : Bytes)
    → p + width ≤ 8 * length bs
    → set_bits p width raw bs ≡ (with_field p width raw bs, ok tt)
unfolding set_bits with_field
set_bits-ok p zero raw bs h = refl
set_bits-ok p (suc width) raw bs h =
    let same = length-written p (raw / 2 ^ width % 2) bs (omega arith) in
    rw (set_bit-ok p (raw / 2 ^ width % 2) bs (omega arith))
      (set_bits-ok (suc p) width raw (written p (raw / 2 ^ width % 2) bs) (omega arith))

pub with_field-AreBytes :
    (p width raw : ℕ) (bs : Bytes)
    → p + width ≤ 8 * length bs
    → AreBytes bs
    → AreBytes (with_field p width raw bs)
unfolding with_field
with_field-AreBytes p zero raw bs h valid = valid
with_field-AreBytes p (suc width) raw bs h valid =
    let same = length-written p (raw / 2 ^ width % 2) bs (omega arith) in
    with_field-AreBytes (suc p) width raw (written p (raw / 2 ^ width % 2) bs) (omega arith)
      (written-AreBytes p _ bs (omega arith) valid (omega arith))

-- A bit outside the field is as it was.
pub get_bit-with_field :
    (p width raw j : ℕ) (bs : Bytes)
    → p + width ≤ 8 * length bs
    → AreBytes bs
    → j < 8 * length bs
    → (j < p) ⊎ (p + width ≤ j)
    → get_bit j (with_field p width raw bs) ≡ get_bit j bs
unfolding with_field
get_bit-with_field p zero raw j bs h valid inside outside = refl
get_bit-with_field p (suc width) raw j bs h valid inside outside =
    let b = raw / 2 ^ width % 2 in
    let same = length-written p b bs (omega arith) in
    get_bit-with_field (suc p) width raw j (written p b bs) (omega arith)
      (written-AreBytes p b bs (omega arith) valid (omega arith)) (omega arith) (ground arith)
    ∙ ground (arith, get_bit-written p b bs (omega arith) valid (omega arith) j inside)

-- The field holds what was written.
pub with_field-Holds :
    (p width raw : ℕ) (bs : Bytes)
    → p + width ≤ 8 * length bs
    → AreBytes bs
    → Holds p width raw (with_field p width raw bs)
unfolding with_field
with_field-Holds p zero raw bs h valid = tt
with_field-Holds p (suc width) raw bs h valid =
    let b = raw / 2 ^ width % 2 in
    let same = length-written p b bs (omega arith) in
    let valid' = written-AreBytes p b bs (omega arith) valid (omega arith) in
    (
      get_bit-with_field (suc p) width raw p (written p b bs) (omega arith) valid' (omega arith)
            (inl (omega arith))
          ∙ ground
              (arith, get_bit-written p b bs (omega arith) valid (omega arith) p (omega arith)),
      with_field-Holds (suc p) width raw (written p b bs) (omega arith) valid',
    )

-- A field that shares no bit with the one written holds what it held.
pub Holds-with_field :
    (p width raw q width' raw' : ℕ) (bs : Bytes)
    → p + width ≤ 8 * length bs
    → q + width' ≤ 8 * length bs
    → AreBytes bs
    → Apart p width q width'
    → Holds q width' raw' bs
    → Holds q width' raw' (with_field p width raw bs)
Holds-with_field p width raw q zero raw' bs hp hq valid apart held = tt
Holds-with_field p width raw q (suc width') raw' bs hp hq valid apart held = (
  get_bit-with_field p width raw q bs hp valid (omega arith) (ground arith) ∙ held.0,
  Holds-with_field p width raw (suc q) width' raw' bs hp (omega arith) valid (ground arith) held.1,
)

bit-mul-lt : (bit q r : ℕ) → bit < 2 → r < q → bit * q + r < 2 * q
bit-mul-lt zero q r small below = omega arith
bit-mul-lt (suc zero) q r small below = omega arith
bit-mul-lt (suc (suc bit)) q r small below = absurd (omega arith)

mod-two-mul : (raw q : ℕ) → 0 < q → raw % (2 * q) ≡ raw / q % 2 * q + raw % q
mod-two-mul raw q positive =
    let bit = raw / q % 2 in
    let rest : bit * q + raw % q < 2 * q =
      bit-mul-lt bit q (raw % q) (omega arith) (mod-lt raw positive) in
    let halves : raw / q ≡ bit + 2 * (raw / q / 2) = omega arith in
    let whole : raw ≡ bit * q + raw % q + raw / q / 2 * (2 * q) =
      omega (arith, mod-add-div' raw q, ap (λ (t : ℕ). t * q) halves) in
    ap (λ (t : ℕ). t % (2 * q)) whole
    ∙ add-mul-mod_self_right (bit * q + raw % q) (raw / q / 2) (2 * q)
    ∙ mod-eq_of_lt rest

-- One more bit of a number on top of its lowest ones.
mod-two_pow-suc : (raw k : ℕ) → raw % 2 ^ suc k ≡ raw / 2 ^ k % 2 * 2 ^ k + raw % 2 ^ k
mod-two_pow-suc raw k = rw (pow-succ' 2 k) (mod-two-mul raw (2 ^ k) (one-le-pow k 2 (omega arith)))

get_bits_from-Holds :
    (acc p width raw : ℕ) (bs : Bytes)
    → Holds p width raw bs
    → get_bits_from acc p width bs ≡ ok (acc * 2 ^ width + raw % 2 ^ width)
unfolding get_bits_from
get_bits_from-Holds acc p zero raw bs held = ground arith
get_bits_from-Holds acc p (suc width) raw bs held = rw held.0 (
    get_bits_from-Holds (acc * 2 + raw / 2 ^ width % 2) (suc p) width raw bs held.1
    ∙ ap ok (omega (arith, mod-two_pow-suc raw width, ap (λ (t : ℕ). acc * t) (pow-succ' 2 width))))

-- A field is read back as the lowest bits of what it holds.
pub get_bits-Holds :
    (p width raw : ℕ) (bs : Bytes)
    → Holds p width raw bs
    → get_bits p width bs ≡ ok (raw % 2 ^ width)
unfolding get_bits
get_bits-Holds p width raw bs held = get_bits_from-Holds 0 p width raw bs held ∙ ap ok (omega arith)
