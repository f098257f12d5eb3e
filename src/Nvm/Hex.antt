-- ===== src/Nvm/Hex.antt =====
-- `bytes.hex` and `bytes.fromhex`, by which sim/nvm.py writes bytes into JSON.
use Prim.Native.Char.{Char, code}
use Prim.Native.String.{[], ◌∷◌}
use mathlib.Core.List.{map}
use sec_oc.Base.{
  ℕ, zero, suc, ◌+◌, ◌-◌, ◌*◌, ◌/◌, ◌%◌, ◌<◌, ◌≡◌, refl, ap, ◌∙◌, String, Bool, true, false, not,
  ◌&&◌, ◌||◌, arith,
}
use sec_oc.Base.{
  Outcome, ok, raised, value_error, ◌>>=◌, leb, ◌==◌, all_below, all_below_sound, if◌then◌else◌,
}
use sec_oc.Base.Bytes.{Bytes}
use mathlib.Core.List

char_at : ℕ → String → Char
char_at n [] = "0"
char_at zero (c ∷ s) = c
char_at (suc n) (c ∷ s) = char_at n s

-- The digit of a number below 16.
digit_of : ℕ → Char
unfolding char_at
digit_of n = char_at n "0123456789abcdef"

value_of : Char → Outcome ℕ
value_of c =
    let k = code c in
    if leb b'0' k && leb k b'9'
    then ok (k - b'0')
    else if leb b'a' k && leb k b'f'
    then ok (k - b'a' + 10)
    else if leb b'A' k && leb k b'F'
    then ok (k - b'A' + 10)
    else raised value_error

-- The spaces that `fromhex` skips between two bytes.
is_space : Char → Bool
is_space c = let k = code c in k == 32 || leb 9 k && leb k 13

-- `bs.hex()`
unfoldable pub hex : Bytes → String
unfolding digit_of
hex List.[] = []
hex (List.◌∷◌ b bs) = digit_of (b / 16) ∷ digit_of (b % 16) ∷ hex bs

-- `bytes.fromhex(s)`
unfoldable pub from_hex : String → Outcome Bytes
unfolding value_of is_space
from_hex [] = ok List.[]
from_hex (c ∷ []) = if is_space c then ok List.[] else raised value_error
from_hex (c ∷ d ∷ s) =
    let after_space = from_hex (d ∷ s) in
    let after_byte = from_hex s in
    if is_space c
    then after_space
    else do hi ← value_of c; lo ← value_of d; rest ← after_byte; ok (List.◌∷◌ (hi * 16 + lo) rest)

is_digit_for : ℕ → Outcome ℕ → Bool
is_digit_for n (ok m) = m == n
is_digit_for n (raised e) = false

reads_back : ℕ → Bool
unfolding is_digit_for digit_of value_of is_space
reads_back n = is_digit_for n (value_of (digit_of n)) && not (is_space (digit_of n))

reads_back_table : all_below 16 reads_back ≡ true
unfolding all_below reads_back
reads_back_table = refl

is_digit_for-eq : (n : ℕ) (r : Outcome ℕ) → is_digit_for n r ≡ true → r ≡ ok n
unfolding is_digit_for
is_digit_for-eq n r h = ground arith

-- A digit is read back, and is no space.
digit_of_lem : (n : ℕ) → n < 16 → (value_of (digit_of n) ≡ ok n) × (is_space (digit_of n) ≡ false)
digit_of_lem n h =
    split (value_of (digit_of n)) (is_space (digit_of n))
      (unfold reads_back in all_below_sound 16 reads_back n h reads_back_table)
  where
    split :
        (r : Outcome ℕ) (b : Bool) → (is_digit_for n r && not b) ≡ true → (r ≡ ok n) × (b ≡ false)
    split r b e = ground (arith, is_digit_for-eq n r)

-- Every number of the list is a byte.
abbrev pub AllBytes : Bytes → Type 0
AllBytes List.[] = Unit
AllBytes (List.◌∷◌ b bs) = (b < 256) × AllBytes bs

from_hex-cons :
    (c d : Char) (s : String) (hi lo : ℕ) (bs : Bytes)
    → is_space c ≡ false
    → value_of c ≡ ok hi
    → value_of d ≡ ok lo
    → from_hex s ≡ ok bs
    → from_hex (c ∷ d ∷ s) ≡ ok (List.◌∷◌ (hi * 16 + lo) bs)
unfolding from_hex
from_hex-cons c d s hi lo bs space high low rest = rw (space, high, low, rest)

pub from_hex-hex : (bs : Bytes) → AllBytes bs → from_hex (hex bs) ≡ ok bs
unfolding hex from_hex
from_hex-hex List.[] h = refl
from_hex-hex (List.◌∷◌ b bs) h =
    let (high, space) = digit_of_lem (b / 16) (omega arith) in
    let (low, _) = digit_of_lem (b % 16) (omega arith) in
    let e : b / 16 * 16 + b % 16 ≡ b = omega arith in
    from_hex-cons (digit_of (b / 16)) (digit_of (b % 16)) (hex bs) _ _ bs space high low
      (from_hex-hex bs h.1)
    ∙ ap (λ n. ok (List.◌∷◌ n bs)) e
