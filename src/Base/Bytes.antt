-- ===== src/Base/Bytes.antt =====
-- Python's `bytes`, as lists of numbers: big-endian integers, slices with negative indices,
-- padding and equality.
use Prim.Native.Nat.{ℕ, zero, suc, ◌+◌, ◌-◌, ◌*◌, ◌/◌, ◌%◌, ◌^◌, ◌<◌}
use mathlib.Core.Path.{◌≡◌, refl}
use mathlib.Core.Logic.{◌↔◌}
use mathlib.Core.Bool.{Bool, true, false, ◌&&◌}
use mathlib.Core.List.{List, [], ◌∷◌, ◌++◌}
use native.Mathlib.Omega.{arith}
use native.Mathlib.Numerals.{towards_suc}
use native.Mathlib.Nat.{mod-lt}
use sec_oc.Base.Tests.{ltb, ◌==◌, if◌then◌else◌, lt→ltb}
use sec_oc.Base.Lists.{length, take, drop, replicate, length-append}
use sec_oc.Base.Exceptions.{Outcome, ok, raised, overflow_error}

abbrev pub Bytes : Type 0
Bytes = List ℕ

-- `1 << (n * 8)`
abbrev pub modulus : ℕ → ℕ
modulus n = 2 ^ (n * 8)

two_pow-add_eight : (n : ℕ) → 2 ^ (n + 8) ≡ 2 ^ n * 256
two_pow-add_eight n = simp towards_suc (omega arith)

pub modulus-suc : (n : ℕ) → modulus (suc n) ≡ modulus n * 256
modulus-suc n = let e : suc n * 8 ≡ n * 8 + 8 = omega arith in rw e (two_pow-add_eight (n * 8))

pub modulus_pos : (n : ℕ) → 0 < modulus n
modulus_pos zero = omega arith
modulus_pos (suc n) = omega (arith, modulus-suc n, modulus_pos n)

-- The `n` lowest base-256 digits of a number, the highest first.
unfoldable pub big_endian : ℕ → ℕ → Bytes
big_endian zero v = []
big_endian (suc n) v = big_endian n (v / 256) ++ v % 256 ∷ []

-- `v.to_bytes(n, "big")`
unfoldable pub to_bytes : ℕ → ℕ → Outcome Bytes
unfolding big_endian
to_bytes v n = if ltb v (modulus n) then ok (big_endian n v) else raised overflow_error

accumulate : ℕ → Bytes → ℕ
accumulate acc [] = acc
accumulate acc (b ∷ bs) = accumulate (acc * 256 + b) bs

-- `int.from_bytes(bs, "big")`
unfoldable pub from_bytes : Bytes → ℕ
unfolding accumulate
from_bytes bs = accumulate 0 bs

accumulate-append :
    (acc : ℕ) (bs : Bytes) (b : ℕ) → accumulate acc (bs ++ b ∷ []) ≡ accumulate acc bs * 256 + b
unfolding accumulate
accumulate-append acc [] b = refl
accumulate-append acc (c ∷ bs) b = accumulate-append (acc * 256 + c) bs b

pub length-big_endian : (n v : ℕ) → length (big_endian n v) ≡ n
unfolding big_endian
length-big_endian zero v = refl
length-big_endian (suc n) v =
    omega
      (arith, length-append (big_endian n (v / 256)) (v % 256 ∷ []), length-big_endian n (v / 256))

pub from_bytes-big_endian : (n v : ℕ) → v < modulus n → from_bytes (big_endian n v) ≡ v
unfolding from_bytes big_endian
from_bytes-big_endian zero v h = omega arith
from_bytes-big_endian (suc n) v h = omega (
  arith,
  accumulate-append 0 (big_endian n (v / 256)) (v % 256),
  from_bytes-big_endian n (v / 256) (omega (arith, modulus-suc n)),
)

-- After a reduction by the modulus the conversion never raises.
pub to_bytes-mod : (n v : ℕ) → to_bytes (v % modulus n) n ≡ ok (big_endian n (v % modulus n))
unfolding to_bytes
to_bytes-mod n v = rw (lt→ltb (v % modulus n) (modulus n) (mod-lt v (modulus_pos n)))

-- The index that `-k` stands for in a sequence of length `n`, in a slice: `-0` is `0`, and an
-- index before the start is the start.
abbrev pub from_end : ℕ → ℕ → ℕ
from_end n k = if k == 0 then 0 else n - k

-- `bs[i:j]`
abbrev pub slice : {A : Type 0} → List A → ℕ → ℕ → List A
slice bs i j = take (j - i) (drop i bs)

-- `bs.ljust(n, b"\x00")`
abbrev pub ljust : ℕ → Bytes → Bytes
ljust n bs = bs ++ replicate (n - length bs) 0

-- `a == b`, and `hmac.compare_digest(a, b)`
unfoldable pub bytes_eq : Bytes → Bytes → Bool
bytes_eq [] [] = true
bytes_eq (a ∷ xs) (b ∷ ys) = a == b && bytes_eq xs ys
bytes_eq _ _ = false

pub bytes_eq_iff : (a b : Bytes) → (bytes_eq a b ≡ true) ↔ (a ≡ b)
unfolding bytes_eq
bytes_eq_iff [] [] = (λ _. refl, λ _. refl)
bytes_eq_iff [] (b ∷ bs) = (λ h. cc, λ h. cc)
bytes_eq_iff (a ∷ xs) [] = (λ h. cc, λ h. cc)
bytes_eq_iff (a ∷ xs) (b ∷ ys) = ground (arith, bytes_eq_iff xs ys)
