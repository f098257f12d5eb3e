-- ===== src/Base/Exceptions.antt =====
-- Python's exceptions as values, and methods that mutate an object and may raise. What a method
-- wrote before it raised stays written, so the object comes back beside the exception too.
use Prim.Native.Nat.{ℕ}
use Prim.Native.String.{String}
use mathlib.Core.Path.{◌≡◌, refl}
use mathlib.Core.Bool.{Bool, true, false}
use mathlib.Core.Logic.{◌⊎◌, inl, inr}

pub data Exception : Type 0 where
  value_error key_error type_error overflow_error attribute_error : Exception
  secoc_config_error security_profile_config_error secoc_transport_error : Exception
  hsm_error csm_error nvm_error : String → Exception
  payload_too_large_error sender_ecu_error receiver_ecu_error ecu_base_error : Exception
  unknown_signal_error signal_value_out_of_range_error : Exception
  index_error zero_division_error : Exception
  unknown_scenario_error : Exception
  assertion_error : String → Exception
  http_exception : ℕ → Exception

-- What an expression does: it has a value, or it raises.
pub data Outcome {ℓ} (A : Type ℓ) : Type ℓ where
  ok : A → Outcome A
  raised : Exception → Outcome A

infixl 5 ◌>>=◌
abbrev pub ◌>>=◌ {ℓ κ} : {A : Type ℓ} {B : Type κ} → Outcome A → (A → Outcome B) → Outcome B
ok a >>= f = f a
raised e >>= f = raised e

-- The object after the call, and how the call ended.
abbrev pub Method : Type 0 → Type 0 → Type 0
Method S A = S → S × Outcome A

-- The next call of a method, on the object that the last call left.
abbrev pub and_then : {S A B : Type 0} → S × Outcome A → (A → Method S B) → S × Outcome B
and_then (s, ok a) f = f a s
and_then (s, raised e) f = (s, raised e)

-- A call on a part of the object, put back into the whole.
abbrev pub within : {S T A : Type 0} → (T → S) → T × Outcome A → S × Outcome A
within put_back (t, r) = (put_back t, r)

pub ok-injective {ℓ} : {A : Type ℓ} {a b : A} → ok a ≡ ok b → a ≡ b
ok-injective e = cc

-- A chain that has a value has one at each step.
pub >>=-eq-ok {ℓ κ} :
    {A : Type ℓ} {B : Type κ} (first : Outcome A) (next : A → Outcome B) {result : B}
    → (first >>= next) ≡ ok result
    → (middle : A) × (first ≡ ok middle) × (next middle ≡ ok result)
>>=-eq-ok (ok middle) next both = (middle, refl, both)
>>=-eq-ok (raised e) next both = cc

-- A method that returned made its first call, which returned, and then its second.
pub and_then-eq-ok :
    {S A B : Type 0} (x : S × Outcome A) (f : A → Method S B) {s' : S} {b : B}
    → and_then x f ≡ (s', ok b)
    → (s1 : S) × (a : A) × (x ≡ (s1, ok a)) × (f a s1 ≡ (s', ok b))
and_then-eq-ok (s1, ok a) f h = (s1, a, refl, h)
and_then-eq-ok (s1, raised e) f h = cc

-- The same, where the first call only reads.
pub and_then_read :
    {S A B : Type 0} (s : S) (o : Outcome A) (f : A → Method S B) {s' : S} {b : B}
    → and_then (s, o) f ≡ (s', ok b)
    → (a : A) × (o ≡ ok a) × (f a s ≡ (s', ok b))
and_then_read s (ok a) f h = (a, refl, h)
and_then_read s (raised e) f h = cc

-- The test of `except ValueError`: no other exception here is a subclass of it.
unfoldable pub is_value_error : Exception → Bool
is_value_error value_error = true
is_value_error _ = false

pub Outcome-cases {ℓ} :
    {A : Type ℓ} (o : Outcome A) → ((a : A) × (o ≡ ok a)) ⊎ ((e : Exception) × (o ≡ raised e))
Outcome-cases (ok a) = inl (a, refl)
Outcome-cases (raised e) = inr (e, refl)

pub raised-injective {ℓ} :
    {A : Type ℓ} {d e : Exception} → ◌≡◌ {A = Outcome A} (raised d) (raised e) → d ≡ e
raised-injective h = cc
