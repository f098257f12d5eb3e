-- ===== src/Nvm/RoundTrip.antt =====
-- What sim/nvm.py writes to disk, it reads back.
use sec_oc.Base.{◌≡◌, refl, ap, ◌∙◌, String, false, [], ◌∷◌}
use sec_oc.Base.{ok}
use sec_oc.Base.Bytes.{Bytes}
use sec_oc.Base.Dict.{Dict, insert}
use sec_oc.Nvm.Values.{
  Value, null, boolean, integer, text, blob, array, object, Items, nil, cons, Fields, end, field,
}
use sec_oc.Nvm.Hex.{AllBytes, from_hex-hex}
use sec_oc.Nvm.Codec.{
  encode, encode_items, encode_fields, decode, decode_items, decode_fields, is_marked, to_fields,
  of_fields, encode_store, decode_document,
}
use sec_oc.Nvm.{Nvm, open_nvm, write}

-- Bytes are below 256, and no object has the marker as its only key.
unfoldable mutual
  pub IsPlain : Value → Type 0
  IsPlain null = Unit
  IsPlain (boolean b) = Unit
  IsPlain (integer n) = Unit
  IsPlain (text s) = Unit
  IsPlain (blob bs) = AllBytes bs
  IsPlain (array xs) = AllPlain xs
  IsPlain (object fs) = (is_marked fs ≡ false) × FieldsPlain fs

  pub AllPlain : Items → Type 0
  AllPlain nil = Unit
  AllPlain (cons x xs) = IsPlain x × AllPlain xs

  pub FieldsPlain : Fields → Type 0
  FieldsPlain end = Unit
  FieldsPlain (field k v fs) = IsPlain v × FieldsPlain fs

is_marked-encode_fields : (fs : Fields) → is_marked (encode_fields fs) ≡ is_marked fs
unfolding is_marked encode
is_marked-encode_fields end = refl
is_marked-encode_fields (field k v end) = refl
is_marked-encode_fields (field k v (field j w fs)) = refl

decode-object :
    (fs gs : Fields)
    → is_marked fs ≡ false
    → decode_fields fs ≡ ok gs
    → decode (object fs) ≡ ok (object gs)
unfolding decode
decode-object fs gs plain e = rw (plain, e)

decode-array : (xs ys : Items) → decode_items xs ≡ ok ys → decode (array xs) ≡ ok (array ys)
unfolding decode
decode-array xs ys e = rw e

decode_items-cons :
    (x y : Value) (xs ys : Items)
    → decode x ≡ ok y
    → decode_items xs ≡ ok ys
    → decode_items (cons x xs) ≡ ok (cons y ys)
unfolding decode
decode_items-cons x y xs ys e es = rw (e, es)

decode_fields-field :
    (k : String) (v w : Value) (fs gs : Fields)
    → decode v ≡ ok w
    → decode_fields fs ≡ ok gs
    → decode_fields (field k v fs) ≡ ok (field k w gs)
unfolding decode
decode_fields-field k v w fs gs e es = rw (e, es)

decode-blob : (bs : Bytes) → AllBytes bs → decode (encode (blob bs)) ≡ ok (blob bs)
unfolding decode encode
decode-blob bs h = rw (from_hex-hex bs h)

mutual
  unfolding IsPlain decode encode

  decode-encode : (v : Value) → IsPlain v → decode (encode v) ≡ ok v
  decode-encode null h = refl
  decode-encode (boolean b) h = refl
  decode-encode (integer n) h = refl
  decode-encode (text s) h = refl
  decode-encode (blob bs) h = decode-blob bs h
  decode-encode (array xs) h = decode-array (encode_items xs) xs (decode_items-encode_items xs h)
  decode-encode (object fs) h =
      decode-object (encode_fields fs) fs (is_marked-encode_fields fs ∙ h.0)
        (decode_fields-encode_fields fs h.1)

  decode_items-encode_items : (xs : Items) → AllPlain xs → decode_items (encode_items xs) ≡ ok xs
  decode_items-encode_items nil h = refl
  decode_items-encode_items (cons x xs) h =
      decode_items-cons (encode x) x (encode_items xs) xs (decode-encode x h.0)
        (decode_items-encode_items xs h.1)

  decode_fields-encode_fields :
      (fs : Fields) → FieldsPlain fs → decode_fields (encode_fields fs) ≡ ok fs
  decode_fields-encode_fields end h = refl
  decode_fields-encode_fields (field k v fs) h =
      decode_fields-field k (encode v) v (encode_fields fs) fs (decode-encode v h.0)
        (decode_fields-encode_fields fs h.1)

-- What is written to disk is read back: `_decode` undoes `_encode` on every value whose bytes are
-- below 256 and in which no object has the marker as its only key.
pub decode-encode_plain : (v : Value) → IsPlain v → decode (encode v) ≡ ok v
decode-encode_plain v h = decode-encode v h

of_fields-to_fields : (d : Dict Value) → of_fields (to_fields d) ≡ d
unfolding to_fields of_fields
of_fields-to_fields [] = refl
of_fields-to_fields ((k, v) ∷ d) = ap (λ e. (k, v) ∷ e) (of_fields-to_fields d)

decode_document-encode_store :
    (d : Dict Value) → IsPlain (object (to_fields d)) → decode_document (encode_store d) ≡ ok d
unfolding decode_document encode_store
decode_document-encode_store d h =
    rw (decode-encode (object (to_fields d)) h) (rw (of_fields-to_fields d))

-- Power-cycle: after a write, opening the memory again from its file gives the same memory, if
-- the store after the write has only bytes below 256 and no object, itself included, whose only
-- key is the marker.
pub open_nvm-write :
    (k : String) (v : Value) (nvm : Nvm)
    → IsPlain (object (to_fields (write k v nvm).store))
    → open_nvm (write k v nvm).file ≡ ok (write k v nvm)
unfolding open_nvm write
open_nvm-write k v nvm h = rw (decode_document-encode_store (insert k v nvm.store) h)
