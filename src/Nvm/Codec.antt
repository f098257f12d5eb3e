-- ===== src/Nvm/Codec.antt =====
-- `_encode` and `_decode` of sim/nvm.py: bytes are written as an object with one marker key.
use sec_oc.Base.{String, Bool, false, [], ◌∷◌, str_eq, if◌then◌else◌}
use sec_oc.Base.{Outcome, ok, raised, type_error, ◌>>=◌}
use sec_oc.Base.Dict.{Dict}
use sec_oc.Nvm.Values.{
  Value, null, boolean, integer, text, blob, array, object, Items, nil, cons, Fields, end, field,
}
use sec_oc.Nvm.Hex.{hex, from_hex}

abbrev pub bytes_marker : String
bytes_marker = "__bytes_hex__"

unfoldable mutual
  unfolding hex

  pub encode : Value → Value
  encode null = null
  encode (boolean b) = boolean b
  encode (integer n) = integer n
  encode (text s) = text s
  encode (blob bs) = object (field bytes_marker (text (hex bs)) end)
  encode (array xs) = array (encode_items xs)
  encode (object fs) = object (encode_fields fs)

  pub encode_items : Items → Items
  encode_items nil = nil
  encode_items (cons x xs) = cons (encode x) (encode_items xs)

  pub encode_fields : Fields → Fields
  encode_fields end = end
  encode_fields (field k v fs) = field k (encode v) (encode_fields fs)

-- `bytes.fromhex(value)`: only a text is accepted.
unfoldable pub from_hex_value : Value → Outcome Value
unfolding from_hex
from_hex_value (text s) = do bs ← from_hex s; ok (blob bs)
from_hex_value _ = raised type_error

-- `set(value.keys()) == {_BYTES_MARKER}`
unfoldable pub is_marked : Fields → Bool
is_marked end = false
is_marked (field k v end) = str_eq k bytes_marker
is_marked (field k v (field j w fs)) = false

-- The value under the marker.
marked_value : Fields → Value
marked_value end = null
marked_value (field k v fs) = v

unfoldable mutual
  unfolding from_hex_value is_marked marked_value

  pub decode : Value → Outcome Value
  decode null = ok null
  decode (boolean b) = ok (boolean b)
  decode (integer n) = ok (integer n)
  decode (text s) = ok (text s)
  decode (blob bs) = ok (blob bs)
  decode (array xs) = do ys ← decode_items xs; ok (array ys)
  decode (object fs) =
      let plain = (do gs ← decode_fields fs; ok (object gs)) in
      if is_marked fs then from_hex_value (marked_value fs) else plain

  pub decode_items : Items → Outcome Items
  decode_items nil = ok nil
  decode_items (cons x xs) = do y ← decode x; ys ← decode_items xs; ok (cons y ys)

  pub decode_fields : Fields → Outcome Fields
  decode_fields end = ok end
  decode_fields (field k v fs) = do w ← decode v; gs ← decode_fields fs; ok (field k w gs)

-- The store as an object, and back.
unfoldable pub to_fields : Dict Value → Fields
to_fields [] = end
to_fields ((k, v) ∷ d) = field k v (to_fields d)

unfoldable pub of_fields : Fields → Dict Value
of_fields end = []
of_fields (field k v fs) = (k, v) ∷ of_fields fs

-- `_encode(self._store)`
unfoldable pub encode_store : Dict Value → Value
unfolding encode to_fields
encode_store d = encode (object (to_fields d))

-- A document that is no object becomes no dictionary; the first use of it would raise.
unfoldable pub as_store : Value → Outcome (Dict Value)
unfolding of_fields
as_store (object fs) = ok (of_fields fs)
as_store _ = raised type_error

-- `_decode(raw)`
unfoldable pub decode_document : Value → Outcome (Dict Value)
unfolding decode as_store
decode_document document = do v ← decode document; as_store v
