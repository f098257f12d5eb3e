-- ===== src/Vectors.antt =====
-- sim/test_vectors.py: the published test vectors of HMAC-SHA256. Texts of bytes are given by their
-- characters.
use sec_oc.Base.{String, Option, none, some, List, [], ◌∷◌}
use sec_oc.Base.{Outcome, ok, raised, key_error}
use sec_oc.Base.Bytes.{Bytes}
use sec_oc.Base.Dict.{Dict, lookup}

-- `TestVector`
pub record TestVector : Type 0 where
  pub name : String
  pub key : Bytes
  pub message : Bytes
  pub expected_mac : Bytes

-- Case 2 of RFC 4231.
abbrev pub rfc4231_case_2 : TestVector
rfc4231_case_2 = record {
  name = "rfc4231_case_2";
  key = 74 ∷ 101 ∷ 102 ∷ 101 ∷ [];
  message =
      119 ∷ 104 ∷ 97 ∷ 116 ∷ 32 ∷ 100 ∷ 111 ∷ 32 ∷ 121 ∷ 97 ∷ 32 ∷ 119 ∷ 97 ∷ 110 ∷ 116 ∷ 32 ∷ 102
      ∷ 111 ∷ 114 ∷ 32 ∷ 110 ∷ 111 ∷ 116 ∷ 104 ∷ 105 ∷ 110 ∷ 103 ∷ 63 ∷ [];
  expected_mac =
      91 ∷ 220 ∷ 193 ∷ 70 ∷ 191 ∷ 96 ∷ 117 ∷ 78 ∷ 106 ∷ 4 ∷ 36 ∷ 38 ∷ 8 ∷ 149 ∷ 117 ∷ 199 ∷ 90 ∷ 0
      ∷ 63 ∷ 8 ∷ 157 ∷ 39 ∷ 57 ∷ 131 ∷ 157 ∷ 236 ∷ 88 ∷ 185 ∷ 100 ∷ 236 ∷ 56 ∷ 67 ∷ [];
}

-- `_VECTORS`
abbrev pub vectors : Dict TestVector
vectors = ("rfc4231_case_2", rfc4231_case_2) ∷ []

names_of : Dict TestVector → List String
names_of [] = []
names_of ((name, vector) ∷ rest) = name ∷ names_of rest

-- `list_vector_names`
unfoldable pub list_vector_names : List String
unfolding names_of
list_vector_names = names_of vectors

or_key_error : Option TestVector → Outcome TestVector
or_key_error none = raised key_error
or_key_error (some vector) = ok vector

-- `get_vector`
unfoldable pub get_vector : String → Outcome TestVector
unfolding or_key_error
get_vector name = or_key_error (lookup name vectors)

-- `expected_truncated_mac`
unfoldable pub expected_truncated_mac : TestVector → Bytes
expected_truncated_mac vector = vector.expected_mac
