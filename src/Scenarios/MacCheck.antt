-- ===== src/Scenarios/MacCheck.antt =====
-- Why the scenario of sim/scenario_runner.py on MACs passes.
use sec_oc.Base.{
  ℕ, ◌%◌, ◌≡◌, ◌≢◌, refl, sym, false, [], ◌∷◌, arith, length, length-take, ==_iff, ◌++◌,
}
use sec_oc.Base.{ok}
use sec_oc.Base.Bytes.{Bytes, bytes_eq, bytes_eq_iff, big_endian, modulus}
use sec_oc.Base.Dict.{lookup}
use sec_oc.Attack.{flip, xor_bits}
use sec_oc.Crypto.Csm
use sec_oc.Vectors.{rfc4231_case_2, list_vector_names, get_vector, expected_truncated_mac}
use sec_oc.Crypto.Csm.{new_csm, finished}
use sec_oc.Crypto.Library.{Library, HasLengths}
use sec_oc.Crypto.Macs.{HoldsKey, compute_mac_held}
use sec_oc.Keys.Provision.{
  with_key, provision_key-with_key, with_key_up, with_key_resolves, with_key_stored,
}
use sec_oc.Profile.{can_fd, get_profile, truncation_lengths}
use sec_oc.Profile.Defaults.{default_profile}
use sec_oc.Secoc.Authenticator.{resolve_key_id, check_budget, generate_mac, verify_mac}
use sec_oc.Secoc.Macs.{HasProfile, truncated_mac, generate_mac_held, verify_mac_held}
use sec_oc.Secoc.Objects.{Stack}
use sec_oc.Scenarios.Bodies.{new_profile_file}
use sec_oc.Scenarios.Provided.{provided, new_profile_provider_lem}
use sec_oc.Profile.{is_in}
use sec_oc.Scenarios.KeyBodies.{
  scenario_06, vector_csm, scenario_07, corrupt, mac_setup, mac_stack, mac_payload, new_keyring,
}

flip-differs : (byte : ℕ) → flip 255 byte ≢ byte
unfolding flip xor_bits
flip-differs byte e = absurd (omega (arith, e))

corrupt-differs :
    (mac : Bytes)
    → length mac ≡ 8
    → (corrupted : Bytes) × (corrupt mac ≡ ok corrupted) × (bytes_eq mac corrupted ≡ false)
unfolding corrupt bytes_eq
corrupt-differs [] long = absurd (omega (arith, long))
corrupt-differs (byte ∷ bytes) long = (
  flip 255 byte ∷ bytes,
  refl,
  ground
      (arith, ==_iff byte (flip 255 byte), λ (e : byte ≡ flip 255 byte). flip-differs byte (sym e)),
)

-- The package computes the published digest of case 2 of RFC 4231.
abbrev pub IsRfc4231 : Library → Type 0
IsRfc4231 lib =
    lib.hmac_digest rfc4231_case_2.key rfc4231_case_2.message ≡ rfc4231_case_2.expected_mac

vector-HoldsKey : HoldsKey (vector_csm rfc4231_case_2.key) "rfc4231_test_key" rfc4231_case_2.key
unfolding lookup
vector-HoldsKey = record { stored = refl; available = refl }

pub passes_06 : (lib : Library) → IsRfc4231 lib → (scenario_06 lib).1 ≡ ok tt
unfolding scenario_06 is_in list_vector_names get_vector expected_truncated_mac lookup
    Csm.generate_mac
passes_06 lib published =
    rw
      (compute_mac_held lib "rfc4231_test_key" (vector_csm rfc4231_case_2.key) rfc4231_case_2.key
        rfc4231_case_2.message vector-HoldsKey)
      (rw published
        (rw ((bytes_eq_iff rfc4231_case_2.expected_mac rfc4231_case_2.expected_mac).1 refl) refl))

module _ (lib : Library) (laws : HasLengths lib) where
  mac_key : Bytes
  mac_key = lib.urandom 0 32

  -- The node after the key is made, with the profile.
  start : Stack
  start =
      mac_stack (provided "PDU_0x100" "HMAC-SHA256" (new_profile_file "PDU_0x100"))
        (with_key lib "PDU_0x100" "secoc_mac_key_PDU_0x100" new_keyring refl)

  -- The same, after a number of MACs.
  later : ℕ → Stack
  later seq = record start { op_seq = seq; csm = record start.csm { state = finished } }

  start-HasProfile :
      HasProfile "PDU_0x100" can_fd start (default_profile "PDU_0x100" "HMAC-SHA256") 2 8
  unfolding start provided get_profile truncation_lengths lookup
  start-HasProfile = record { found = refl; lengths = refl }

  later-HasProfile :
      (seq : ℕ)
      → HasProfile "PDU_0x100" can_fd (later seq) (default_profile "PDU_0x100" "HMAC-SHA256") 2 8
  unfolding later
  later-HasProfile seq = record {
    found = start-HasProfile.found;
    lengths = start-HasProfile.lengths;
  }

  start_resolves :
      resolve_key_id (mac_setup lib) "PDU_0x100" (default_profile "PDU_0x100" "HMAC-SHA256") start
      ≡ ok "secoc_mac_key_PDU_0x100"
  unfolding resolve_key_id start
  start_resolves = with_key_resolves lib "PDU_0x100" "secoc_mac_key_PDU_0x100" new_keyring refl

  later_resolves :
      (seq : ℕ)
      → resolve_key_id
          (mac_setup lib)
          "PDU_0x100"
          (default_profile "PDU_0x100" "HMAC-SHA256")
          (later seq)
        ≡ ok "secoc_mac_key_PDU_0x100"
  unfolding resolve_key_id later
  later_resolves seq = start_resolves

  start-HoldsKey : HoldsKey start.csm "secoc_mac_key_PDU_0x100" mac_key
  unfolding start new_csm mac_key
  start-HoldsKey = record {
    stored = with_key_stored lib "PDU_0x100" "secoc_mac_key_PDU_0x100" new_keyring refl;
    available = with_key_up lib "PDU_0x100" "secoc_mac_key_PDU_0x100" new_keyring refl;
  }

  later-HoldsKey : (seq : ℕ) → HoldsKey (later seq).csm "secoc_mac_key_PDU_0x100" mac_key
  unfolding later
  later-HoldsKey seq = record {
    stored = start-HoldsKey.stored;
    available = start-HoldsKey.available;
  }

  valid_mac : Bytes
  valid_mac = truncated_mac (mac_setup lib) mac_key mac_payload 1 2 8

  length-valid_mac : length valid_mac ≡ 8
  unfolding valid_mac
  length-valid_mac =
      let digest = lib.hmac_digest mac_key (mac_payload ++ big_endian 2 (1 % modulus 2)) in
      omega (
        arith,
        length-take 8 digest,
        laws.hmac_length mac_key (mac_payload ++ big_endian 2 (1 % modulus 2)),
      )

  generated :
      generate_mac (mac_setup lib) "PDU_0x100" mac_payload 1 can_fd start ≡ (later 1, ok valid_mac)
  unfolding later valid_mac check_budget start
  generated =
      generate_mac_held (mac_setup lib) "PDU_0x100" can_fd
        (default_profile "PDU_0x100" "HMAC-SHA256") 2 8 start "secoc_mac_key_PDU_0x100" mac_key
        mac_payload 1 start-HasProfile start_resolves start-HoldsKey

  verified :
      (mac : Bytes)
      → verify_mac (mac_setup lib) "PDU_0x100" mac_payload 1 mac can_fd (later 1)
        ≡ (later 1, ok (bytes_eq valid_mac mac))
  unfolding later valid_mac
  verified mac =
      verify_mac_held (mac_setup lib) "PDU_0x100" can_fd (default_profile "PDU_0x100" "HMAC-SHA256")
        2 8 (later 1) "secoc_mac_key_PDU_0x100" mac_key mac_payload 1 mac (later-HasProfile 1)
        (later_resolves 1) (later-HoldsKey 1)

  pub passes_07 : (scenario_07 lib).1 ≡ ok tt
  unfolding scenario_07
  passes_07 =
      let (corrupted, made, differs) = corrupt-differs valid_mac length-valid_mac in
      rw (provision_key-with_key lib "PDU_0x100" "secoc_mac_key_PDU_0x100" new_keyring refl) (
        rw (new_profile_provider_lem "PDU_0x100") (
          unfold start in
          rw generated (
            rw made (
              rw (verified corrupted) (
                rw differs (
                  rw (verified valid_mac)
                    (rw ((bytes_eq_iff valid_mac valid_mac).1 refl) refl)))))))
