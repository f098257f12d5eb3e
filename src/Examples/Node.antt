-- ===== src/Examples/Node.antt =====
-- A node with one PDU, and a stand-in for the cryptographic packages.
use sec_oc.Base.{
  ℕ, ◌+◌, ◌%◌, ◌≡◌, refl, String, true, false, none, some, [], ◌∷◌, replicate, length-replicate, ok,
}
use sec_oc.Base.Bytes.{Bytes}
use sec_oc.Base.Dict.{lookup}
use sec_oc.Crypto.Csm.{idle}
use sec_oc.Crypto.Hsm.{Hsm, symmetric}
use sec_oc.Crypto.Library.{Library, HasLengths}
use sec_oc.Crypto.Macs.{HoldsKey}
use sec_oc.Freshness.{commit_freshness}
use sec_oc.Freshness.Window.{LastValid-commit_freshness}
use sec_oc.Monitor.{Monitor, normal_operation}
use sec_oc.Nvm.{Nvm}
use sec_oc.Profile.{SecurityProfileEntry, can_fd, classic_can, get_profile, truncation_lengths}
use sec_oc.Secoc.Authenticator.{resolve_key_id}
use sec_oc.Secoc.Transmit.{IsReady}
use sec_oc.Secoc.Macs.{HasProfile}
use sec_oc.Secoc.Objects.{Setup, Stack}

unfoldable pub checksum : Bytes → ℕ
checksum [] = 0
checksum (b ∷ bs) = b + checksum bs

abbrev pub toy_library : Library
toy_library = record {
  urandom = λ i n. replicate n i;
  sha256_digest = λ bs. replicate 32 (checksum bs % 256);
  hmac_digest = λ key bs. replicate 32 ((checksum key + checksum bs) % 256);
  ec_generate = λ i. replicate 32 i;
  ec_public_pem = λ key. key;
  ec_sign = λ i key bs. key;
  ec_verify = λ key bs signature. true;
  aes_accepts = λ key. true;
  aes_encrypt = λ key nonce bs. bs;
  aes_decrypt = λ key nonce bs. some bs;
}

pub toy_library-HasLengths : HasLengths toy_library
toy_library-HasLengths = record {
  hmac_length = λ key bs. length-replicate 32 ((checksum key + checksum bs) % 256);
  urandom_length = λ i n. length-replicate n i;
}

abbrev pub brake : String
brake = "PDU_BRAKE_TORQUE"

abbrev pub brake_key : String
brake_key = "secoc_mac_key_PDU_BRAKE_TORQUE"

abbrev pub brake_profile : SecurityProfileEntry
brake_profile = record {
  algorithm = "HMAC-SHA256";
  key_id = brake_key;
  freshness_length = 2;
  authenticator_length = 8;
  profile_version = "v1";
  tfv_length = some 1;
  tmac_length = some 3;
}

abbrev pub setup : Setup
setup = record {
  lib = toy_library;
  fm = record { window_size = 16; freshness_length = 2 };
  has_key_manager = false;
  has_event_logger = true;
  elapsed_us = λ seq. 120;
}

abbrev pub empty_nvm : Nvm
empty_nvm = record { store = []; file = none }

abbrev pub key_bytes : Bytes
key_bytes = 11 ∷ 22 ∷ 33 ∷ []

abbrev pub brake_hsm : Hsm
brake_hsm = record {
  key_store = (brake_key, symmetric key_bytes) ∷ [];
  fail_mode = false;
  draws = 1;
}

abbrev pub quiet_monitor : Monitor
quiet_monitor = record {
  dem = record { events = []; counter = 0 };
  ecu_state = normal_operation;
  locked_out = false;
  counts = [];
}

-- The node, whose last accepted value for the PDU is `last`.
abbrev pub node : ℕ → Stack
node last = record {
  profiles = (brake, brake_profile) ∷ [];
  nvm = commit_freshness brake last empty_nvm;
  csm = record { hsm = brake_hsm; state = idle; hash_contexts = [] };
  op_seq = 0;
  monitor = quiet_monitor;
  bus = record { running = true; last_frames = []; queue = [] };
}

pub node-HasProfile_fd : (last : ℕ) → HasProfile brake can_fd (node last) brake_profile 2 8
unfolding get_profile lookup truncation_lengths
node-HasProfile_fd last = record { found = refl; lengths = refl }

pub node-HasProfile_can : (last : ℕ) → HasProfile brake classic_can (node last) brake_profile 1 3
unfolding get_profile lookup truncation_lengths
node-HasProfile_can last = record { found = refl; lengths = refl }

pub node_key : (last : ℕ) → HoldsKey (node last).csm brake_key key_bytes
unfolding lookup
node_key last = record { stored = refl; available = refl }

pub node_resolves : (last : ℕ) → resolve_key_id setup brake brake_profile (node last) ≡ ok brake_key
unfolding resolve_key_id
node_resolves last = refl

pub node-IsReady_fd :
    (last : ℕ) → IsReady setup brake can_fd brake_profile 2 8 key_bytes last (node last)
node-IsReady_fd last = record {
  configured = node-HasProfile_fd last;
  key_id = brake_key;
  resolved = node_resolves last;
  held = node_key last;
  before = LastValid-commit_freshness brake last empty_nvm;
}

pub node-IsReady_can :
    (last : ℕ) → IsReady setup brake classic_can brake_profile 1 3 key_bytes last (node last)
node-IsReady_can last = record {
  configured = node-HasProfile_can last;
  key_id = brake_key;
  resolved = node_resolves last;
  held = node_key last;
  before = LastValid-commit_freshness brake last empty_nvm;
}
