-- ===== src/Secoc/Reception.antt =====
-- What a call of `receive_secured` may do, said without its control flow.
use sec_oc.Base.{
  ℕ, ◌+◌, ◌≤◌, ◌<◌, ◌≡◌, ◌≢◌, String, Option, none, some, Outcome, Exception, ok, raised,
  value_error,
}
use sec_oc.Base.Bytes.{Bytes, modulus}
use sec_oc.Bus.{publish}
use sec_oc.Base.{◌++◌, ◌%◌}
use sec_oc.Base.Bytes.{big_endian}
use sec_oc.Freshness.{load_last_valid_freshness}
use sec_oc.Nvm.Values.{as_int}
use sec_oc.Crypto.Csm.{Csm}
use sec_oc.Crypto.Macs.{Job}
use sec_oc.Freshness.{commit_freshness, reconstruct}
use sec_oc.Freshness.Window.{LastValid}
use sec_oc.Monitor.{record_failure, auth, log_rejection}
use sec_oc.Monitor.Events.{
  RejectionReason, mac_mismatch, freshness_out_of_window, malformed_structure,
}
use sec_oc.Pdu.{Parts, parse_secured_pdu}
use sec_oc.Profile.{SecurityProfileEntry, Transport, get_profile}
use sec_oc.Secoc.Objects.{Setup, Stack}
use sec_oc.Secoc.Authenticator.{resolve_key_id}
use sec_oc.Secoc.Macs.{HasProfile, truncated_mac, stack_key}

module _ (env : Setup) (p : String) (frame : Bytes) (t : Transport) (s : Stack) where
  -- The frame splits into `parts` under the profile of its PDU.
  pub record Splits (profile : SecurityProfileEntry) (n m : ℕ) (parts : Parts) : Type 0 where
    pub configured : HasProfile p t s profile n m
    pub parsed : parse_secured_pdu frame profile t ≡ ok parts

  -- `v`, the value reconstructed from the field, lies in the window above the last accepted one.
  pub record IsFresh (parts : Parts) (last v : ℕ) : Type 0 where
    pub before : LastValid p s.nvm last
    pub rebuilt : v ≡ reconstruct (modulus env.fm.freshness_length) last parts.freshness_value
    pub newer : last < v
    pub near : v ≤ last + env.fm.window_size

  -- It lies outside.
  pub record IsStale (parts : Parts) (last : ℕ) : Type 0 where
    pub before : LastValid p s.nvm last
    pub outside :
        last < reconstruct (modulus env.fm.freshness_length) last parts.freshness_value
        → last + env.fm.window_size
          < reconstruct (modulus env.fm.freshness_length) last parts.freshness_value

  -- The job that computes the MAC of a payload and a value, what it leaves and its result.
  abbrev pub MacJob : String → ℕ → Bytes → ℕ → Csm → Outcome Bytes → Type 0
  MacJob key_id n payload v = Job env.lib key_id s.csm (payload ++ big_endian n (v % modulus n))

  -- Why a frame is refused, for each of the reasons, and the crypto stack that is left: the one
  -- before, unless a MAC was computed.
  pub data Refused : RejectionReason → Csm → Type 0 where
    malformed :
        {profile : SecurityProfileEntry}
        → get_profile p s.profiles ≡ ok profile
        → parse_secured_pdu frame profile t ≡ raised value_error
        → Refused malformed_structure s.csm
    stale :
        {profile : SecurityProfileEntry} {n m : ℕ} {parts : Parts} {last : ℕ}
        → Splits profile n m parts
        → IsStale parts last
        → Refused freshness_out_of_window s.csm
    forged :
        {profile : SecurityProfileEntry} {n m : ℕ} {parts : Parts} {last v : ℕ} {key_id : String}
        {csm : Csm} {full : Bytes}
        → Splits profile n m parts
        → IsFresh parts last v
        → resolve_key_id env p profile s ≡ ok key_id
        → MacJob key_id n parts.authentic_pdu v csm (ok full)
        → truncated_mac env (stack_key env key_id s) parts.authentic_pdu v n m ≢ parts.mac
        → Refused mac_mismatch csm

  -- Why a call raises, and the crypto stack that is left: the one before, unless the job failed.
  pub data Fails : Exception → Csm → Type 0 where
    -- the PDU has no profile
    unknown_pdu : {e : Exception} → get_profile p s.profiles ≡ raised e → Fails e s.csm
    -- the profile lacks the lengths of the transport
    unusable_profile :
        {profile : SecurityProfileEntry} {e : Exception}
        → get_profile p s.profiles ≡ ok profile
        → parse_secured_pdu frame profile t ≡ raised e
        → e ≢ value_error
        → Fails e s.csm
    -- the memory holds no number for the PDU
    unreadable_counter :
        {profile : SecurityProfileEntry} {n m : ℕ} {parts : Parts} {e : Exception}
        → Splits profile n m parts
        → as_int (load_last_valid_freshness p s.nvm) ≡ raised e
        → Fails e s.csm
    -- the key manager knows no key for it
    unknown_key :
        {profile : SecurityProfileEntry} {n m : ℕ} {parts : Parts} {last v : ℕ} {e : Exception}
        → Splits profile n m parts
        → IsFresh parts last v
        → resolve_key_id env p profile s ≡ raised e
        → Fails e s.csm
    -- the MAC job fails
    failed_job :
        {profile : SecurityProfileEntry} {n m : ℕ} {parts : Parts} {last v : ℕ} {key_id : String}
        {e : Exception} {csm : Csm}
        → Splits profile n m parts
        → IsFresh parts last v
        → resolve_key_id env p profile s ≡ ok key_id
        → MacJob key_id n parts.authentic_pdu v csm (raised e)
        → Fails e csm

  -- The state and the answer that a call may end in.
  pub data Reception : Stack → Outcome (Option Bytes) → Type 0 where
    -- it raises, and nothing but the crypto stack can have changed
    failed :
        {csm : Csm} {e : Exception} → Fails e csm → Reception (record s { csm = csm }) (raised e)
    -- the failure is logged and counted
    rejected :
        {csm : Csm} {reason : RejectionReason}
        → Refused reason csm
        → Reception
            (record s {
              csm = csm;
              monitor = (record_failure p auth (log_rejection p reason s.monitor)).0;
            })
            (ok none)
    -- the value is committed and the frame published
    accepted :
        {profile : SecurityProfileEntry} {n m : ℕ} {parts : Parts} {last v : ℕ} {key_id : String}
        {csm : Csm} {full : Bytes}
        → Splits profile n m parts
        → IsFresh parts last v
        → resolve_key_id env p profile s ≡ ok key_id
        → MacJob key_id n parts.authentic_pdu v csm (ok full)
        → truncated_mac env (stack_key env key_id s) parts.authentic_pdu v n m ≡ parts.mac
        → Reception
            (record s { csm = csm; nvm = commit_freshness p v s.nvm; bus = publish p frame s.bus })
            (ok (some parts.authentic_pdu))
