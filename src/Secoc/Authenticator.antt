-- ===== src/Secoc/Authenticator.antt =====
-- sim/authenticator.py: MACs over the payload and the truncated freshness value.
use sec_oc.Base.{ℕ, ◌+◌, String, Bool, ◌&&◌, ltb, if◌then◌else◌, ◌++◌, take}
use sec_oc.Base.{Method, Outcome, ok, and_then, within, ◌>>=◌}
use sec_oc.Base.Bytes.{Bytes, bytes_eq}
use sec_oc.Config.{mac_wcet_budget_us}
use sec_oc.Crypto.Csm
use sec_oc.Keys.{resolve_key}
use sec_oc.Monitor.{log_event}
use sec_oc.Monitor.Events.{warning}
use sec_oc.Pdu.{freshness_field}
use sec_oc.Profile.{SecurityProfileEntry, Transport, get_profile, truncation_lengths}
use sec_oc.Secoc.Objects.{Setup, Stack}

module _ (env : Setup) where
  -- `_resolve_key_id`
  unfoldable pub resolve_key_id : String → SecurityProfileEntry → Stack → Outcome String
  resolve_key_id pdu_id profile s =
      if env.has_key_manager then resolve_key pdu_id s.nvm else ok profile.key_id

  -- The statements that `generate_mac` and `verify_mac` begin with: the key, the bytes that the MAC
  -- covers, and the length that it is cut to.
  unfoldable pub mac_input : String → Bytes → ℕ → Transport → Stack → Outcome (String × Bytes × ℕ)
  unfolding resolve_key_id
  mac_input pdu_id authentic_pdu freshness_value transport s = do
    profile ← get_profile pdu_id s.profiles
    key_id ← resolve_key_id pdu_id profile s
    (fresh_len, mac_len) ← truncation_lengths profile transport
    field ← freshness_field freshness_value fresh_len
    ok (key_id, authentic_pdu ++ field, mac_len)

  -- `generate_mac` of the crypto interface.
  unfoldable pub full_mac : String → Bytes → Method Stack Bytes
  full_mac key_id message s =
      within (λ csm. record s { csm = csm }) (Csm.generate_mac env.lib key_id message s.csm)

  -- The warning for a MAC that took too long; `seq` is the number of the operation.
  unfoldable pub check_budget : ℕ → Stack → Stack
  check_budget seq s =
      if ltb mac_wcet_budget_us (env.elapsed_us seq) && env.has_event_logger
      then record s { monitor = log_event warning "WCET_EXCEEDED" "SW-SecOC-08" s.monitor }
      else s

  -- `generate_mac`
  unfoldable pub generate_mac : String → Bytes → ℕ → Transport → Method Stack Bytes
  unfolding mac_input full_mac check_budget
  generate_mac pdu_id authentic_pdu freshness_value transport s =
      and_then (s, mac_input pdu_id authentic_pdu freshness_value transport s)
        λ (key_id, message, mac_len) s'.
          and_then (full_mac key_id message (record s' { op_seq = s'.op_seq + 1 }))
            λ full s''. (check_budget s'.op_seq s'', ok (take mac_len full))

  -- `verify_mac`
  unfoldable pub verify_mac : String → Bytes → ℕ → Bytes → Transport → Method Stack Bool
  unfolding mac_input full_mac
  verify_mac pdu_id authentic_pdu freshness_value mac transport s =
      and_then (s, mac_input pdu_id authentic_pdu freshness_value transport s)
        λ (key_id, message, mac_len) s'.
          and_then (full_mac key_id message s')
            λ full s''. (s'', ok (bytes_eq (take mac_len full) mac))
