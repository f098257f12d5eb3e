-- ===== src/Secoc/Delivery.antt =====
-- The way of a frame through `receive_secured` of sim/secoc.py, where it is accepted or stale.
use sec_oc.Base.{ℕ, ◌+◌, ◌<◌, ◌≡◌, sym, ap, ◌∙◌, String, some}
use sec_oc.Base.{ok}
use sec_oc.Base.Bytes.{Bytes, modulus, bytes_eq, bytes_eq_iff}
use sec_oc.Bus.{publish}
use sec_oc.Crypto.Csm.{finished}
use sec_oc.Crypto.Macs.{HoldsKey}
use sec_oc.Monitor.Events.{freshness_out_of_window}
use sec_oc.Freshness.{commit_freshness, in_window, reconstruct}
use sec_oc.Freshness.Window.{LastValid, validate_freshness_lem, in_window_iff, in_window-false}
use sec_oc.Pdu.{Parts}
use sec_oc.Profile.{SecurityProfileEntry, Transport}
use sec_oc.Secoc.Objects.{Setup, Stack}
use sec_oc.Secoc.Authenticator.{resolve_key_id}
use sec_oc.Secoc.Macs.{truncated_mac, verify_mac_held}
use sec_oc.Secoc.Reception.{Splits, IsFresh}
use sec_oc.Secoc.{reject, accept, check_mac, check_parts, receive_secured}

-- The way of a frame through `receive_secured`, where the key of the PDU is in place.
module _ (env : Setup) (p : String) (frame : Bytes) (t : Transport) (s : Stack)
    (profile : SecurityProfileEntry) (n m : ℕ) (parts : Parts) (last : ℕ)
    (split : Splits env p frame t s profile n m parts) (before : LastValid p s.nvm last) where
  abbrev rebuilt : ℕ
  rebuilt = reconstruct (modulus env.fm.freshness_length) last parts.freshness_value

  receive_secured-parsed :
      receive_secured env p frame t s
      ≡ check_mac env p frame t parts (in_window env.fm.window_size last rebuilt) s
  unfolding receive_secured check_parts
  receive_secured-parsed = rw (
    split.configured.found,
    split.parsed,
    validate_freshness_lem env.fm p s.nvm last parts.freshness_value before,
  )

  pub receive_secured-stale :
      last + env.fm.window_size < rebuilt
      → receive_secured env p frame t s ≡ reject p freshness_out_of_window s
  unfolding check_mac
  receive_secured-stale far =
      receive_secured-parsed
      ∙ ap (λ w. check_mac env p frame t parts w s)
          (in_window-false env.fm.window_size last rebuilt far)

  module _ (v : ℕ) (key_id : String) (key : Bytes) (fresh : IsFresh env p frame t s parts last v)
      (resolved : resolve_key_id env p profile s ≡ ok key_id)
      (held : HoldsKey s.csm key_id key) where
    receive_secured-fresh :
        receive_secured env p frame t s
        ≡ accept p frame parts.authentic_pdu v
            (bytes_eq (truncated_mac env key parts.authentic_pdu v n m) parts.mac)
            (record s { csm = record s.csm { state = finished } })
    unfolding check_mac
    receive_secured-fresh =
        receive_secured-parsed
        ∙ ap (λ w. check_mac env p frame t parts w s)
            ((in_window_iff env.fm.window_size last rebuilt v).1
              (sym fresh.rebuilt, fresh.newer, fresh.near))
        ∙ rw (
            verify_mac_held env p t profile n m s key_id key parts.authentic_pdu v parts.mac
              split.configured resolved held)

    pub receive_secured-accepts :
        truncated_mac env key parts.authentic_pdu v n m ≡ parts.mac
        → receive_secured env p frame t s ≡ (
          record s {
            csm = record s.csm { state = finished };
            nvm = commit_freshness p v s.nvm;
            bus = publish p frame s.bus;
          },
          ok (some parts.authentic_pdu),
        )
    unfolding accept
    receive_secured-accepts matches =
        receive_secured-fresh
        ∙ rw ((bytes_eq_iff (truncated_mac env key parts.authentic_pdu v n m) parts.mac).1 matches)
