-- ===== src/Secoc/Answers.antt =====
-- What follows from the answer of `receive_secured` in sim/secoc.py.
use sec_oc.Base.{
  ℕ, ◌+◌, ◌≤◌, ◌<◌, ◌≡◌, ◌≢◌, refl, sym, ap, ◌∙◌, String, ◌||◌, Option, none, some, ◌++◌, length,
  leb, Outcome, ok, ok-injective, str_eq, if◌then◌else◌,
}
use sec_oc.Base.Bytes.{Bytes}
use sec_oc.Bus.{publish}
use sec_oc.Freshness.{commit_freshness}
use sec_oc.Freshness.Window.{LastValid}
use sec_oc.Monitor.{get_failure_count}
use sec_oc.Monitor.Lockout.{
  get_failure_count-reject, locked_out-reject, reject-IsConsistent, IsConsistent,
}
use sec_oc.Pdu.RoundTrip.{parse_secured_pdu-IsFrame}
use sec_oc.Profile.{SecurityProfileEntry, Transport, truncation_lengths}
use sec_oc.Secoc.Objects.{Setup, Stack}
use sec_oc.Secoc.Authenticator.{resolve_key_id}
use sec_oc.Secoc.Macs.{HasProfile, truncated_mac, stack_key}
use sec_oc.Secoc.Reception.{Reception}
use sec_oc.Secoc.Receive.{receive_secured-Reception}
use sec_oc.Secoc.{receive_secured}

same_payload : {a b : Bytes} → ok (some a) ≡ ok (some b) → a ≡ b
same_payload e = cc

module _ (env : Setup) (p : String) (frame : Bytes) (t : Transport) (s : Stack) where
  -- What a rejection does: one more failure of the PDU, and of no other, the lockout at the fifth,
  -- and nothing to the memory, the bus and the profiles.
  pub record IsRejection (s' : Stack) : Type 0 where
    pub memory : s'.nvm ≡ s.nvm
    pub bus : s'.bus ≡ s.bus
    pub profiles : s'.profiles ≡ s.profiles
    pub counts :
        (q : String)
        → get_failure_count q s'.monitor ≡ (
            if str_eq p q then get_failure_count p s.monitor + 1 else get_failure_count q s.monitor)
    pub lockout :
        s'.monitor.locked_out ≡ (s.monitor.locked_out || leb 5 (get_failure_count p s.monitor + 1))
    pub consistent : IsConsistent s.monitor → IsConsistent s'.monitor

  rejected :
      {s' : Stack} {r : Outcome (Option Bytes)}
      → Reception env p frame t s s' r
      → r ≡ ok none
      → IsRejection s'
  rejected (Reception.failed cause) e = cc
  rejected (Reception.rejected {reason = reason} why) e = record {
    memory = refl;
    bus = refl;
    profiles = refl;
    counts = λ q. get_failure_count-reject p q reason s.monitor;
    lockout = locked_out-reject p reason s.monitor;
    consistent = reject-IsConsistent p reason s.monitor;
  }
  rejected (Reception.accepted split fresh found job matches) e = cc

  -- When `receive_secured` answers None, the failure count of the PDU is one higher and every other
  -- count is the same, the ECU is locked out if it was or if the count has reached five, and the
  -- memory with its freshness values, the bus and the profiles are as they were. An ECU state that
  -- agreed with the policy engine still does.
  pub receive_secured-IsRejection :
      (receive_secured env p frame t s).1 ≡ ok none
      → IsRejection (receive_secured env p frame t s).0
  receive_secured-IsRejection e = rejected (receive_secured-Reception env p frame t s) e

  -- What an acceptance of the payload `a` requires of the frame, and what it does.
  pub record IsAcceptance (n m : ℕ) (profile : SecurityProfileEntry) (a : Bytes) (s' : Stack)
      : Type 0 where
    pub key_id : String
    pub last : ℕ
    pub value : ℕ
    pub field : Bytes
    pub resolved : resolve_key_id env p profile s ≡ ok key_id
    pub layout : a ++ (field ++ truncated_mac env (stack_key env key_id s) a value n m) ≡ frame
    pub field_length : length field ≡ n
    pub before : LastValid p s.nvm last
    pub newer : last < value
    pub near : value ≤ last + env.fm.window_size
    pub memory : s'.nvm ≡ commit_freshness p value s.nvm
    pub bus : s'.bus ≡ publish p frame s.bus
    pub monitor : s'.monitor ≡ s.monitor

  module _ (profile : SecurityProfileEntry) (n m : ℕ) (c : HasProfile p t s profile n m)
      (nonempty : n + m ≢ 0) where
    accepted :
        {s' : Stack} {r : Outcome (Option Bytes)} (a : Bytes)
        → Reception env p frame t s s' r
        → r ≡ ok (some a)
        → IsAcceptance n m profile a s'
    accepted a (Reception.failed cause) e = cc
    accepted a (Reception.rejected why) e = cc
    accepted a
          (Reception.accepted {profile = q} {n = i} {m = j} {parts = parts} {last = last} {v = v}
            {key_id = key_id} split fresh found job matches)
          e =
        let same_profile : q ≡ profile = ok-injective (sym split.configured.found ∙ c.found) in
        let same_lengths : (i, j) ≡ (n, m) = ok-injective (
          sym split.configured.lengths
          ∙ ap (λ x. truncation_lengths x t) same_profile
          ∙ c.lengths) in
        let known : profile ≡ q = sym same_profile in
        let n_known : n ≡ i = ap (λ x. x.0) (sym same_lengths) in
        let m_known : m ≡ j = ap (λ x. x.1) (sym same_lengths) in
        let payload : a ≡ parts.authentic_pdu = same_payload (sym e) in
        let (field, cut) =
          parse_secured_pdu-IsFrame frame q t i j split.configured.lengths parts
            (λ z. nonempty (rw (n_known, m_known) z)) split.parsed in
        record {
          key_id = key_id;
          last = last;
          value = v;
          field = field;
          resolved = rw known found;
          layout = rw (payload, n_known, m_known, matches) cut.layout;
          field_length = cut.length_field ∙ sym n_known;
          before = fresh.before;
          newer = fresh.newer;
          near = fresh.near;
          memory = refl;
          bus = refl;
          monitor = refl;
        }

    -- If `receive_secured` accepts, for a profile whose trailer is not empty, then the frame is the
    -- payload, a field of the profile's length, and the MAC of the payload and the counter value
    -- under the key of the PDU, cut to the profile's length; the value lies above the last accepted
    -- one by no more than the window; it becomes the last accepted one, the frame is published, and
    -- no event is logged.
    pub receive_secured-IsAcceptance :
        (a : Bytes)
        → (receive_secured env p frame t s).1 ≡ ok (some a)
        → IsAcceptance n m profile a (receive_secured env p frame t s).0
    receive_secured-IsAcceptance a e = accepted a (receive_secured-Reception env p frame t s) e
