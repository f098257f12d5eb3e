-- ===== src/Secoc/Logging.antt =====
-- The event memory of a node only grows: what the calls of sim/secoc.py add to it.
use sec_oc.Base.{ℕ, ◌+◌, refl, String, Option, ltb, ◌&&◌, Bool-cases, inl, inr}
use sec_oc.Base.{Method, Outcome, ok, raised, and_then}
use sec_oc.Base.Bytes.{Bytes}
use sec_oc.Monitor.{Monitor}
use sec_oc.Monitor.Events.{warning}
use sec_oc.Monitor.Growth.{Extends, Extends-same, Extends-trans, log_event-Extends, reject-Extends}
use sec_oc.Profile.{Transport, get_profile}
use sec_oc.Secoc.Authenticator.{generate_mac, full_mac, check_budget, mac_input}
use sec_oc.Secoc.Objects.{Setup, Stack}
use sec_oc.Secoc.Receive.{receive_secured-Reception}
use sec_oc.Secoc.Reception.{Reception}
use sec_oc.Secoc.{transmit_secured, receive_secured, fit_payload}

module _ (env : Setup) where
  pub receive_secured-Extends :
      (p : String) (frame : Bytes) (t : Transport) (s : Stack)
      → Extends s.monitor (receive_secured env p frame t s).0.monitor
  receive_secured-Extends p frame t s =
      reception-Extends (receive_secured-Reception env p frame t s)
    where
      reception-Extends :
          {s' : Stack} {r : Outcome (Option Bytes)}
          → Reception env p frame t s s' r
          → Extends s.monitor s'.monitor
      reception-Extends (Reception.failed cause) = Extends-same refl
      reception-Extends (Reception.rejected {reason = reason} why) =
          reject-Extends p reason s.monitor
      reception-Extends (Reception.accepted split fresh found job matches) = Extends-same refl

  -- The rule for the next call of a method.
  pub and_then-Extends :
      {A B : Type 0} (m : Monitor) (x : Stack × Outcome A) (f : A → Method Stack B)
      → Extends m x.0.monitor
      → ((a : A) (s : Stack) → Extends s.monitor (f a s).0.monitor)
      → Extends m (and_then x f).0.monitor
  and_then-Extends m (s, ok a) f first next = Extends-trans first (next a s)
  and_then-Extends m (s, raised e) f first next = first

  full_mac-Extends :
      (key_id : String) (message : Bytes) (s : Stack)
      → Extends s.monitor (full_mac env key_id message s).0.monitor
  unfolding full_mac
  full_mac-Extends key_id message s = Extends-same refl

  check_budget-Extends : (seq : ℕ) (s : Stack) → Extends s.monitor (check_budget env seq s).monitor
  unfolding check_budget
  check_budget-Extends seq s =
      elim (Bool-cases (ltb 5000 (env.elapsed_us seq) && env.has_event_logger)) [
        | inl late ↦ rw late (log_event-Extends warning "WCET_EXCEEDED" "SW-SecOC-08" s.monitor)
        | inr fine ↦ rw fine (Extends-same refl)
      ]

  generate_mac-Extends :
      (p : String) (a : Bytes) (v : ℕ) (t : Transport) (s : Stack)
      → Extends s.monitor (generate_mac env p a v t s).0.monitor
  unfolding generate_mac
  generate_mac-Extends p a v t s =
      and_then-Extends s.monitor (s, mac_input env p a v t s) _ (Extends-same refl)
        λ (key_id, message, mac_len) s1.
          and_then-Extends s1.monitor
            (full_mac env key_id message (record s1 { op_seq = s1.op_seq + 1 })) _
            (full_mac-Extends key_id message (record s1 { op_seq = s1.op_seq + 1 }))
            λ full s2. check_budget-Extends s1.op_seq s2

  pub transmit_secured-Extends :
      (p : String) (a : Bytes) (t : Transport) (s : Stack)
      → Extends s.monitor (transmit_secured env p a t s).0.monitor
  unfolding transmit_secured
  transmit_secured-Extends p a t s =
      and_then-Extends s.monitor (s, get_profile p s.profiles) _ (Extends-same refl)
        λ profile s1.
          and_then-Extends s1.monitor (s1, fit_payload t a) _ (Extends-same refl)
            λ payload s2. and_then-Extends s2.monitor _ _ (Extends-same refl) λ last s3.
              and_then-Extends s3.monitor (generate_mac env p payload (last + 1) t s3) _
                (generate_mac-Extends p payload (last + 1) t s3) λ mac s4. Extends-same refl
