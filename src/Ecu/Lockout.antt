-- ===== src/Ecu/Lockout.antt =====
-- How repeated failures end at a receiving ECU of sim/receiver_ecu.py.
use mathlib.Core.Path.{subst}
use sec_oc.Base.{
  ◌≡◌, ◌≤◌, refl, sym, ap, ◌∙◌, String, true, false, Option, none, some, List, arith, Outcome, ok,
  raised, and_then, within,
}
use sec_oc.Base.Bytes.{Bytes}
use sec_oc.Monitor.{get_failure_count, normal_operation, security_violation_lockout}
use sec_oc.Monitor.Lockout.{IsConsistent, locked-IsConsistent}
use sec_oc.Profile.{can_fd, is_in}
use sec_oc.Secoc.{receive_secured}
use sec_oc.Secoc.Objects.{Setup, Stack}
use sec_oc.Secoc.Answers.{IsRejection, receive_secured-IsRejection}
use sec_oc.Ecu.{ReceiverEcu, state, is_normal, count_rejected, finish_frame, on_frame_received}
use sec_oc.Ecu.Receiving.{on_frame_up, receive_frames, receive_frames_locked}

module _ (env : Setup) {H : Type 0} (p : String) (frame : Bytes) (ecu : ReceiverEcu H) where
  dropped_answer :
      (x : Stack × Outcome (Option Bytes))
      → (and_then
          (within (λ stack. record ecu { base = record ecu.base { secoc = stack } }) x)
          (finish_frame p)).1
        ≡ ok false
      → (x.1 ≡ ok none)
        × ((and_then
              (within (λ stack. record ecu { base = record ecu.base { secoc = stack } }) x)
              (finish_frame p)).0.base.secoc
            ≡ x.0)
  unfolding finish_frame count_rejected
  dropped_answer (stack, raised e) h = cc
  dropped_answer (stack, ok none) h = (refl, refl)
  dropped_answer (stack, ok (some a)) h = cc

  answer_dropped :
      (x : Stack × Outcome (Option Bytes))
      → x.1 ≡ ok none
      → (and_then
          (within (λ stack. record ecu { base = record ecu.base { secoc = stack } }) x)
          (finish_frame p)).1
        ≡ ok false
  unfolding finish_frame count_rejected
  answer_dropped (stack, raised e) h = cc
  answer_dropped (stack, ok none) h = refl
  answer_dropped (stack, ok (some a)) h = cc

  -- In normal operation a frame that the node refuses is dropped.
  pub dropped_none :
      is_in p ecu.managed_pdu_ids ≡ true
      → ecu.base.secoc.monitor.ecu_state ≡ normal_operation
      → (receive_secured env p frame can_fd ecu.base.secoc).1 ≡ ok none
      → (on_frame_received env p frame ecu).1 ≡ ok false
  unfolding state is_normal
  dropped_none managed normal e =
      ap (λ x. x.1) (on_frame_up p env frame ecu managed (ap is_normal normal))
      ∙ answer_dropped (receive_secured env p frame can_fd ecu.base.secoc) e

  dropped_node :
      is_in p ecu.managed_pdu_ids ≡ true
      → ecu.base.secoc.monitor.ecu_state ≡ normal_operation
      → (on_frame_received env p frame ecu).1 ≡ ok false
      → IsRejection env p frame can_fd ecu.base.secoc
          (on_frame_received env p frame ecu).0.base.secoc
  unfolding state is_normal
  dropped_node managed normal e =
      let up = on_frame_up p env frame ecu managed (ap is_normal normal) in
      let (answer, node) =
        dropped_answer (receive_secured env p frame can_fd ecu.base.secoc)
          (ap (λ x. x.1) (sym up) ∙ e) in
      subst (IsRejection env p frame can_fd ecu.base.secoc)
        (sym node ∙ ap (λ x. x.0.base.secoc) (sym up))
        (receive_secured-IsRejection env p frame can_fd ecu.base.secoc answer)

  -- A receiving ECU in normal operation, whose state agrees with its policy engine, that drops a
  -- frame of a managed PDU with four recorded failures or more is locked out, and from then on no
  -- frame of any PDU changes its node or reaches a handler.
  pub fifth_failure_locks :
      (later : List (String × Bytes))
      → is_in p ecu.managed_pdu_ids ≡ true
      → ecu.base.secoc.monitor.ecu_state ≡ normal_operation
      → IsConsistent ecu.base.secoc.monitor
      → 4 ≤ get_failure_count p ecu.base.secoc.monitor
      → (on_frame_received env p frame ecu).1 ≡ ok false
      → let ecu' = (on_frame_received env p frame ecu).0 in
        (state ecu'.base ≡ security_violation_lockout)
        × ((receive_frames env later ecu').base ≡ ecu'.base)
        × ((receive_frames env later ecu').calls ≡ ecu'.calls)
  unfolding state
  fifth_failure_locks later managed normal agrees many e =
      let rejection = dropped_node managed normal e in
      let ecu' = (on_frame_received env p frame ecu).0 in
      let full : ecu'.base.secoc.monitor.locked_out ≡ true = ground (arith, rejection.lockout) in
      let locked = locked-IsConsistent ecu'.base.secoc.monitor (rejection.consistent agrees) full in
      let (base, calls, _) = receive_frames_locked env later ecu' locked in (locked, base, calls)
