-- ===== src/Ecu/Receiving.antt =====
-- What a receiving ECU of sim/receiver_ecu.py does with the frames that it gets.
use sec_oc.Base.{
  ℕ, ◌+◌, ◌≡◌, inl, inr, refl, sym, ap, ◌∙◌, String, Bool, true, false, Option, none, some, List,
  [], ◌∷◌, arith, eq_iff, Bool-cases, if◌then◌else◌,
}
use sec_oc.Base.{Outcome, ok, raised, ok-injective, and_then, within}
use sec_oc.Base.Bytes.{Bytes}
use sec_oc.Base.Dict.{Dict, get_or, lookup, get_or-insert}
use sec_oc.Monitor.{security_violation_lockout}
use sec_oc.Profile.{can_fd, is_in}
use sec_oc.Secoc.{receive_secured}
use sec_oc.Secoc.Objects.{Setup, Stack}
use sec_oc.Secoc.Answers.{receive_secured-IsRejection}
use sec_oc.Ecu.{
  ReceiverEcu, state, is_normal, increment, count_rejected, notify, finish_frame, on_frame_received,
}

pub get_or-increment :
    (p : String) (counts : Dict ℕ) → get_or p 0 (increment p counts) ≡ get_or p 0 counts + 1
unfolding increment
get_or-increment p counts =
    ground (arith, get_or-insert p p (get_or p 0 counts + 1) 0 counts, eq_iff p p)

module _ {H : Type 0} (p : String) where
  -- What a frame that was handled has changed: one of the two counts, by one, and if the frame was
  -- dropped neither the memory nor the application.
  pub record IsHandled (ecu ecu' : ReceiverEcu H) (delivered : Bool) : Type 0 where
    pub accepted :
        get_or p 0 ecu'.rx_accepted_count
        ≡ get_or p 0 ecu.rx_accepted_count + (if delivered then 1 else 0)
    pub rejected :
        get_or p 0 ecu'.rx_rejected_count
        ≡ get_or p 0 ecu.rx_rejected_count + (if delivered then 0 else 1)
    pub memory : delivered ≡ false → ecu'.base.secoc.nvm ≡ ecu.base.secoc.nvm
    pub quiet : delivered ≡ false → ecu'.calls ≡ ecu.calls

  count_rejected-IsHandled :
      (ecu : ReceiverEcu H) (stack : Stack) {d : Bool}
      → stack.nvm ≡ ecu.base.secoc.nvm
      → (count_rejected p (record ecu { base = record ecu.base { secoc = stack } })).1 ≡ ok d
      → IsHandled ecu
          (count_rejected p (record ecu { base = record ecu.base { secoc = stack } })).0
          d
  unfolding count_rejected
  count_rejected-IsHandled ecu stack {d} same e =
      let dropped : d ≡ false = ok-injective (sym e) in
      record {
        accepted = rw dropped (omega arith);
        rejected = rw dropped (get_or-increment p ecu.rx_rejected_count);
        memory = λ _. same;
        quiet = λ _. refl;
      }

  notify_kept :
      (h : Option H) (a : Bytes) (ecu : ReceiverEcu H)
      → ((notify h p a ecu).rx_accepted_count ≡ ecu.rx_accepted_count)
        × ((notify h p a ecu).rx_rejected_count ≡ ecu.rx_rejected_count)
  unfolding notify
  notify_kept none a ecu = (refl, refl)
  notify_kept (some handler) a ecu = (refl, refl)

  finish_frame-IsHandled :
      (ecu : ReceiverEcu H) (stack : Stack) (answer : Option Bytes) {d : Bool}
      → (answer ≡ none → stack.nvm ≡ ecu.base.secoc.nvm)
      → (finish_frame p answer (record ecu { base = record ecu.base { secoc = stack } })).1 ≡ ok d
      → IsHandled ecu
          (finish_frame p answer (record ecu { base = record ecu.base { secoc = stack } })).0
          d
  unfolding finish_frame
  finish_frame-IsHandled ecu stack none same e = count_rejected-IsHandled ecu stack (same refl) e
  finish_frame-IsHandled ecu stack (some a) {d} same e =
      let counted = record ecu {
        base = record ecu.base { secoc = stack };
        rx_accepted_count = increment p ecu.rx_accepted_count;
      } in
      let delivered : d ≡ true = ok-injective (sym e) in
      let kept = notify_kept (lookup p ecu.signal_handlers) a counted in
      record {
        accepted = rw delivered (ap (get_or p 0) kept.0 ∙ get_or-increment p ecu.rx_accepted_count);
        rejected = rw delivered (ap (get_or p 0) kept.1 ∙ omega arith);
        memory = λ f. cc;
        quiet = λ f. cc;
      }

  module _ (env : Setup) (frame : Bytes) (ecu : ReceiverEcu H) where
    finish_answer :
        (x : Stack × Outcome (Option Bytes)) {d : Bool}
        → (x.1 ≡ ok none → x.0.nvm ≡ ecu.base.secoc.nvm)
        → (and_then
            (within (λ stack. record ecu { base = record ecu.base { secoc = stack } }) x)
            (finish_frame p)).1
          ≡ ok d
        → IsHandled ecu
            (and_then
              (within (λ stack. record ecu { base = record ecu.base { secoc = stack } }) x)
              (finish_frame p)).0
            d
    finish_answer (stack, raised e) same h = cc
    finish_answer (stack, ok answer) same h =
        finish_frame-IsHandled ecu stack answer (λ e. same (ap ok e)) h

    pub on_frame_up :
        is_in p ecu.managed_pdu_ids ≡ true
        → is_normal (state ecu.base) ≡ true
        → on_frame_received env p frame ecu
          ≡ and_then
              (within
                (λ stack. record ecu { base = record ecu.base { secoc = stack } })
                (receive_secured env p frame can_fd ecu.base.secoc))
              (finish_frame p)
    unfolding on_frame_received
    on_frame_up managed up = rw (managed, up)

    on_frame_down :
        is_in p ecu.managed_pdu_ids ≡ true
        → is_normal (state ecu.base) ≡ false
        → on_frame_received env p frame ecu ≡ count_rejected p ecu
    unfolding on_frame_received
    on_frame_down managed down = rw (managed, down)

    -- For a PDU that the ECU manages, a call of `on_frame_received` that returns adds one to exactly
    -- one of the two counts of the PDU, to the accepted one when it returns True, and when it
    -- returns False it has left the memory alone and has called no handler.
    pub on_frame_received-IsHandled :
        (delivered : Bool)
        → is_in p ecu.managed_pdu_ids ≡ true
        → (on_frame_received env p frame ecu).1 ≡ ok delivered
        → IsHandled ecu (on_frame_received env p frame ecu).0 delivered
    on_frame_received-IsHandled delivered managed e =
        elim (Bool-cases (is_normal (state ecu.base))) [
          | inl up ↦
              let same = on_frame_up managed up in
              rw same (
                finish_answer (receive_secured env p frame can_fd ecu.base.secoc)
                  (λ r. (receive_secured-IsRejection env p frame can_fd ecu.base.secoc r).memory)
                  (ap (λ x. x.1) (sym same) ∙ e))
          | inr down ↦
              let same = on_frame_down managed down in
              rw same
                (count_rejected-IsHandled ecu ecu.base.secoc refl (ap (λ x. x.1) (sym same) ∙ e))
        ]

module _ (env : Setup) {H : Type 0} where
  pub dropped_locked :
      (p : String) (frame : Bytes) (ecu : ReceiverEcu H)
      → ecu.base.secoc.monitor.ecu_state ≡ security_violation_lockout
      → (on_frame_received env p frame ecu).1 ≡ ok false
  unfolding on_frame_received state is_normal count_rejected
  dropped_locked p frame ecu locked = elim (Bool-cases (is_in p ecu.managed_pdu_ids)) [
    | inl managed ↦ rw (managed, locked)
    | inr unmanaged ↦ rw unmanaged
  ]

  -- Frames that arrive one after the other.
  pub receive_frames : List (String × Bytes) → ReceiverEcu H → ReceiverEcu H
  receive_frames [] ecu = ecu
  receive_frames ((p, frame) ∷ frames) ecu =
      receive_frames frames (on_frame_received env p frame ecu).0

  locked_step :
      (p : String) (frame : Bytes) (ecu : ReceiverEcu H)
      → ecu.base.secoc.monitor.ecu_state ≡ security_violation_lockout
      → ((on_frame_received env p frame ecu).0.base ≡ ecu.base)
        × ((on_frame_received env p frame ecu).0.calls ≡ ecu.calls)
        × ((on_frame_received env p frame ecu).0.rx_accepted_count ≡ ecu.rx_accepted_count)
  unfolding on_frame_received state is_normal count_rejected
  locked_step p frame ecu locked = elim (Bool-cases (is_in p ecu.managed_pdu_ids)) [
    | inl managed ↦ rw (managed, locked) (refl, refl, refl)
    | inr unmanaged ↦ rw unmanaged (refl, refl, refl)
  ]

  -- In the lockout a receiving ECU stays as it is whatever arrives: no frame reaches its SecOC node,
  -- none is counted as accepted, no handler is called, and the lockout holds.
  pub receive_frames_locked :
      (frames : List (String × Bytes)) (ecu : ReceiverEcu H)
      → ecu.base.secoc.monitor.ecu_state ≡ security_violation_lockout
      → ((receive_frames frames ecu).base ≡ ecu.base)
        × ((receive_frames frames ecu).calls ≡ ecu.calls)
        × ((receive_frames frames ecu).rx_accepted_count ≡ ecu.rx_accepted_count)
  unfolding receive_frames
  receive_frames_locked [] ecu locked = (refl, refl, refl)
  receive_frames_locked ((p, frame) ∷ frames) ecu locked =
      let (base, calls, counts) = locked_step p frame ecu locked in
      let (base', calls', counts') =
        receive_frames_locked frames (on_frame_received env p frame ecu).0
          (ap (λ b. b.secoc.monitor.ecu_state) base ∙ locked) in
      (base' ∙ base, calls' ∙ calls, counts' ∙ counts)
