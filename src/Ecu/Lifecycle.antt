-- ===== src/Ecu/Lifecycle.antt =====
-- The lifecycle of an ECU of sim/ecu_base.py, and its place in the router.
use sec_oc.Base.{
  ◌≡◌, inl, inr, refl, ◌∙◌, Bool, true, false, List, [], ◌∷◌, Bool-cases, if◌then◌else◌,
}
use sec_oc.Bus.Router.{is_registered, is_registered-register_ecu, is_registered-deregister_ecu}
use sec_oc.Ecu.{EcuBase, on_startup, on_reset, shutdown, register}

-- An ECU runs exactly while the router knows it.
abbrev pub IsAttached : EcuBase → Type 0
IsAttached ecu = is_registered ecu.ecu_id ecu.pdu_router ≡ ecu.running

-- The calls of the lifecycle.
pub data Call : Type 0 where
  startup : Call
  reset : Call
  shut_down : Call

pub call : Call → EcuBase → EcuBase
call startup ecu = (on_startup ecu).0
call reset ecu = on_reset ecu
call shut_down ecu = shutdown ecu

pub call_all : List Call → EcuBase → EcuBase
call_all [] ecu = ecu
call_all (c ∷ calls) ecu = call_all calls (call c ecu)

register-IsAttached : (ecu : EcuBase) → IsAttached (register ecu)
unfolding register
register-IsAttached ecu = is_registered-register_ecu ecu.ecu_id ecu.ecu_id ecu.pdu_router

reset_kept :
    (ecu : EcuBase) (b : Bool)
    → ecu.running ≡ b
    → IsAttached ecu
    → IsAttached (if b then ecu else register ecu)
reset_kept ecu true r h = h
reset_kept ecu false r h = register-IsAttached ecu

step-IsAttached : (c : Call) (ecu : EcuBase) → IsAttached ecu → IsAttached (call c ecu)
unfolding call on_startup on_reset shutdown
step-IsAttached startup ecu h = elim (Bool-cases ecu.running) [
  | inl r ↦ rw r (h ∙ r)
  | inr r ↦ rw r (register-IsAttached ecu)
]
step-IsAttached reset ecu h = reset_kept (record ecu { secoc = _ }) ecu.running refl h
step-IsAttached shut_down ecu h = is_registered-deregister_ecu ecu.ecu_id ecu.pdu_router

-- Through any sequence of startups, resets and shutdowns, a startup of a running ECU that raises
-- among them, an ECU that ran exactly when it was registered with the router still does.
pub call_all-IsAttached :
    (calls : List Call) (ecu : EcuBase) → IsAttached ecu → IsAttached (call_all calls ecu)
unfolding call_all
call_all-IsAttached [] ecu h = h
call_all-IsAttached (c ∷ calls) ecu h =
    call_all-IsAttached calls (call c ecu) (step-IsAttached c ecu h)
