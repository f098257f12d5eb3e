-- ===== src/Api/Progress.antt =====
-- What a request does to the event memory and to the cursor of the broadcasts: it logs, and then it
-- tells the clients or it does not.
use sec_oc.Base.{ℕ, ◌≡◌, refl, ◌∙◌, String, Bool, Option, none, some}
use sec_oc.Base.{Method, Outcome, Exception, ok, raised, and_then}
use sec_oc.Base.Bytes.{Bytes}
use sec_oc.Attack.{replay}
use sec_oc.Bus.{consume}
use sec_oc.Keys.{Keyring, provision_key, rotate_key}
use sec_oc.Monitor.Events.{info}
use sec_oc.Profile
use sec_oc.Monitor.{normal_operation}
use sec_oc.Monitor.Growth.{Extends, Extends-same, Extends-trans, log_event-Extends, cleared-Extends}
use sec_oc.Profile.{SecurityProfile, Transport}
use sec_oc.Secoc
use sec_oc.Secoc.Logging.{receive_secured-Extends, transmit_secured-Extends}
use sec_oc.Secoc.Objects.{Setup, Stack}
use sec_oc.Api.State.{AppState, on_stack, on_keys, on_profiles, broadcast_updates}
use sec_oc.Api.State
use sec_oc.Api.Management
use sec_oc.Api.Management.{update_profile_version, provision, rotate}
use sec_oc.Api.Requests.{
  Request, serve, transmits, receives, sends, captures, replays, tampers, forges, updates,
  provisions, rotates, resets, runs, arrives, leaves, on_app,
}
use sec_oc.Api.Validation.{Validation, runner_of, after_run, finish_run, run_scenario}
use sec_oc.Base.Dict.{Dict}
use sec_oc.Scenarios
use sec_oc.Scenarios.{Scenario, ScenarioResult}
use sec_oc.Api.Endpoints.{
  excepting, transmit_bytes, transmit_secured, receive_bytes, receive_secured, can_send,
  replay_capture, replay_replay, receive_consumed, mitm_tamper, forge_inject, parse_hex,
  parse_transport, parse_mode,
}

-- Only the stack has changed, as far as the clients can see, and its event memory has grown.
pub record Quiet (a b : AppState) : Type 0 where
  pub logged : Extends a.stack.monitor b.stack.monitor
  pub index : b.broadcast_index ≡ a.broadcast_index
  pub manager : b.manager ≡ a.manager

Quiet-refl : (a : AppState) → Quiet a a
Quiet-refl a = record { logged = Extends-same refl; index = refl; manager = refl }

Quiet-trans : {a b c : AppState} → Quiet a b → Quiet b c → Quiet a c
Quiet-trans first second = record {
  logged = Extends-trans first.logged second.logged;
  index = second.index ∙ first.index;
  manager = second.manager ∙ first.manager;
}

-- A request that is not the websocket's.
abbrev pub IsCall : Request → Type 0
IsCall (arrives ws) = ⊥
IsCall (leaves ws) = ⊥
IsCall _ = Unit

module _ (env : Setup) (online : ℕ → ℕ → Bool) where
  pub data Progress (a : AppState) : AppState → Type 0 where
    quiet : {b : AppState} → Quiet a b → Progress a b
    told : {b : AppState} → Quiet a b → Progress a (broadcast_updates online b)

  -- A quiet step, and then the rest of the request.
  Progress-after : {a b c : AppState} → Quiet a b → Progress b c → Progress a c
  Progress-after first (quiet second) = quiet (Quiet-trans first second)
  Progress-after first (told second) = told (Quiet-trans first second)

  Progress-and_then :
      {A B : Type 0} {a : AppState} (x : AppState × Outcome A) (f : A → Method AppState B)
      → Quiet a x.0
      → ((v : A) (b : AppState) → Progress b (f v b).0)
      → Progress a (and_then x f).0
  Progress-and_then (b, ok v) f first next = Progress-after first (next v b)
  Progress-and_then (b, raised e) f first next = quiet first

  -- The same, where the first step only reads.
  Progress-read :
      {A B : Type 0} (a : AppState) (o : Outcome A) (f : A → Method AppState B)
      → ((v : A) (b : AppState) → Progress b (f v b).0)
      → Progress a (and_then (a, o) f).0
  Progress-read a o f next = Progress-and_then (a, o) f (Quiet-refl a) next

  Quiet-excepting :
      {A : Type 0} {a : AppState} (status : Exception → Exception) (x : AppState × Outcome A)
      → Quiet a x.0
      → Quiet a (excepting status x).0
  Quiet-excepting status (b, ok v) h = h
  Quiet-excepting status (b, raised e) h = h

  Quiet-on_stack :
      {A : Type 0} (call : Method Stack A) (a : AppState)
      → Extends a.stack.monitor (call a.stack).0.monitor
      → Quiet a (on_stack call a).0
  Quiet-on_stack call a h = record { logged = h; index = refl; manager = refl }

  Quiet-on_keys : {A : Type 0} (call : Method Keyring A) (a : AppState) → Quiet a (on_keys call a).0
  Quiet-on_keys call a = record { logged = Extends-same refl; index = refl; manager = refl }

  Quiet-on_profiles :
      {A : Type 0} (call : Method SecurityProfile A) (a : AppState) → Quiet a (on_profiles call a).0
  Quiet-on_profiles call a = record { logged = Extends-same refl; index = refl; manager = refl }

  transmit_bytes-Quiet :
      (p : String) (payload : Bytes) (t : Transport) (a : AppState)
      → Quiet a (transmit_bytes env online p payload t a).0
  unfolding transmit_bytes
  transmit_bytes-Quiet p payload t a = Quiet-excepting _ _ (
      Quiet-on_stack (Secoc.transmit_secured env p payload t) a
        (transmit_secured-Extends env p payload t a.stack))

  transmit_secured-Progress :
      (p h t : String) (a : AppState) → Progress a (transmit_secured env online p h t a).0
  unfolding transmit_secured
  transmit_secured-Progress p h t a = Progress-read a (parse_hex h) _ λ payload a1.
      Progress-read a1 (parse_transport t) _ λ transport a2.
        Progress-and_then (transmit_bytes env online p payload transport a2) _
          (transmit_bytes-Quiet p payload transport a2) λ secured_pdu a3. told (Quiet-refl a3)

  receive_bytes-Progress :
      (p : String) (frame : Bytes) (t : Transport) (a : AppState)
      → Progress a (receive_bytes env online p frame t a).0
  unfolding receive_bytes
  receive_bytes-Progress p frame t a =
      Progress-and_then _ _
        (Quiet-excepting _ _ (
          Quiet-on_stack (Secoc.receive_secured env p frame t) a
            (receive_secured-Extends env p frame t a.stack)))
        λ authentic_pdu a1. told (Quiet-refl a1)

  receive_secured-Progress :
      (p h t : String) (a : AppState) → Progress a (receive_secured env online p h t a).0
  unfolding receive_secured
  receive_secured-Progress p h t a = Progress-read a (parse_hex h) _ λ frame a1.
      Progress-read a1 (parse_transport t) _
        λ transport a2. receive_bytes-Progress p frame transport a2

  can_send-Progress : (p h : String) (a : AppState) → Progress a (can_send env online p h a).0
  unfolding can_send
  can_send-Progress p h a =
      Progress-read a (parse_hex h) _
        λ bytes a1. told (record { logged = Extends-same refl; index = refl; manager = refl })

  replay_capture-Progress :
      (p : String) (a : AppState) → Progress a (replay_capture env online p a).0
  unfolding replay_capture
  replay_capture-Progress p a =
      quiet (record { logged = Extends-same refl; index = refl; manager = refl })

  receive_consumed-Progress :
      (p t : String) (frame : Option (String × Bytes)) (a : AppState)
      → Progress a (receive_consumed env online p t frame a).0
  unfolding receive_consumed
  receive_consumed-Progress p t none a = quiet (Quiet-refl a)
  receive_consumed-Progress p t (some (q, secured_pdu)) a = receive_secured-Progress p _ t a

  replay_replay-Progress :
      (p t : String) (a : AppState) → Progress a (replay_replay env online p t a).0
  unfolding replay_replay
  replay_replay-Progress p t a =
      let (bus, frame) = consume (replay p a.replay_attack a.stack.bus) in
      Progress-after {b = record a { stack = record a.stack { bus = bus } }}
        (record { logged = Extends-same refl; index = refl; manager = refl })
        (receive_consumed-Progress p t frame (record a { stack = record a.stack { bus = bus } }))

  mitm_tamper-Progress :
      (p h t : String) (now : ℕ) (a : AppState) → Progress a (mitm_tamper env online p h t now a).0
  unfolding mitm_tamper
  mitm_tamper-Progress p h t now a = Progress-read a (parse_hex h) _ λ payload a1.
      Progress-read a1 (parse_transport t) _ λ transport a2.
        Progress-and_then (transmit_bytes env online p payload transport a2) _
          (transmit_bytes-Quiet p payload transport a2)
          λ secured_pdu a3. receive_secured-Progress p _ t a3

  forge_inject-Progress :
      (p m : String) (a : AppState) → Progress a (forge_inject env online p m a).0
  unfolding forge_inject
  forge_inject-Progress p m a =
      Progress-read a (parse_mode m) _ λ mode a1. receive_secured-Progress p _ _ a1

  update_profile_version-Progress :
      (p v : String) (a : AppState) → Progress a (update_profile_version env online p v a).0
  unfolding update_profile_version
  update_profile_version-Progress p v a =
      Progress-and_then _ _
        (Quiet-excepting _ _ (Quiet-on_profiles (Profile.update_profile_version p v) a))
        λ done a1. told (Quiet-refl a1)

  provision-Progress : (p k : String) (a : AppState) → Progress a (provision env online p k a).0
  unfolding provision
  provision-Progress p k a =
      Progress-and_then _ _ (Quiet-on_keys (provision_key env.lib p k) a)
        λ metadata a1. told (Quiet-refl a1)

  rotate-Progress : (p k : String) (a : AppState) → Progress a (rotate env online p k a).0
  unfolding rotate
  rotate-Progress p k a =
      Progress-and_then _ _ (Quiet-excepting _ _ (Quiet-on_keys (rotate_key env.lib p k) a))
        λ metadata a1. told (record {
          logged = log_event-Extends info "KEY_ROTATED" "SR-17" a1.stack.monitor;
          index = refl;
          manager = refl;
        })

  reset_ecu-Progress : (a : AppState) → Progress a (Management.reset_ecu env online a).0
  unfolding Management.reset_ecu State.reset_ecu
  reset_ecu-Progress a = told (record {
    logged =
        Extends-trans (cleared-Extends normal_operation a.stack.monitor)
          (log_event-Extends info "ECU_RESET" "SecOC-RESET" _);
    index = refl;
    manager = refl;
  })

  finish_run-Progress :
      {F : Type 0} {a : AppState} (v : Validation F) (ran : Outcome ScenarioResult)
      → Quiet a v.app
      → Progress a (finish_run online v ran).0.app
  unfolding finish_run
  finish_run-Progress v (ok result) first = told first
  finish_run-Progress v (raised e) first = quiet first

  module _ {F : Type 0} (scenarios : Dict (Scenario F)) where
    run_scenario-Progress :
        (vtc : String) (v : Validation F)
        → Progress v.app (run_scenario online scenarios vtc v).0.app
    unfolding run_scenario after_run
    run_scenario-Progress vtc v =
        let (r, ran) = Scenarios.run_scenario scenarios vtc (runner_of v) in
        finish_run-Progress (after_run r v) ran
          (record { logged = Extends-same refl; index = refl; manager = refl })

    -- Every request but the two of a websocket logs and then tells the clients, or only logs.
    pub serve-Progress :
        (r : Request) (v : Validation F)
        → IsCall r
        → Progress v.app (serve env online scenarios r v).app
    unfolding serve on_app
    serve-Progress (transmits p h t) v call = transmit_secured-Progress p h t v.app
    serve-Progress (receives p h t) v call = receive_secured-Progress p h t v.app
    serve-Progress (sends p h) v call = can_send-Progress p h v.app
    serve-Progress (captures p) v call = replay_capture-Progress p v.app
    serve-Progress (replays p t) v call = replay_replay-Progress p t v.app
    serve-Progress (tampers p h t now) v call = mitm_tamper-Progress p h t now v.app
    serve-Progress (forges p m) v call = forge_inject-Progress p m v.app
    serve-Progress (updates p w) v call = update_profile_version-Progress p w v.app
    serve-Progress (provisions p k) v call = provision-Progress p k v.app
    serve-Progress (rotates p k) v call = rotate-Progress p k v.app
    serve-Progress resets v call = reset_ecu-Progress v.app
    serve-Progress (runs vtc) v call = run_scenario-Progress vtc v
    serve-Progress (arrives ws) v call = absurd call
    serve-Progress (leaves ws) v call = absurd call
