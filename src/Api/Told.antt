-- ===== src/Api/Told.antt =====
-- Every diagnostic event reaches every client that stays: the cursor of `new_dem_events` in
-- api/state.py against the broadcasts of api/events.py, over any sequence of requests.
use sec_oc.Base.{
  ℕ, zero, suc, ◌≤◌, ◌≡◌, ◌≢◌, refl, sym, ap, ◌∙◌, Bool, true, List, [], ◌∷◌, ◌++◌, arith,
  append_assoc, length, take, drop, take-append-drop, length-append,
}
use sec_oc.Monitor.Events.{DemEvent}
use sec_oc.Secoc.Objects.{Setup}
use sec_oc.Api.Sockets.{
  ConnectionManager, ecu_state, connect, disconnect, broadcast, broadcast_each,
}
use sec_oc.Api.State.{AppState, broadcast_updates, get_status}
use sec_oc.Api.Clients.{
  occurrences, seen, seen-broadcast_each, seen-broadcast_state, occurrences-broadcast,
  occurrences-broadcast_each, occurrences-connect, occurrences-remove,
}
use sec_oc.Api.Progress.{Quiet, Progress, quiet, told, serve-Progress}
use sec_oc.Api.Requests.{Request, serve, serve_all, arrive, leave}
use sec_oc.Api.Requests.{
  transmits, receives, sends, captures, replays, tampers, forges, updates, provisions, rotates,
  resets, runs, arrives, leaves, on_app,
}
use sec_oc.Api.Validation.{Validation}
use sec_oc.Base.Dict.{Dict}
use sec_oc.Scenarios.{Scenario}

take-append_le :
    {A : Type 0} (n : ℕ) (xs ys : List A) → n ≤ length xs → take n (xs ++ ys) ≡ take n xs
take-append_le zero xs ys h = refl
take-append_le (suc n) [] ys h = absurd (omega arith)
take-append_le (suc n) (x ∷ xs) ys h = ap (λ zs. x ∷ zs) (take-append_le n xs ys (omega arith))

take_all : {A : Type 0} (xs : List A) → take (length xs) xs ≡ xs
take_all [] = refl
take_all (x ∷ xs) = ap (λ zs. x ∷ zs) (take_all xs)

abbrev events : AppState → List DemEvent
events a = a.stack.monitor.dem.events

-- The client `ws` is connected once, and with the events `earlier` it has been sent the events up
-- to the cursor, each once and in order.
pub record IsTold (ws : ℕ) (earlier : List DemEvent) (a : AppState) : Type 0 where
  pub once : occurrences ws a.manager.connections ≡ 1
  pub bounded : a.broadcast_index ≤ length (events a)
  pub in_order : earlier ++ seen ws a.manager ≡ take a.broadcast_index (events a)

-- The request is not of the websocket of `ws`.
abbrev pub Leaves : ℕ → Request → Type 0
Leaves ws (arrives v) = v ≢ ws
Leaves ws (leaves v) = v ≢ ws
Leaves ws _ = Unit

abbrev pub AllLeave : ℕ → List Request → Type 0
AllLeave ws [] = Unit
AllLeave ws (r ∷ requests) = Leaves ws r × AllLeave ws requests

Quiet-IsTold :
    {ws : ℕ} {earlier : List DemEvent} {a b : AppState}
    → IsTold ws earlier a
    → Quiet a b
    → IsTold ws earlier b
Quiet-IsTold {ws} {earlier} {a} {b} t q = record {
  once = ap (λ m. occurrences ws m.connections) q.manager ∙ t.once;
  bounded =
      omega (
        arith,
        t.bounded,
        q.index,
        ap length q.logged.grown,
        length-append (events a) q.logged.more,
      );
  in_order =
      ap (λ m. earlier ++ seen ws m) q.manager
      ∙ t.in_order
      ∙ sym (take-append_le a.broadcast_index (events a) q.logged.more t.bounded)
      ∙ ap (λ zs. take a.broadcast_index zs) (sym q.logged.grown)
      ∙ ap (λ n. take n (events b)) (sym q.index);
}

module _ (env : Setup) (online : ℕ → ℕ → Bool) (ws : ℕ) (stays : (t : ℕ) → online t ws ≡ true)
    (earlier : List DemEvent) where
  broadcast_updates-IsTold :
      {a : AppState} → IsTold ws earlier a → IsTold ws earlier (broadcast_updates online a)
  unfolding broadcast_updates
  broadcast_updates-IsTold {a} t =
      let fresh = drop a.broadcast_index (events a) in
      let m = broadcast_each online fresh a.manager in
      let once = occurrences-broadcast_each online ws stays fresh a.manager ∙ t.once in
      record {
        once = occurrences-broadcast online ws stays (ecu_state _) m ∙ once;
        bounded = omega arith;
        in_order =
            ap (λ zs. earlier ++ zs)
              (seen-broadcast_state online ws stays _ m once
                ∙ seen-broadcast_each online ws stays fresh a.manager t.once)
            ∙ sym (append_assoc earlier (seen ws a.manager) fresh)
            ∙ ap (λ zs. zs ++ fresh) t.in_order
            ∙ take-append-drop a.broadcast_index (events a)
            ∙ sym (take_all (events a));
      }

  Progress-IsTold :
      {a b : AppState} → IsTold ws earlier a → Progress env online a b → IsTold ws earlier b
  Progress-IsTold t (quiet q) = Quiet-IsTold t q
  Progress-IsTold t (told q) = broadcast_updates-IsTold (Quiet-IsTold t q)

  -- A change of the manager alone that this client does not notice.
  manager-IsTold :
      {a : AppState} (m : ConnectionManager)
      → IsTold ws earlier a
      → occurrences ws m.connections ≡ occurrences ws a.manager.connections
      → seen ws m ≡ seen ws a.manager
      → IsTold ws earlier (record a { manager = m })
  manager-IsTold m t connected same = record {
    once = connected ∙ t.once;
    bounded = t.bounded;
    in_order = ap (λ zs. earlier ++ zs) same ∙ t.in_order;
  }

  arrive-IsTold :
      (v : ℕ) {a : AppState}
      → v ≢ ws
      → IsTold ws earlier a
      → IsTold ws earlier (arrive env online v a)
  unfolding arrive connect seen
  arrive-IsTold v {a} other t =
      let m = connect v a.manager in
      let here : occurrences ws m.connections ≡ occurrences ws a.manager.connections =
        occurrences-connect v ws a.manager.connections other in
      manager-IsTold (broadcast online (ecu_state (get_status a)) m) t
        (occurrences-broadcast online ws stays (ecu_state (get_status a)) m ∙ here)
        (seen-broadcast_state online ws stays (get_status a) m (here ∙ t.once))

  leave-IsTold :
      (v : ℕ) {a : AppState}
      → v ≢ ws
      → IsTold ws earlier a
      → IsTold ws earlier (leave env online v a)
  unfolding leave disconnect seen
  leave-IsTold v {a} other t =
      manager-IsTold (disconnect v a.manager) t
        (occurrences-remove v ws a.manager.connections other) refl

  module _ {F : Type 0} (scenarios : Dict (Scenario F)) where
    serve-IsTold :
        (r : Request) (v : Validation F)
        → Leaves ws r
        → IsTold ws earlier v.app
        → IsTold ws earlier (serve env online scenarios r v).app
    unfolding serve on_app
    serve-IsTold (transmits p h i) v o t =
        Progress-IsTold t (serve-Progress env online scenarios (transmits p h i) v tt)
    serve-IsTold (receives p h i) v o t =
        Progress-IsTold t (serve-Progress env online scenarios (receives p h i) v tt)
    serve-IsTold (sends p h) v o t =
        Progress-IsTold t (serve-Progress env online scenarios (sends p h) v tt)
    serve-IsTold (captures p) v o t =
        Progress-IsTold t (serve-Progress env online scenarios (captures p) v tt)
    serve-IsTold (replays p i) v o t =
        Progress-IsTold t (serve-Progress env online scenarios (replays p i) v tt)
    serve-IsTold (tampers p h i now) v o t =
        Progress-IsTold t (serve-Progress env online scenarios (tampers p h i now) v tt)
    serve-IsTold (forges p m) v o t =
        Progress-IsTold t (serve-Progress env online scenarios (forges p m) v tt)
    serve-IsTold (updates p w) v o t =
        Progress-IsTold t (serve-Progress env online scenarios (updates p w) v tt)
    serve-IsTold (provisions p k) v o t =
        Progress-IsTold t (serve-Progress env online scenarios (provisions p k) v tt)
    serve-IsTold (rotates p k) v o t =
        Progress-IsTold t (serve-Progress env online scenarios (rotates p k) v tt)
    serve-IsTold (resets) v o t =
        Progress-IsTold t (serve-Progress env online scenarios (resets) v tt)
    serve-IsTold (runs vtc) v o t =
        Progress-IsTold t (serve-Progress env online scenarios (runs vtc) v tt)
    serve-IsTold (arrives w) v o t = arrive-IsTold w o t
    serve-IsTold (leaves w) v o t = leave-IsTold w o t

    -- Serve any sequence of requests that change something, answered or refused, among them attacks and
    -- runs of scenarios, while other clients come, go and fail. A client that is connected once, to whom every text can be sent and who does
    -- not close or open a websocket meanwhile has then been sent, each once and in order, the events
    -- of the event memory up to the cursor of the broadcasts that came after those it had been sent
    -- before; and it is still connected.
    pub serve_all-IsTold :
        (requests : List Request) (v : Validation F)
        → AllLeave ws requests
        → IsTold ws earlier v.app
        → IsTold ws earlier (serve_all env online scenarios requests v).app
    unfolding serve_all
    serve_all-IsTold [] v others t = t
    serve_all-IsTold (r ∷ requests) v others t =
        serve_all-IsTold requests (serve env online scenarios r v) others.1
          (serve-IsTold r v others.0 t)
