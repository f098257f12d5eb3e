-- ===== src/Api/Clients.antt =====
-- What a broadcast of api/websocket.py does to the list of clients and to one client's messages.
use native.Mathlib.Numerals.{add-one}
use sec_oc.Base.{
  ℕ, ◌+◌, ◌≡◌, ◌≢◌, refl, sym, ap, ◌∙◌, Bool, true, false, inl, inr, List, [], ◌∷◌, ◌++◌, arith,
  ◌==◌, if◌then◌else◌, Bool-cases, ==_iff, append_assoc, append-nil, replicate,
}
use sec_oc.Monitor.Events.{DemEvent}
use sec_oc.Api.Sockets.{
  Payload, dem_event, ecu_state, Status, ConnectionManager, remove, remove_all, dead_of, sent_to,
  broadcast, broadcast_each,
}

-- The clients that a text can be sent to, in their order.
pub reachable : (ℕ → Bool) → List ℕ → List ℕ
reachable sends [] = []
reachable sends (ws ∷ connections) =
    let rest = reachable sends connections in if sends ws then ws ∷ rest else rest

abbrev AllReachable : (ℕ → Bool) → List ℕ → Type 0
AllReachable sends [] = Unit
AllReachable sends (ws ∷ connections) = (sends ws ≡ true) × AllReachable sends connections

AllReachable-snoc :
    (sends : ℕ → Bool) (xs : List ℕ) (ws : ℕ)
    → AllReachable sends xs
    → sends ws ≡ true
    → AllReachable sends (xs ++ ws ∷ [])
AllReachable-snoc sends [] ws all here = (here, tt)
AllReachable-snoc sends (x ∷ xs) ws all here = (all.0, AllReachable-snoc sends xs ws all.1 here)

-- Behind clients that are alive, the first occurrence of a dead one is the one that is removed.
remove_behind :
    (sends : ℕ → Bool) (ws : ℕ) (xs ys : List ℕ)
    → AllReachable sends xs
    → sends ws ≡ false
    → remove ws (xs ++ ws ∷ ys) ≡ xs ++ ys
unfolding remove
remove_behind sends ws [] ys all dead = ground arith
remove_behind sends ws (x ∷ xs) ys all dead = elim (Bool-cases (x == ws)) [
  | inl same ↦ let e : x ≡ ws = (==_iff x ws).0 same in cc (ap sends e)
  | inr other ↦ rw other (ap (λ zs. x ∷ zs) (remove_behind sends ws xs ys all.1 dead))
]

remove_all_behind :
    (sends : ℕ → Bool) (xs ys : List ℕ)
    → AllReachable sends xs
    → remove_all (dead_of sends ys) (xs ++ ys) ≡ xs ++ reachable sends ys
unfolding remove_all dead_of reachable
remove_all_behind sends xs [] all = refl
remove_all_behind sends xs (y ∷ ys) all = elim (Bool-cases (sends y)) [
  | inl alive ↦ rw alive (
      ap (remove_all (dead_of sends ys)) (sym (append_assoc xs (y ∷ []) ys))
      ∙ remove_all_behind sends (xs ++ y ∷ []) ys (AllReachable-snoc sends xs y all alive)
      ∙ append_assoc xs (y ∷ []) (reachable sends ys))
  | inr dead ↦ rw dead (
      ap (remove_all (dead_of sends ys)) (remove_behind sends y xs ys all dead)
      ∙ remove_all_behind sends xs ys all)
]

-- The removals at the end of a broadcast, one first occurrence for each failed send, leave exactly
-- the clients that the text was sent to, in their order, also where a client is connected twice.
pub remove_all-dead_of :
    (sends : ℕ → Bool) (connections : List ℕ)
    → remove_all (dead_of sends connections) connections ≡ reachable sends connections
remove_all-dead_of sends connections = remove_all_behind sends [] connections tt

-- How often a client is connected.
unfoldable pub occurrences : ℕ → List ℕ → ℕ
occurrences ws [] = 0
occurrences ws (v ∷ connections) =
    if v == ws then occurrences ws connections + 1 else occurrences ws connections

occurrences-reachable :
    (sends : ℕ → Bool) (ws : ℕ) (connections : List ℕ)
    → sends ws ≡ true
    → occurrences ws (reachable sends connections) ≡ occurrences ws connections
unfolding occurrences reachable
occurrences-reachable sends ws [] alive = refl
occurrences-reachable sends ws (v ∷ connections) alive = elim (Bool-cases (v == ws)) [
  | inl same ↦
      let e : v ≡ ws = (==_iff v ws).0 same in
      let here : sends v ≡ true = ap sends e ∙ alive in
      rw here (rw same (ap (λ n. n + 1) (occurrences-reachable sends ws connections alive)))
  | inr other ↦ elim (Bool-cases (sends v)) [
    | inl here ↦ rw here (rw other (occurrences-reachable sends ws connections alive))
    | inr gone ↦ rw gone (rw other (occurrences-reachable sends ws connections alive))
  ]
]

pub occurrences-connect :
    (v ws : ℕ) (connections : List ℕ)
    → v ≢ ws
    → occurrences ws (connections ++ v ∷ []) ≡ occurrences ws connections
unfolding occurrences
occurrences-connect v ws [] other = ground arith
occurrences-connect v ws (u ∷ connections) other =
    ground (arith, occurrences-connect v ws connections other)

pub occurrences-remove :
    (v ws : ℕ) (connections : List ℕ)
    → v ≢ ws
    → occurrences ws (remove v connections) ≡ occurrences ws connections
unfolding occurrences remove
occurrences-remove v ws [] other = refl
occurrences-remove v ws (u ∷ connections) other =
    ground (arith, occurrences-remove v ws connections other)

-- The payloads among the messages that went to one client.
pub inbox : ℕ → List (ℕ × Payload) → List Payload
inbox ws [] = []
inbox ws ((v, payload) ∷ messages) =
    let rest = inbox ws messages in if v == ws then payload ∷ rest else rest

inbox-append :
    (ws : ℕ) (ms ns : List (ℕ × Payload)) → inbox ws (ms ++ ns) ≡ inbox ws ms ++ inbox ws ns
unfolding inbox
inbox-append ws [] ns = refl
inbox-append ws ((v, payload) ∷ ms) ns = elim (Bool-cases (v == ws)) [
  | inl same ↦ rw same (ap (λ zs. payload ∷ zs) (inbox-append ws ms ns))
  | inr other ↦ rw other (inbox-append ws ms ns)
]

inbox-sent_to :
    (sends : ℕ → Bool) (ws : ℕ) (payload : Payload) (connections : List ℕ)
    → sends ws ≡ true
    → inbox ws (sent_to sends payload connections) ≡ replicate (occurrences ws connections) payload
unfolding inbox sent_to occurrences
inbox-sent_to sends ws payload [] alive = refl
inbox-sent_to sends ws payload (v ∷ connections) alive = elim (Bool-cases (v == ws)) [
  | inl same ↦
      let e : v ≡ ws = (==_iff v ws).0 same in
      let here : sends v ≡ true = ap sends e ∙ alive in
      rw here (
        rw same
          (rw add-one (ap (λ zs. payload ∷ zs) (inbox-sent_to sends ws payload connections alive))))
  | inr other ↦ elim (Bool-cases (sends v)) [
    | inl here ↦ rw here (rw other (inbox-sent_to sends ws payload connections alive))
    | inr gone ↦ rw gone (rw other (inbox-sent_to sends ws payload connections alive))
  ]
]

-- The diagnostic events among payloads.
pub events_of : List Payload → List DemEvent
events_of [] = []
events_of (dem_event e ∷ payloads) = e ∷ events_of payloads
events_of (ecu_state status ∷ payloads) = events_of payloads

events_of-append : (ps qs : List Payload) → events_of (ps ++ qs) ≡ events_of ps ++ events_of qs
unfolding events_of
events_of-append [] qs = refl
events_of-append (dem_event e ∷ ps) qs = ap (λ zs. e ∷ zs) (events_of-append ps qs)
events_of-append (ecu_state status ∷ ps) qs = events_of-append ps qs

-- The diagnostic events that a client has been sent.
unfoldable pub seen : ℕ → ConnectionManager → List DemEvent
unfolding events_of inbox
seen ws m = events_of (inbox ws m.received)

module _ (online : ℕ → ℕ → Bool) (ws : ℕ) (stays : (t : ℕ) → online t ws ≡ true) where
  inbox-broadcast :
      (payload : Payload) (m : ConnectionManager)
      → occurrences ws m.connections ≡ 1
      → inbox ws (broadcast online payload m).received ≡ inbox ws m.received ++ payload ∷ []
  unfolding broadcast
  inbox-broadcast payload m once =
      inbox-append ws m.received (sent_to (online m.broadcasts) payload m.connections)
      ∙ ap (λ zs. inbox ws m.received ++ zs)
          (inbox-sent_to (online m.broadcasts) ws payload m.connections (stays m.broadcasts)
            ∙ ap (λ n. replicate n payload) once)

  pub occurrences-broadcast :
      (payload : Payload) (m : ConnectionManager)
      → occurrences ws (broadcast online payload m).connections ≡ occurrences ws m.connections
  unfolding broadcast
  occurrences-broadcast payload m =
      ap (occurrences ws) (remove_all-dead_of (online m.broadcasts) m.connections)
      ∙ occurrences-reachable (online m.broadcasts) ws m.connections (stays m.broadcasts)

  pub seen-broadcast_state :
      (status : Status) (m : ConnectionManager)
      → occurrences ws m.connections ≡ 1
      → seen ws (broadcast online (ecu_state status) m) ≡ seen ws m
  unfolding seen events_of
  seen-broadcast_state status m once =
      ap events_of (inbox-broadcast (ecu_state status) m once)
      ∙ events_of-append (inbox ws m.received) (ecu_state status ∷ [])
      ∙ append-nil (seen ws m)

  seen-broadcast_event :
      (e : DemEvent) (m : ConnectionManager)
      → occurrences ws m.connections ≡ 1
      → seen ws (broadcast online (dem_event e) m) ≡ seen ws m ++ e ∷ []
  unfolding seen events_of
  seen-broadcast_event e m once =
      ap events_of (inbox-broadcast (dem_event e) m once)
      ∙ events_of-append (inbox ws m.received) (dem_event e ∷ [])

  pub occurrences-broadcast_each :
      (events : List DemEvent) (m : ConnectionManager)
      → occurrences ws (broadcast_each online events m).connections ≡ occurrences ws m.connections
  unfolding broadcast_each
  occurrences-broadcast_each [] m = refl
  occurrences-broadcast_each (e ∷ events) m =
      occurrences-broadcast_each events (broadcast online (dem_event e) m)
      ∙ occurrences-broadcast (dem_event e) m

  -- A client that is connected once and stays online is sent each event of the loop, once and in
  -- order.
  pub seen-broadcast_each :
      (events : List DemEvent) (m : ConnectionManager)
      → occurrences ws m.connections ≡ 1
      → seen ws (broadcast_each online events m) ≡ seen ws m ++ events
  unfolding broadcast_each
  seen-broadcast_each [] m once = sym (append-nil (seen ws m))
  seen-broadcast_each (e ∷ events) m once =
      seen-broadcast_each events (broadcast online (dem_event e) m)
        (occurrences-broadcast (dem_event e) m ∙ once)
      ∙ ap (λ zs. zs ++ events) (seen-broadcast_event e m once)
      ∙ append_assoc (seen ws m) (e ∷ []) events
