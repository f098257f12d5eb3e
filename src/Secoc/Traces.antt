-- ===== src/Secoc/Traces.antt =====
-- Sequences of calls of `receive_secured` in sim/secoc.py, for any frames of any PDUs, whoever sent
-- them, and calls that raise among them.
use sec_oc.Base.{
  ℕ, ◌<◌, ◌≡◌, ◌≢◌, inl, inr, refl, sym, ap, ◌∙◌, String, Option, some, arith, List, [], ◌∷◌,
  Outcome, ok, ok-injective, str_eq, eq_iff, Bool-cases,
}
use sec_oc.Base.Bytes.{Bytes}
use sec_oc.Freshness.{load_last_valid_freshness, commit_freshness}
use sec_oc.Freshness.Window.{LastValid, LastValid-commit_freshness, load-commit_freshness_ne}
use sec_oc.Nvm.Values.{as_int}
use sec_oc.Profile.{Transport, SecurityProfileEntry}
use sec_oc.Secoc.Objects.{Setup, Stack}
use sec_oc.Secoc.Authenticator.{resolve_key_id}
use sec_oc.Secoc.Macs.{truncated_mac, stack_key}
use sec_oc.Pdu.{Parts}
use mathlib.Core.Path.{subst}
use sec_oc.Secoc.Reception.{Reception, Splits, IsFresh}
use sec_oc.Secoc.Receive.{receive_secured-Reception}
use sec_oc.Secoc.{receive_secured}

-- A frame as a call of `receive_secured` gets it.
pub record Arrival : Type 0 where
  pub pdu_id : String
  pub secured_pdu : Bytes
  pub transport : Transport

-- Each value is above the one before, the first above `last`.
abbrev pub Ascends : ℕ → List ℕ → Type 0
Ascends last [] = Unit
Ascends last (v ∷ vs) = (last < v) × Ascends v vs

-- The last of the values, or `last` if there is none.
abbrev pub last_of : ℕ → List ℕ → ℕ
last_of last [] = last
last_of last (v ∷ vs) = last_of v vs

module _ (env : Setup) where
  receive : Arrival → Stack → Stack × Outcome (Option Bytes)
  receive f s = receive_secured env f.pdu_id f.secured_pdu f.transport s

  -- The state after all calls.
  pub receive_all : List Arrival → Stack → Stack
  unfolding receive
  receive_all [] s = s
  receive_all (f ∷ frames) s = receive_all frames (receive f s).0

  -- The frame carries the payload, the field of the counter value `v`, and the MAC of both.
  pub record Carries (f : Arrival) (s : Stack) (payload : Bytes) (v : ℕ) : Type 0 where
    pub profile : SecurityProfileEntry
    pub field_length : ℕ
    pub mac_length : ℕ
    pub parts : Parts
    pub before : ℕ
    pub key_id : String
    pub split :
        Splits env f.pdu_id f.secured_pdu f.transport s profile field_length mac_length parts
    pub content : parts.authentic_pdu ≡ payload
    pub fresh : IsFresh env f.pdu_id f.secured_pdu f.transport s parts before v
    pub resolved : resolve_key_id env f.pdu_id profile s ≡ ok key_id
    pub signed :
        truncated_mac env (stack_key env key_id s) payload v field_length mac_length ≡ parts.mac

  -- The counter values of the frames of the PDU that the calls accept, in order.
  pub data Accepts (p : String) : List Arrival → Stack → List ℕ → Type 0 where
    ends : {s : Stack} → Accepts p [] s []
    -- a frame of another PDU
    passes :
        {f : Arrival} {frames : List Arrival} {s : Stack} {vs : List ℕ}
        → f.pdu_id ≢ p
        → Accepts p frames (receive_secured env f.pdu_id f.secured_pdu f.transport s).0 vs
        → Accepts p (f ∷ frames) s vs
    -- a call that answers None, or raises
    refuses :
        {f : Arrival} {frames : List Arrival} {s : Stack} {vs : List ℕ}
        → ((payload : Bytes)
            → (receive_secured env f.pdu_id f.secured_pdu f.transport s).1 ≢ ok (some payload))
        → Accepts p frames (receive_secured env f.pdu_id f.secured_pdu f.transport s).0 vs
        → Accepts p (f ∷ frames) s vs
    takes :
        {f : Arrival} {frames : List Arrival} {s : Stack} {vs : List ℕ} {payload : Bytes} {v : ℕ}
        → f.pdu_id ≡ p
        → (receive_secured env f.pdu_id f.secured_pdu f.transport s).1 ≡ ok (some payload)
        → Carries f s payload v
        → Accepts p frames (receive_secured env f.pdu_id f.secured_pdu f.transport s).0 vs
        → Accepts p (f ∷ frames) s (v ∷ vs)

  -- What one call does to the last accepted value of the PDU.
  data Step (p : String) (f : Arrival) (s s' : Stack) (r : Outcome (Option Bytes)) (last : ℕ)
      : Type 0 where
    passed : f.pdu_id ≢ p → LastValid p s'.nvm last → Step p f s s' r last
    refused :
        ((payload : Bytes) → r ≢ ok (some payload)) → LastValid p s'.nvm last → Step p f s s' r last
    took :
        {payload : Bytes} {v : ℕ}
        → f.pdu_id ≡ p
        → r ≡ ok (some payload)
        → Carries f s payload v
        → last < v
        → LastValid p s'.nvm v
        → Step p f s s' r last

  step :
      (p : String) (f : Arrival) (s : Stack) {s' : Stack} {r : Outcome (Option Bytes)} (last : ℕ)
      → Reception env f.pdu_id f.secured_pdu f.transport s s' r
      → LastValid p s.nvm last
      → Step p f s s' r last
  step p f s last (Reception.failed cause) h = Step.refused (λ payload e. cc) h
  step p f s last (Reception.rejected why) h = Step.refused (λ payload e. cc) h
  step p f s last
        (Reception.accepted {profile} {n} {m} {parts} {last = old} {v} {key_id} split fresh found
          job matches)
        h =
      elim (Bool-cases (str_eq f.pdu_id p)) [
        | inl same ↦
            let name : f.pdu_id ≡ p = (eq_iff f.pdu_id p).0 same in
            let agree : last ≡ old = ok-injective (
              sym h
              ∙ ap (λ q. as_int (load_last_valid_freshness q s.nvm)) (sym name)
              ∙ fresh.before) in
            let newer : old < v = fresh.newer in
            Step.took name refl
              (record {
                profile = profile;
                field_length = n;
                mac_length = m;
                parts = parts;
                before = old;
                key_id = key_id;
                split = split;
                content = refl;
                fresh = fresh;
                resolved = found;
                signed = matches;
              })
              (omega arith)
              (subst (λ (q : String). LastValid q (commit_freshness f.pdu_id v s.nvm) v) name
                (LastValid-commit_freshness f.pdu_id v s.nvm))
        | inr other ↦
            let apart : f.pdu_id ≢ p = λ e. let same = (eq_iff f.pdu_id p).1 e in cc in
            Step.passed apart (ap as_int (load-commit_freshness_ne f.pdu_id p v s.nvm apart) ∙ h)
      ]

  -- What is said of a run.
  record Rises (p : String) (frames : List Arrival) (s : Stack) (last : ℕ) : Type 0 where
    values : List ℕ
    accepted : Accepts p frames s values
    ascending : Ascends last values
    held : LastValid p (receive_all frames s).nvm (last_of last values)

  extend :
      (p : String) (f : Arrival) (frames : List Arrival) (s : Stack) (last : ℕ)
      → Step p f s (receive f s).0 (receive f s).1 last
      → ((mid : ℕ) → LastValid p (receive f s).0.nvm mid → Rises p frames (receive f s).0 mid)
      → Rises p (f ∷ frames) s last
  unfolding receive_all receive
  extend p f frames s last (Step.passed other h) rest =
      let r = rest last h in
      record {
        values = r.values;
        accepted = Accepts.passes other r.accepted;
        ascending = r.ascending;
        held = r.held;
      }
  extend p f frames s last (Step.refused why h) rest =
      let r = rest last h in
      record {
        values = r.values;
        accepted = Accepts.refuses why r.accepted;
        ascending = r.ascending;
        held = r.held;
      }
  extend p f frames s last (Step.took {v = v} name answer carries newer h) rest =
      let r = rest v h in
      record {
        values = v ∷ r.values;
        accepted = Accepts.takes name answer carries r.accepted;
        ascending = (newer, r.ascending);
        held = r.held;
      }

  rises :
      (p : String) (frames : List Arrival) (s : Stack) (last : ℕ)
      → LastValid p s.nvm last
      → Rises p frames s last
  unfolding receive_all receive
  rises p [] s last h = record { values = []; accepted = Accepts.ends; ascending = tt; held = h }
  rises p (f ∷ frames) s last h =
      extend p f frames s last
        (step p f s last (receive_secured-Reception env f.pdu_id f.secured_pdu f.transport s) h)
        (λ mid held. rises p frames (receive f s).0 mid held)

  -- Over any run of calls the counter values of the frames of a PDU that are accepted ascend, from
  -- above the last accepted value that the memory held before the run, so that none is accepted
  -- twice in the run; and after the run the memory holds the last of them, or the value from before
  -- if none was accepted. The counter value of an accepted frame is the one reconstructed from its
  -- field, and the MAC in the frame is the one of payload and value.
  pub receive_all-rises :
      (p : String) (frames : List Arrival) (s : Stack) (last : ℕ)
      → LastValid p s.nvm last
      → (values : List ℕ) × Accepts p frames s values
        × Ascends last values
        × LastValid p (receive_all frames s).nvm (last_of last values)
  receive_all-rises p frames s last h =
      let r = rises p frames s last h in (r.values, r.accepted, r.ascending, r.held)
