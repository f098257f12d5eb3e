-- ===== src/Monitor/Lockout.antt =====
-- When the policy engine locks the ECU out, and what clears that.
use sec_oc.Base.{
  ℕ, ◌+◌, ◌≤◌, ◌<◌, ◌≡◌, ◌↔◌, inl, inr, refl, ap, ◌∙◌, String, true, false, ◌||◌, List, [], ◌∷◌,
  arith, eq_iff, str_eq, leb, if◌then◌else◌, Bool-cases,
}
use sec_oc.Base.Dict.{get_or, get_or-insert}
use sec_oc.Monitor.Events.{RejectionReason}
use sec_oc.Monitor.{
  normal_operation, security_violation_lockout, Monitor, evaluate, reset, FailureCategory, auth,
  get_failure_count, record_failure, log_rejection,
}

-- The ECU state says what the policy engine remembers.
abbrev pub IsConsistent : Monitor → Type 0
IsConsistent m =
    m.ecu_state ≡ (if m.locked_out then security_violation_lockout else normal_operation)

pub get_failure_count-record_failure :
    (p q : String) (c : FailureCategory) (m : Monitor)
    → get_failure_count q (record_failure p c m).0
      ≡ (if str_eq p q then get_failure_count p m + 1 else get_failure_count q m)
unfolding record_failure evaluate get_failure_count
get_failure_count-record_failure p q c m =
    ground (arith, get_or-insert p q (get_or p 0 m.counts + 1) 0 m.counts)

-- Only the fifth failure of the AUTH category locks, and it locks whatever came before.
pub locked_out-record_failure :
    (p : String) (m : Monitor)
    → (record_failure p auth m).0.locked_out ≡ (m.locked_out || leb 5 (get_failure_count p m + 1))
unfolding record_failure evaluate
locked_out-record_failure p m = ground arith

-- A rejection is logged before it is counted.
pub get_failure_count-reject :
    (p q : String) (reason : RejectionReason) (m : Monitor)
    → get_failure_count q (record_failure p auth (log_rejection p reason m)).0
      ≡ (if str_eq p q then get_failure_count p m + 1 else get_failure_count q m)
unfolding get_failure_count log_rejection
get_failure_count-reject p q reason m =
    get_failure_count-record_failure p q auth (log_rejection p reason m)

pub locked_out-reject :
    (p : String) (reason : RejectionReason) (m : Monitor)
    → (record_failure p auth (log_rejection p reason m)).0.locked_out
      ≡ (m.locked_out || leb 5 (get_failure_count p m + 1))
unfolding get_failure_count log_rejection
locked_out-reject p reason m = locked_out-record_failure p (log_rejection p reason m)

-- Recording a failure of any category keeps the ECU state in step with the policy engine: lockout
-- while it is locked out, normal operation otherwise.
pub record_failure-IsConsistent :
    (p : String) (c : FailureCategory) (m : Monitor)
    → IsConsistent m
    → IsConsistent (record_failure p c m).0
unfolding record_failure evaluate
record_failure-IsConsistent p c m h = ground arith

pub reject-IsConsistent :
    (p : String) (reason : RejectionReason) (m : Monitor)
    → IsConsistent m
    → IsConsistent (record_failure p auth (log_rejection p reason m)).0
unfolding log_rejection
reject-IsConsistent p reason m h = record_failure-IsConsistent p auth (log_rejection p reason m) h

-- What the ECU state is, once the policy engine has locked out.
pub locked-IsConsistent :
    (m : Monitor) → IsConsistent m → m.locked_out ≡ true → m.ecu_state ≡ security_violation_lockout
locked-IsConsistent m h locked =
    h ∙ ap (λ b. if b then security_violation_lockout else normal_operation) locked

pub reset-IsConsistent : (m : Monitor) → IsConsistent (reset m)
unfolding reset
reset-IsConsistent m = refl

-- A run of AUTH failures, one for each PDU of the list.
pub record_failures : List String → Monitor → Monitor
record_failures [] m = m
record_failures (p ∷ ps) m = record_failures ps (record_failure p auth m).0

-- How often a PDU stands in the list.
pub occurrences : String → List String → ℕ
occurrences p [] = 0
occurrences p (q ∷ ps) = if str_eq q p then occurrences p ps + 1 else occurrences p ps

count-record_failures :
    (p : String) (ps : List String) (m : Monitor)
    → get_failure_count p (record_failures ps m) ≡ get_failure_count p m + occurrences p ps
unfolding record_failures occurrences
count-record_failures p [] m = omega arith
count-record_failures p (q ∷ ps) m = ground (
  arith,
  get_failure_count-record_failure q p auth m,
  count-record_failures p ps (record_failure q auth m).0,
  eq_iff q p,
)

stays_locked :
    (ps : List String) (m : Monitor)
    → m.locked_out ≡ true
    → (record_failures ps m).locked_out ≡ true
unfolding record_failures
stays_locked [] m h = h
stays_locked (q ∷ ps) m h =
    stays_locked ps (record_failure q auth m).0
      (locked_out-record_failure q m ∙ ap (λ b. b || leb 5 (get_failure_count q m + 1)) h)

count_step :
    (p q : String) (ps : List String) (m : Monitor)
    → get_failure_count p (record_failure q auth m).0 + occurrences p ps
      ≡ get_failure_count p m + occurrences p (q ∷ ps)
unfolding occurrences
count_step p q ps m = ground (arith, get_failure_count-record_failure q p auth m, eq_iff q p)

locks_at_five :
    (q : String) (ps : List String) (m : Monitor)
    → m.locked_out ≡ false
    → (record_failure q auth m).0.locked_out ≡ true
    → 5 ≤ get_failure_count q m + occurrences q (q ∷ ps)
unfolding occurrences
locks_at_five q ps m h l = ground (arith, locked_out-record_failure q m, eq_iff q q)

below_five :
    (p q : String) (m : Monitor)
    → get_failure_count p m < 5
    → (record_failure q auth m).0.locked_out ≡ false
    → get_failure_count p (record_failure q auth m).0 < 5
below_five p q m few l =
    ground (
      arith,
      locked_out-record_failure q m,
      get_failure_count-record_failure q p auth m,
      eq_iff q p,
    )

-- The PDU that brings a lockout about.
lock_cause :
    (ps : List String) (m : Monitor)
    → m.locked_out ≡ false
    → (record_failures ps m).locked_out ≡ true
    → (p : String) × (5 ≤ get_failure_count p m + occurrences p ps)
unfolding record_failures
lock_cause [] m h l = cc
lock_cause (q ∷ ps) m h l = elim (Bool-cases (record_failure q auth m).0.locked_out) [
  | inl now ↦ (q, locks_at_five q ps m h now)
  | inr later ↦
      let (p, many) = lock_cause ps (record_failure q auth m).0 later l in
      (p, omega (arith, count_step p q ps m))
]

reaches_five :
    (p : String) (ps : List String) (m : Monitor)
    → get_failure_count p m < 5
    → 5 ≤ get_failure_count p m + occurrences p ps
    → (record_failures ps m).locked_out ≡ true
unfolding record_failures
reaches_five p [] m few many = absurd (unfold occurrences in omega arith)
reaches_five p (q ∷ ps) m few many = elim (Bool-cases (record_failure q auth m).0.locked_out) [
  | inl now ↦ stays_locked ps (record_failure q auth m).0 now
  | inr later ↦
      reaches_five p ps (record_failure q auth m).0 (below_five p q m few later)
        (omega (arith, count_step p q ps m))
]

-- From a monitor that is not locked and has counted no failure, a run of authentication failures
-- ends in the lockout exactly when some one PDU has failed five times in the run.
pub lockout_iff :
    (ps : List String) (m : Monitor)
    → m.locked_out ≡ false
    → ((p : String) → get_failure_count p m ≡ 0)
    → ((record_failures ps m).locked_out ≡ true) ↔ ((p : String) × (5 ≤ occurrences p ps))
lockout_iff ps m h clean = (
  λ l. let (p, many) = lock_cause ps m h l in (p, omega (arith, clean p)),
  λ (p, many). reaches_five p ps m (omega (arith, clean p)) (omega (arith, clean p)),
)

-- A reset clears the lockout and keeps the counts: for a PDU that has failed four times or more,
-- the first failure after the reset locks the ECU out again.
pub reset_relocks :
    (p : String) (m : Monitor)
    → 4 ≤ get_failure_count p m
    → ((reset m).locked_out ≡ false)
      × ((record_failure p auth (reset m)).0.ecu_state ≡ security_violation_lockout)
unfolding reset record_failure evaluate get_failure_count
reset_relocks p m many = ground arith
