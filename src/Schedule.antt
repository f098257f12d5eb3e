-- ===== src/Schedule.antt =====
-- sim/bus_scheduler.py: periodic transmissions. A callback is the name of what it does; what a call
-- of `tick` fires is returned.
pub mod Periods
use sec_oc.Base.{ℕ, ◌+◌, String, Bool, true, false, List, [], ◌∷◌, ◌++◌, leb, if◌then◌else◌}

pub record Periodic : Type 0 where
  pub pdu_id : String
  pub period_ms : ℕ
  pub callback : String
  pub last_fired_ms : ℕ

pub record BusScheduler : Type 0 where
  pub scheduler_id : String
  pub running : Bool
  pub entries : List Periodic

-- `BusScheduler.__init__`
unfoldable pub new_scheduler : String → BusScheduler
new_scheduler scheduler_id = record { scheduler_id = scheduler_id; running = false; entries = [] }

-- `schedule_periodic`
unfoldable pub schedule_periodic : String → ℕ → String → BusScheduler → BusScheduler
schedule_periodic pdu_id period_ms callback b = record b {
  entries =
      b.entries
      ++ record { pdu_id = pdu_id; period_ms = period_ms; callback = callback; last_fired_ms = 0 }
        ∷ [];
}

-- `start`
unfoldable pub start : BusScheduler → BusScheduler
start b = record b { running = true }

-- `now_ms - entry["last_fired_ms"] >= entry["period_ms"]`, on integers.
unfoldable pub is_due : ℕ → Periodic → Bool
is_due now_ms e = leb (e.last_fired_ms + e.period_ms) now_ms

-- The loop of `tick`: the entries after it, and the calls that it makes.
unfoldable pub fire : ℕ → List Periodic → List Periodic × List (String × String)
unfolding is_due
fire now_ms [] = ([], [])
fire now_ms (e ∷ entries) =
    let (entries', calls) = fire now_ms entries in
    if is_due now_ms e
    then (record e { last_fired_ms = now_ms } ∷ entries', (e.callback, e.pdu_id) ∷ calls)
    else (e ∷ entries', calls)

-- `tick`
unfoldable pub tick : ℕ → BusScheduler → BusScheduler × List (String × String)
unfolding fire
tick now_ms b =
    if b.running
    then (let (entries, calls) = fire now_ms b.entries in (record b { entries = entries }, calls))
    else (b, [])
