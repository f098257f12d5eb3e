-- ===== src/Schedule/Periods.antt =====
-- How often sim/bus_scheduler.py fires an entry.
use native.Mathlib.Nat.{zero-add, add-mul}
use sec_oc.Base.{
  ℕ, ◌+◌, ◌*◌, ◌≤◌, ◌⊎◌, ◌≡◌, refl, true, List, [], ◌∷◌, length, arith, Bool-cases, inl, inr,
}
use sec_oc.Schedule.{Periodic, BusScheduler, is_due, fire, tick}

-- Ticks at the times of the list; the number of calls that they make.
pub ticks : List ℕ → BusScheduler → BusScheduler × ℕ
ticks [] b = (b, 0)
ticks (now_ms ∷ times) b =
    let (b', calls) = tick now_ms b in
    let (b'', more) = ticks times b' in (b'', length calls + more)

-- The times do not fall, from `from` on, and end at `until` at the latest.
pub data Rises : ℕ → List ℕ → ℕ → Type 0 where
  stop : {from until : ℕ} → from ≤ until → Rises from [] until
  step :
      {from now_ms until : ℕ} {times : List ℕ}
      → from ≤ now_ms
      → Rises now_ms times until
      → Rises from (now_ms ∷ times) until

due_le :
    (now_ms : ℕ) (e : Periodic) → is_due now_ms e ≡ true → e.last_fired_ms + e.period_ms ≤ now_ms
unfolding is_due
due_le now_ms e due = ground arith

-- What a tick does to a single entry.
tick_one :
    (now_ms : ℕ) (b : BusScheduler) (e : Periodic)
    → b.entries ≡ e ∷ []
    → (((tick now_ms b).0.entries ≡ e ∷ []) × (length (tick now_ms b).1 ≡ 0))
      ⊎ (((tick now_ms b).0.entries ≡ record e { last_fired_ms = now_ms } ∷ [])
          × (length (tick now_ms b).1 ≡ 1)
          × (e.last_fired_ms + e.period_ms ≤ now_ms))
unfolding tick fire is_due
tick_one now_ms b e one = elim (Bool-cases b.running) [
  | inr stopped ↦ rw stopped (inl (one, refl))
  | inl runs ↦ elim (Bool-cases (is_due now_ms e)) [
    | inr early ↦ rw (runs, one, early) (inl (refl, refl))
    | inl due ↦ rw (runs, one, due) (inr (refl, refl, due_le now_ms e due))
  ]
]

-- A scheduler with one entry fires it at most once in each period: over ticks whose times do not
-- fall, from the time `since` of its last firing on until `until`, the periods of the calls fit
-- into the time between.
pub ticks_bound :
    (times : List ℕ) (b : BusScheduler) (e : Periodic) (from until : ℕ)
    → b.entries ≡ e ∷ []
    → e.last_fired_ms ≤ from
    → Rises from times until
    → e.last_fired_ms + (ticks times b).1 * e.period_ms ≤ until
unfolding ticks
ticks_bound [] b e from until one before (Rises.stop le) = omega arith
ticks_bound (now_ms ∷ times) b e from until one before (Rises.step le rest) =
    elim (tick_one now_ms b e one) [
      | inl (same, none_fired) ↦
          let later = ticks_bound times (tick now_ms b).0 e now_ms until same (omega arith) rest in
          rw none_fired (rw (zero-add (ticks times (tick now_ms b).0).1) later)
      | inr (fired, once, due) ↦
          let later =
            ticks_bound times (tick now_ms b).0 (record e { last_fired_ms = now_ms }) now_ms until
              fired (omega arith) rest in
          rw once (omega (arith, add-mul 1 (ticks times (tick now_ms b).0).1 e.period_ms))
    ]
