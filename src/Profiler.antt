-- ===== src/Profiler.antt =====
-- sim/performance_profiler.py: how long operations take. Readings of the clock are arguments; the
-- module's functions work on one profiler of this kind. Times are Python's floats, which are a
-- parameter: no law of their arithmetic is assumed here.
pub mod Totals
use sec_oc.Base.{
  ℕ, ◌+◌, String, Bool, true, false, Option, none, some, List, [], ◌∷◌, ◌++◌, length, if◌then◌else◌,
}
use sec_oc.Base.Dict.{Dict, lookup, insert, erase}

-- The operations of Python on floats: `0.0`, `1000.0`, `a - b`, `a * b`, `a > b`, `sum(xs)`, and the
-- division by a length.
pub record Floats (F : Type 0) : Type 0 where
  pub zero_ms : F
  pub thousand : F
  pub sub : F → F → F
  pub mul : F → F → F
  pub exceeds : F → F → Bool
  pub sum : List F → F
  pub div_length : F → ℕ → F

-- `ProfilerStatus`
pub data ProfilerStatus : Type 0 where
  within_budget exceeded : ProfilerStatus

-- `ProfilerSample`
pub record ProfilerSample (F : Type 0) : Type 0 where
  pub operation_id : String
  pub elapsed_ms : F
  pub status : ProfilerStatus

-- `PerformanceProfiler`
pub record PerformanceProfiler (F : Type 0) : Type 0 where
  pub budget_ms : F
  pub starts : Dict F
  pub samples : List (ProfilerSample F)

pub record Summary (F : Type 0) : Type 0 where
  pub count : ℕ
  pub max_ms : F
  pub avg_ms : F
  pub exceeded_count : ℕ

-- The time that was popped, or the first reading where there was none.
unfoldable pub started : {F : Type 0} → Option F → F → F
started none first = first
started (some time) first = time

is_exceeded : ProfilerStatus → Bool
is_exceeded exceeded = true
is_exceeded within_budget = false

-- `sum(1 for s in self._samples if s.status == ProfilerStatus.EXCEEDED)`
unfoldable pub count_exceeded : {F : Type 0} → List (ProfilerSample F) → ℕ
unfolding is_exceeded
count_exceeded [] = 0
count_exceeded (s ∷ samples) =
    let rest = count_exceeded samples in if is_exceeded s.status then rest + 1 else rest

-- `[s.elapsed_ms for s in self._samples]`
unfoldable pub elapsed_of : {F : Type 0} → List (ProfilerSample F) → List F
elapsed_of [] = []
elapsed_of (s ∷ samples) = s.elapsed_ms ∷ elapsed_of samples

module _ {F : Type 0} where
  -- `PerformanceProfiler.__init__`
  unfoldable pub new_profiler : F → PerformanceProfiler F
  new_profiler budget_ms = record { budget_ms = budget_ms; starts = []; samples = [] }

  -- `start`
  unfoldable pub start : String → F → PerformanceProfiler F → PerformanceProfiler F
  start operation_id now p = record p { starts = insert operation_id now p.starts }

  -- `get_samples`
  pub get_samples : PerformanceProfiler F → List (ProfilerSample F)
  get_samples p = p.samples

  -- `reset`
  unfoldable pub reset : PerformanceProfiler F → PerformanceProfiler F
  reset p = record p { starts = []; samples = [] }

module _ {F : Type 0} (num : Floats F) where
  -- `stop`: `first` is the reading of the clock for an operation that was not started, `now` the one
  -- that the elapsed time is taken from.
  unfoldable pub stop : String → F → F → PerformanceProfiler F → PerformanceProfiler F × F
  unfolding started
  stop operation_id first now p =
      let elapsed_ms =
        num.mul (num.sub now (started (lookup operation_id p.starts) first)) num.thousand in
      (
        record p {
          starts = erase operation_id p.starts;
          samples =
              p.samples
              ++ record {
                operation_id = operation_id;
                elapsed_ms = elapsed_ms;
                status = if num.exceeds elapsed_ms p.budget_ms then exceeded else within_budget;
              }
                ∷ [];
        },
        elapsed_ms,
      )

  -- `max(elapsed)`, from the first time on: a later one is taken when it is larger.
  unfoldable pub largest : F → List F → F
  largest most [] = most
  largest most (e ∷ elapsed) = largest (if num.exceeds e most then e else most) elapsed

  unfoldable pub max_of : List F → F
  unfolding largest
  max_of [] = num.zero_ms
  max_of (e ∷ elapsed) = largest e elapsed

  -- `sum(elapsed) / len(elapsed)`
  unfoldable pub mean : List F → F
  mean [] = num.zero_ms
  mean (e ∷ elapsed) = num.div_length (num.sum (e ∷ elapsed)) (length (e ∷ elapsed))

  -- `get_summary`; all values of no samples are 0.
  unfoldable pub get_summary : PerformanceProfiler F → Summary F
  unfolding max_of mean count_exceeded elapsed_of
  get_summary p = record {
    count = length p.samples;
    max_ms = max_of (elapsed_of p.samples);
    avg_ms = mean (elapsed_of p.samples);
    exceeded_count = count_exceeded p.samples;
  }
