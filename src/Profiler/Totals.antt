-- ===== src/Profiler/Totals.antt =====
-- What a summary of sim/performance_profiler.py says of the operations that were timed.
use sec_oc.Base.{
  ℕ, ◌+◌, ◌≡◌, ◌↔◌, refl, sym, ap, ◌∙◌, String, true, false, List, [], ◌∷◌, ◌++◌, arith, length,
  length-append, if◌then◌else◌, Bool-cases, inl, inr,
}
use sec_oc.Profiler.{
  Floats, PerformanceProfiler, ProfilerSample, within_budget, exceeded, new_profiler, start, stop,
  reset, get_summary, largest, max_of, count_exceeded, is_exceeded, started, elapsed_of,
}
use sec_oc.Base.Dict.{lookup}

-- What Python's `>` satisfies on floats that are not NaN: `a > b` and `b > c` give `a > c`, and of
-- `a > c` follows `b > c` unless `a > b`.
pub record IsOrdered {F : Type 0} (num : Floats F) : Type 0 where
  pub up : (a b c : F) → num.exceeds a b ≡ true → num.exceeds b c ≡ true → num.exceeds a c ≡ true
  pub down : (a b c : F) → num.exceeds a b ≡ false → num.exceeds a c ≡ true → num.exceeds b c ≡ true

-- The calls of a client.
pub data Call (F : Type 0) : Type 0 where
  starts : String → F → Call F
  stops : String → F → F → Call F
  resets : Call F

-- How many operations are stopped after the last reset, where `n` were before.
pub stops_from : {F : Type 0} → ℕ → List (Call F) → ℕ
stops_from n [] = n
stops_from n (starts op now ∷ calls) = stops_from n calls
stops_from n (stops op first now ∷ calls) = stops_from (n + 1) calls
stops_from n (resets ∷ calls) = stops_from 0 calls

module _ {F : Type 0} (num : Floats F) where
  pub run : List (Call F) → PerformanceProfiler F → PerformanceProfiler F
  run [] p = p
  run (starts op now ∷ calls) p = run calls (start op now p)
  run (stops op first now ∷ calls) p = run calls (stop num op first now p).0
  run (resets ∷ calls) p = run calls (reset p)

  -- Every sample has the status of its time against the budget.
  abbrev AreClassified : F → List (ProfilerSample F) → Type 0
  AreClassified budget [] = Unit
  AreClassified budget (s ∷ samples) =
      (s.status ≡ (if num.exceeds s.elapsed_ms budget then exceeded else within_budget))
      × AreClassified budget samples

  AreClassified-append :
      (budget : F) (xs ys : List (ProfilerSample F))
      → AreClassified budget xs
      → AreClassified budget ys
      → AreClassified budget (xs ++ ys)
  AreClassified-append budget [] ys h k = k
  AreClassified-append budget (x ∷ xs) ys h k = (h.0, AreClassified-append budget xs ys h.1 k)

  -- Summaries are of the budget that the profiler was made with.
  record IsSound (budget : F) (p : PerformanceProfiler F) : Type 0 where
    same : p.budget_ms ≡ budget
    classified : AreClassified budget p.samples

  run-IsSound :
      (budget : F) (calls : List (Call F)) (p : PerformanceProfiler F)
      → IsSound budget p
      → IsSound budget (run calls p)
  unfolding run start stop reset
  run-IsSound budget [] p s = s
  run-IsSound budget (starts op now ∷ calls) p s =
      run-IsSound budget calls _ (record { same = s.same; classified = s.classified })
  run-IsSound budget (stops op first now ∷ calls) p s = run-IsSound budget calls _ (record {
    same = s.same;
    classified = AreClassified-append budget p.samples _ s.classified (
      ap
          (λ b.
            if num.exceeds (num.mul (num.sub now (started (lookup op p.starts) first)) num.thousand)
              b
            then exceeded
            else within_budget)
          s.same,
      tt,
    );
  })
  run-IsSound budget (resets ∷ calls) p s =
      run-IsSound budget calls _ (record { same = s.same; classified = tt })

  length-samples-run :
      (calls : List (Call F)) (p : PerformanceProfiler F)
      → length (run calls p).samples ≡ stops_from (length p.samples) calls
  unfolding run start stop reset stops_from
  length-samples-run [] p = refl
  length-samples-run (starts op now ∷ calls) p = length-samples-run calls (start op now p)
  length-samples-run (stops op first now ∷ calls) p =
      length-samples-run calls (stop num op first now p).0
      ∙ ap (λ n. stops_from n calls) (length-append p.samples _)
  length-samples-run (resets ∷ calls) p = length-samples-run calls (reset p)

  -- The samples over the budget.
  pub late : F → List (ProfilerSample F) → ℕ
  late budget [] = 0
  late budget (s ∷ samples) =
      let rest = late budget samples in if num.exceeds s.elapsed_ms budget then rest + 1 else rest

  count_exceeded-late :
      (budget : F) (samples : List (ProfilerSample F))
      → AreClassified budget samples
      → count_exceeded samples ≡ late budget samples
  unfolding count_exceeded late is_exceeded
  count_exceeded-late budget [] h = refl
  count_exceeded-late budget (s ∷ samples) h =
      ground (arith, h.0, count_exceeded-late budget samples h.1)

  -- No sample is over the budget exactly when neither `most` nor the largest after it is.
  largest-late :
      (budget most : F) (samples : List (ProfilerSample F))
      → IsOrdered num
      → (num.exceeds (largest num most (elapsed_of samples)) budget ≡ false)
        ↔ ((num.exceeds most budget ≡ false) × (late budget samples ≡ 0))
  unfolding largest late elapsed_of
  largest-late budget most [] order = (λ h. (h, refl), λ h. h.0)
  largest-late budget most (s ∷ samples) order = elim (Bool-cases (num.exceeds s.elapsed_ms most)) [
    | inl above ↦
        rw (largest, above)
          (ground (
            arith,
            largest-late budget s.elapsed_ms samples order,
            order.up s.elapsed_ms most budget above,
          ))
    | inr below ↦
        rw (largest, below)
          (ground (
            arith,
            largest-late budget most samples order,
            order.down s.elapsed_ms most budget below,
          ))
  ]

  max_of-late :
      (budget : F) (samples : List (ProfilerSample F))
      → IsOrdered num
      → num.exceeds num.zero_ms budget ≡ false
      → (late budget samples ≡ 0) ↔ (num.exceeds (max_of num (elapsed_of samples)) budget ≡ false)
  unfolding max_of late elapsed_of
  max_of-late budget [] order small = (λ _. small, λ _. refl)
  max_of-late budget (s ∷ samples) order small =
      ground (arith, largest-late budget s.elapsed_ms samples order)

  -- For floats whose `>` is an order and a budget that 0.0 does not exceed: after any sequence of
  -- starts, stops (also of operations that were never started) and resets, the summary of a new
  -- profiler counts the stops since the last reset; it counts as exceeded exactly the samples whose
  -- time exceeds the budget; and none is exceeded exactly when the largest time does not exceed it.
  pub get_summary_lem :
      (budget : F) (calls : List (Call F))
      → IsOrdered num
      → num.exceeds num.zero_ms budget ≡ false
      → let p = run calls (new_profiler budget) in
        let summary = get_summary num p in
        (summary.count ≡ stops_from 0 calls)
        × (summary.exceeded_count ≡ late budget p.samples)
        × ((summary.exceeded_count ≡ 0) ↔ (num.exceeds summary.max_ms budget ≡ false))
  unfolding get_summary
  get_summary_lem budget calls order small =
      let p = run calls (new_profiler budget) in
      let sound = run-IsSound budget calls (new_profiler budget) fresh in
      let e = count_exceeded-late budget p.samples sound.classified in
      let (none_late, all_within) = max_of-late budget p.samples order small in
      (
        length-samples-run calls (new_profiler budget) ∙ unfold new_profiler in refl,
        e,
        (λ z. none_late (sym e ∙ z), λ within. e ∙ all_within within),
      )
    where
      fresh : IsSound budget (new_profiler budget)
      fresh = unfold new_profiler in record { same = refl; classified = tt }
