-- ===== src/Llmbench/Tests.antt =====
-- llmbench/src/llmbench/planner/plan.py: concrete plans, and the instances of the theorems at them.
use home_ailab.Prelude.{
  ℕ, ◌≤◌, ◌≡◌, refl, Option, none, some, List, [], ◌∷◌, Result, ok, raise, Returns, All, length,
  arith,
}
use home_ailab.Llmbench.Cells.{WorkloadCell, CacheMode, MeasurementCell, key, same_key}
use home_ailab.Llmbench.Plans.{light_plan, heavy_plan, closed_cell}
use home_ailab.Llmbench.Plans.Fitting.{Fits, light_plan-Fits, heavy_plan-exceeds}
use home_ailab.Llmbench.Knee.{find_saturation_knee}
use home_ailab.Llmbench.Planner.{Planner, next_cell, round, run_rounds, is_exhausted}
use home_ailab.Llmbench.Planner.Ending.{Finished, run_rounds-Finished}
use home_ailab.Llmbench.Planner.Rounds.{failing_cell-blocks, round-Measured, Went}

abbrev plan_length : Result (List WorkloadCell) → ℕ
plan_length (ok plan) = length plan
plan_length (raise e) = 0

light_length : plan_length (light_plan none none) ≡ 24
unfolding light_plan
light_length = refl

heavy_length : plan_length (heavy_plan (some 4096) (some 2)) ≡ 31
unfolding heavy_plan
heavy_length = refl

light_plan-Fits_example : Returns (All (Fits 4096 16)) (light_plan (some 4096) (some 16))
light_plan-Fits_example = light_plan-Fits 4096 16 (omega arith) (omega arith)

heavy_plan-exceeds_example :
    Returns (λ plan. ¬ All (λ c. c.concurrency ≤ 2) plan) (heavy_plan (some 64) (some 2))
heavy_plan-exceeds_example = heavy_plan-exceeds (some 64) 2 (omega arith)

-- the gain falls below a tenth at eight requests at once
knee_at_eight :
    find_saturation_knee ((1, 40000) ∷ (2, 78000) ∷ (4, 140000) ∷ (8, 141000) ∷ []) ≡ some 8
unfolding find_saturation_knee
knee_at_eight = refl

abbrev solo : WorkloadCell
solo = closed_cell 4096 512 1 CacheMode.cold

abbrev pair : WorkloadCell
pair = closed_cell 4096 512 2 CacheMode.cold

abbrev many : WorkloadCell
many = closed_cell 4096 512 8 CacheMode.cold

-- a measurement whose time to the first token varies
abbrev measured : WorkloadCell → ℕ → MeasurementCell
measured c tps = record { workload = c; output_tps = tps; ttft_cv = some 400; itl_cv = none }

abbrev planner : Planner
planner = record {
  plan = solo ∷ pair ∷ many ∷ [];
  total_seconds = 7200;
  max_concurrency = some 8;
  max_context = some 8192;
  completed = (key solo, measured solo 40000) ∷ (key pair, measured pair 78000) ∷ [];
}

abbrev executor : WorkloadCell → Option MeasurementCell
executor c = some (measured c 141000)

round-Measured_example : Returns (Went executor planner many) (round executor 60 planner)
unfolding next_cell same_key is_exhausted
round-Measured_example =
    round-Measured executor planner many (measured many 141000) 60 refl refl refl

abbrev small_planner : Planner
small_planner = record planner { plan = solo ∷ pair ∷ []; max_concurrency = some 2; completed = [] }

run_rounds-Finished_example :
    Returns (Finished (solo ∷ pair ∷ [])) (
      run_rounds (λ c. some (measured c 40000)) (0 ∷ 60 ∷ 130 ∷ 190 ∷ 260 ∷ 330 ∷ []) small_planner)
run_rounds-Finished_example =
    run_rounds-Finished (λ c. measured c 40000) small_planner 2
      (0 ∷ 60 ∷ 130 ∷ 190 ∷ 260 ∷ 330 ∷ []) (λ c. refl) refl (omega arith) refl
      (omega arith, (omega arith, (omega arith, (omega arith, (omega arith, (omega arith, tt))))))
      (omega arith)

failing_cell-blocks_example : run_rounds (λ c. none) (60 ∷ 61 ∷ 62 ∷ []) planner ≡ ok planner
unfolding next_cell same_key
failing_cell-blocks_example =
    failing_cell-blocks (λ c. none) planner many (60 ∷ 61 ∷ 62 ∷ []) refl refl
