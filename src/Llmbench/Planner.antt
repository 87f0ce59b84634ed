-- ===== src/Llmbench/Planner.antt =====
-- llmbench/src/llmbench/planner/plan.py, class Planner, and the loop of
-- llmbench/src/llmbench/cli/main.py that asks it for cells. The texts of the planner's decisions
-- are left out, and so is the number that the loop writes to `cell_id`: it stands in logs and results
-- only, and no key contains it.
pub mod Coordinates
pub mod Counting
pub mod Universe
pub mod Bounded
pub mod Ending
pub mod Rounds
use home_ailab.Prelude.{
  ℕ, zero, suc, ◌+◌, ◌-◌, ◌*◌, ◌/◌, ◌<◌, String, Bool, true, false, not, ◌&&◌, ◌||◌, Option, none,
  some, List, [], ◌∷◌, ◌++◌, map, length, leb, ltb, ◌==◌, ℤ, pos, negsuc, le_ℤ, if◌then◌else◌,
  Result, ok, ◌>>=◌,
}
use home_ailab.Llmbench.Cells.{
  WorkloadCell, CellKey, CacheMode, LoadMode, MeasurementCell, key, same_key, same_load,
}
use home_ailab.Llmbench.Plans.{new_cell, closed_cell, default_isl, within, representative_context}
use home_ailab.Llmbench.Knee.{Rate, sort_rates, find_saturation_knee}

-- the dict of completed cells, in the order of insertion
abbrev pub Completed : Type 0
Completed = List (CellKey × MeasurementCell)

-- `key in completed`
unfoldable pub is_completed : CellKey → Completed → Bool
is_completed k [] = false
is_completed k ((j, m) ∷ done) = same_key j k || is_completed k done

-- `completed[key] = result`
unfoldable pub complete : CellKey → MeasurementCell → Completed → Completed
complete k m [] = (k, m) ∷ []
complete k m ((j, n) ∷ done) =
    let rest = complete k m done in if same_key j k then (j, m) ∷ done else (j, n) ∷ rest

pub record Planner : Type 0 where
  pub plan : List WorkloadCell
  pub total_seconds : ℕ
  pub max_concurrency : Option ℕ
  pub max_context : Option ℕ
  pub completed : Completed

-- the first cell of the plan that is not completed
unfoldable pub first_open : Completed → List WorkloadCell → Option WorkloadCell
unfolding is_completed
first_open done [] = none
first_open done (c ∷ cs) =
    let rest = first_open done cs in if is_completed (key c) done then rest else some c

unfoldable pub next_cell : Planner → Option WorkloadCell
unfolding first_open
next_cell p = first_open p.completed p.plan

unfoldable pub mark_done : WorkloadCell → MeasurementCell → Planner → Planner
unfolding complete
mark_done c m p = record p { completed = complete (key c) m p.completed }

-- `completed.values()`
unfoldable pub results : Completed → List MeasurementCell
results done = map (λ e. e.1) done

-- the results in a closed loop
unfoldable pub closed_results : List MeasurementCell → List MeasurementCell
closed_results [] = []
closed_results (m ∷ ms) =
    let rest = closed_results ms in
    if same_load m.workload.load_mode LoadMode.closed_loop then m ∷ rest else rest

abbrev pub rate_of : MeasurementCell → Rate
rate_of m = (m.workload.concurrency, m.output_tps)

-- any(m.workload.concurrency == cand for m in ...)
unfoldable pub is_measured : ℕ → List MeasurementCell → Bool
is_measured cand [] = false
is_measured cand (m ∷ ms) = (m.workload.concurrency == cand) || is_measured cand ms

-- `max_concurrency and cand > max_concurrency`
abbrev pub exceeds : Option ℕ → ℕ → Bool
exceeds none cand = false
exceeds (some limit) cand = not (limit == 0) && ltb limit cand

-- the cells of the loop over the candidates near the knee
unfoldable pub knee_cells : Option ℕ → ℕ → List MeasurementCell → List ℕ → List WorkloadCell
unfolding is_measured
knee_cells limit context ms [] = []
knee_cells limit context ms (cand ∷ cands) =
    let rest = knee_cells limit context ms cands in
    if ltb cand 1
    then rest
    else if exceeds limit cand
    then rest
    else if is_measured cand ms
    then rest
    else closed_cell context 512 cand CacheMode.cold ∷ rest

-- the candidates near a knee; `base - 1` is 0 where `base` is 0, and is skipped either way
abbrev pub candidates : ℕ → List ℕ
candidates base = base / 2 ∷ (base - 1) ∷ base ∷ (base + 1) ∷ (base * 2) ∷ []

abbrev pub knee_insertions : Option ℕ → ℕ → List MeasurementCell → Option ℕ → List WorkloadCell
knee_insertions limit context ms none = []
knee_insertions limit context ms (some base) = knee_cells limit context ms (candidates base)

-- `d.cv is not None and d.cv > 0.35`
abbrev is_varied : Option ℕ → Bool
is_varied none = false
is_varied (some cv) = ltb 350 cv

abbrev pub needs_rep : MeasurementCell → Bool
needs_rep m = (is_varied m.ttft_cv || is_varied m.itl_cv) && ltb m.workload.repetitions 3

-- a repetition of a cell: the arrival rate of the cell is not passed on
abbrev pub extra_cell : WorkloadCell → WorkloadCell
extra_cell w =
    new_cell w.input_tokens w.target_output_tokens w.concurrency w.cache_mode w.load_mode
      (w.repetitions + 1) none

unfoldable pub extra_cells : List MeasurementCell → List WorkloadCell
extra_cells [] = []
extra_cells (m ∷ ms) =
    let rest = extra_cells ms in if needs_rep m then extra_cell m.workload ∷ rest else rest

-- `c.key() in existing`, for the keys of the plan
unfoldable pub is_planned : CellKey → List WorkloadCell → Bool
is_planned k [] = false
is_planned k (c ∷ cs) = same_key (key c) k || is_planned k cs

-- the plan with the insertions whose key is not there
unfoldable pub add_new : Completed → List WorkloadCell → List WorkloadCell → List WorkloadCell
unfolding is_planned is_completed
add_new done plan [] = plan
add_new done plan (c ∷ cs) =
    let longer = add_new done (plan ++ c ∷ []) cs in
    let same = add_new done plan cs in
    if is_planned (key c) plan || is_completed (key c) done then same else longer

-- the cells that `refine` returns
unfoldable pub insertions : ℕ → Planner → List WorkloadCell
unfolding sort_rates find_saturation_knee closed_results knee_cells extra_cells results
insertions context p =
    let closed = closed_results (results p.completed) in
    let knee = find_saturation_knee (sort_rates (map rate_of closed)) in
    knee_insertions p.max_concurrency context closed knee ++ extra_cells (results p.completed)

unfoldable pub refine : Planner → Result Planner
unfolding insertions add_new representative_context within
refine p = do
  context ← representative_context (within p.max_context default_isl)
  ok (record p { plan = add_new p.completed p.plan (insertions context p) })

-- `max(0, total - elapsed) <= 0`
unfoldable pub is_exhausted : ℕ → Planner → Bool
is_exhausted elapsed p = leb (p.total_seconds - elapsed) 0

module _ (run_cell : WorkloadCell → Option MeasurementCell) where
  -- the end of a round: the executor measured the cell, or raised
  abbrev pub after_cell : WorkloadCell → Option MeasurementCell → Planner → Result Planner
  after_cell c none p = ok p
  after_cell c (some m) p = refine (mark_done c m p)

  -- a round of the loop of the command `run`, which ends with none where the loop ends
  unfoldable pub round : ℕ → Planner → Result (Option Planner)
  unfolding is_exhausted next_cell mark_done refine
  round elapsed p = if is_exhausted elapsed p then ok none else elim (next_cell p) [
    | none ↦ ok none
    | some c ↦ after_cell c (run_cell c) p >>= λ q. ok (some q)
  ]

  -- the loop over the times at which its rounds begin
  unfoldable pub run_rounds : List ℕ → Planner → Result Planner
  unfolding round
  run_rounds [] p = ok p
  run_rounds (elapsed ∷ times) p =
      round elapsed p >>= λ o. elim o [ none ↦ ok p | some q ↦ run_rounds times q ]
