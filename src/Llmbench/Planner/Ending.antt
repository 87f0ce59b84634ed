-- ===== src/Llmbench/Planner/Ending.antt =====
-- llmbench/src/llmbench/cli/main.py, the loop of the command `run`: how many rounds it needs.
use home_ailab.Prelude.{
  ℕ, ◌+◌, ◌*◌, ◌-◌, ◌≤◌, ◌<◌, ◌≡◌, refl, sym, inl, inr, true, false, none, some, List, [], ◌∷◌, ok,
  Returns, Returns-value, All, All-append_back, All-weaken, length, Bool-cases, Option-cases, leb,
  arith,
}
use mathlib.Core.Path.{subst}
use mathlib.Core.List.{append-nil}
use home_ailab.Llmbench.Cells.{WorkloadCell, MeasurementCell, key}
use home_ailab.Llmbench.Plans.{representative_context, within, default_isl}
use home_ailab.Llmbench.Planner.{
  Planner, Completed, is_completed, next_cell, mark_done, results, is_exhausted, round, run_rounds,
}
use home_ailab.Llmbench.Plans.Limits.{context_known}
use home_ailab.Llmbench.Planner.Bounded.{
  u, IsBounded, refined, refined-IsBounded, refine-refined, mark_done-IsBounded, first_open-All_at,
}
use home_ailab.Llmbench.Planner.Counting.{open_count, open_count_lt, open_count-zero}
use home_ailab.Llmbench.Planner.Rounds.{first_open-some, next_cell-none_iff}
use home_ailab.Llmbench.Planner.Universe.{
  Covers, Covers-key, universe, universe-Covers, length-universe,
}

-- The planner has nothing left to measure, and every cell of a first plan is measured.
pub record Finished (plan : List WorkloadCell) (q : Planner) : Type 0 where
  pub ended : next_cell q ≡ none
  pub all_measured : All (λ c. is_completed (key c) q.completed ≡ true) plan

module _ (plan : List WorkloadCell) (context k total : ℕ) (some_k : 1 ≤ k)
    (measure : WorkloadCell → MeasurementCell)
    (filed : (c : WorkloadCell) → key (measure c).workload ≡ key c) where
  abbrev cells : List WorkloadCell
  cells = u plan context k total some_k

  abbrev Bounded : Planner → Type 0
  Bounded = IsBounded plan context k total some_k

  next_planner : WorkloadCell → Planner → Planner
  next_planner c p = refined plan context k total some_k (mark_done c (measure c) p)

  covered_cell :
      (p : Planner) (c : WorkloadCell) → Bounded p → next_cell p ≡ some c → Covers cells c
  unfolding next_cell
  covered_cell p c b next = first_open-All_at (Covers cells) p.completed p.plan c b.covered next

  round-next :
      (p : Planner) (c : WorkloadCell) (elapsed : ℕ)
      → Bounded p
      → elapsed < total
      → next_cell p ≡ some c
      → (round (λ d. some (measure d)) elapsed p ≡ ok (some (next_planner c p)))
        × Bounded (next_planner c p)
  unfolding round next_planner is_exhausted
  round-next p c elapsed b time next =
      let marked : Bounded (mark_done c (measure c) p) =
        mark_done-IsBounded plan context k total some_k c (measure c) p b
          (Covers-key cells c (measure c).workload (filed c) (covered_cell p c b next)) in
      let time_left : leb (p.total_seconds - elapsed) 0 ≡ false = ground (arith, b.seconds) in
      (
        rw
            (
              time_left,
              next,
              refine-refined plan context k total some_k (mark_done c (measure c) p) marked,
            )
            refl,
        refined-IsBounded plan context k total some_k (mark_done c (measure c) p) marked,
      )

  round-none :
      (p : Planner) (elapsed : ℕ)
      → next_cell p ≡ none
      → round (λ d. some (measure d)) elapsed p ≡ ok none
  unfolding round
  round-none p elapsed next = elim (Bool-cases (is_exhausted elapsed p)) [
    | inl over ↦ rw over refl
    | inr time_left ↦ rw (time_left, next) refl
  ]

  next_planner-fewer :
      (p : Planner) (c : WorkloadCell)
      → Bounded p
      → next_cell p ≡ some c
      → open_count (next_planner c p).completed cells < open_count p.completed cells
  unfolding next_planner refined mark_done next_cell
  next_planner-fewer p c b next =
      open_count_lt p.completed (key c) (measure c) cells (covered_cell p c b next).planned
        (first_open-some p.completed p.plan c next)

  finished : (p : Planner) → Bounded p → next_cell p ≡ none → Finished plan p
  finished p b next = record {
    ended = next;
    all_measured =
        (All-append_back (λ c. is_completed (key c) p.completed ≡ true) plan b.kept.added
          (subst (All (λ c. is_completed (key c) p.completed ≡ true)) b.kept.behind
            ((next_cell-none_iff p).0 next))).0;
  }

  next_cell-none : (p : Planner) → Bounded p → open_count p.completed cells ≡ 0 → next_cell p ≡ none
  next_cell-none p b e = (next_cell-none_iff p).1 (
      All-weaken (Covers cells) (λ c. is_completed (key c) p.completed ≡ true) p.plan
        (λ c h. open_count-zero p.completed (key c) cells e h.planned) b.covered)

  rounds-Finished :
      (times : List ℕ) (p : Planner)
      → Bounded p
      → All (λ t. t < total) times
      → open_count p.completed cells ≤ length times
      → Returns (Finished plan) (run_rounds (λ c. some (measure c)) times p)
  unfolding run_rounds
  rounds-Finished [] p b in_time few = finished p b (next_cell-none p b (omega arith))
  rounds-Finished (t ∷ times) p b in_time few = elim (Option-cases (next_cell p)) [
    | inl nothing ↦
        let stops : round (λ d. some (measure d)) t p ≡ ok none = round-none p t nothing in
        rw stops (finished p b nothing)
    | inr (c, next) ↦
        let (went, bounded) = round-next p c t b in_time.0 next in
        rw went (
          rounds-Finished times (next_planner c p) bounded in_time.1
            (omega (arith, next_planner-fewer p c b next)))
  ]

open_count_le-length : (cs : List WorkloadCell) (done : Completed) → open_count done cs ≤ length cs
unfolding open_count
open_count_le-length [] done = omega arith
open_count_le-length (c ∷ cs) done = ground (arith, open_count_le-length cs done)

-- With a limit of at least one request at once, nothing measured before and an executor that measures
-- every cell under its coordinate, the loop leaves every cell of the plan measured and no cell to
-- measure, whatever the measured values are, within twice as many rounds as the plan has cells and as
-- many more as the limit, if all of them begin in the budget's time: `refine` does not add cells
-- forever.
pub run_rounds-Finished :
    (measure : WorkloadCell → MeasurementCell) (p : Planner) (k : ℕ) (times : List ℕ)
    → ((c : WorkloadCell) → key (measure c).workload ≡ key c)
    → p.max_concurrency ≡ some k
    → 1 ≤ k
    → p.completed ≡ []
    → All (λ t. t < p.total_seconds) times
    → 2 * length p.plan + k ≤ length times
    → Returns (Finished p.plan) (run_rounds (λ c. some (measure c)) times p)
unfolding results
run_rounds-Finished measure p k times filed limit some_k fresh in_time enough =
    let (context, mid, u) =
      Returns-value (λ c. Unit {0}) (representative_context (within p.max_context default_isl))
        (context_known (within p.max_context default_isl)) in
    rounds-Finished p.plan context k p.total_seconds some_k measure filed times p
      (record {
        limit = limit;
        seconds = refl;
        mid = mid;
        covered = universe-Covers p.plan context k;
        measured = nothing_measured p.completed fresh (universe p.plan context k);
        kept = record { added = []; behind = sym (append-nil p.plan); each = tt };
      })
      in_time
      (omega (
        arith,
        open_count_le-length (universe p.plan context k) p.completed,
        length-universe p.plan context k,
      ))
  where
    nothing_measured :
        (done : Completed)
        → done ≡ []
        → (cells : List WorkloadCell) → All (λ m. Covers cells m.workload) (results done)
    nothing_measured done e cells = rw e tt
