-- ===== src/Llmbench/Planner/Coordinates.antt =====
-- llmbench/src/llmbench/planner/plan.py, class Planner: each coordinate stands in the plan once, and
-- what `refine` adds.
use home_ailab.Prelude.{
  ℕ, ◌≡◌, sym, ◌∙◌, inl, inr, true, false, ◌||◌, Option, List, [], ◌∷◌, ◌++◌, All, ltb, Bool-cases,
  arith,
}
use mathlib.Core.List.{append_assoc, append-nil}
use home_ailab.Llmbench.Cells.{WorkloadCell, CacheMode, MeasurementCell, key, rate_or_zero}
use home_ailab.Llmbench.Plans.{closed_cell}
use home_ailab.Llmbench.Planner.{
  Planner, Completed, is_completed, is_planned, add_new, knee_cells, exceeds, is_measured,
}

-- No coordinate stands in the plan twice.
abbrev pub IsDistinct : List WorkloadCell → Type 0
IsDistinct [] = Unit
IsDistinct (c ∷ cs) = (is_planned (key c) cs ≡ false) × IsDistinct cs

-- what stands behind a plan
pub record Longer (P : WorkloadCell → Type 0) (plan longer : List WorkloadCell) : Type 0 where
  pub added : List WorkloadCell
  pub behind : longer ≡ plan ++ added
  pub each : All P added

pub add_new-Longer :
    (P : WorkloadCell → Type 0) (done : Completed) (cs plan : List WorkloadCell)
    → All (λ c. is_completed (key c) done ≡ false → P c) cs
    → Longer P plan (add_new done plan cs)
unfolding add_new
add_new-Longer P done [] plan a = record { added = []; behind = sym (append-nil plan); each = tt }
add_new-Longer P done (c ∷ cs) plan a =
    elim (Bool-cases (is_planned (key c) plan || is_completed (key c) done)) [
      | inl old ↦ rw old (add_new-Longer P done cs plan a.1)
      | inr new ↦
          let open_key : is_completed (key c) done ≡ false = ground arith in
          let rest = add_new-Longer P done cs (plan ++ c ∷ []) a.1 in
          rw new (record {
            added = c ∷ rest.added;
            behind = rest.behind ∙ append_assoc plan (c ∷ []) rest.added;
            each = (a.0 open_key, rest.each);
          })
    ]

-- a cell near the knee: measured once, and not above the limit
pub record IsProbe (limit : Option ℕ) (c : WorkloadCell) : Type 0 where
  pub once : c.repetitions ≡ 1
  pub allowed : exceeds limit c.concurrency ≡ false

pub knee_cells-All :
    (P : WorkloadCell → Type 0) (limit : Option ℕ) (context : ℕ) (ms : List MeasurementCell)
    (cands : List ℕ)
    → ((n : ℕ)
        → ltb n 1 ≡ false
        → exceeds limit n ≡ false
        → P (closed_cell context 512 n CacheMode.cold))
    → All P (knee_cells limit context ms cands)
unfolding knee_cells
knee_cells-All P limit context ms [] f = tt
knee_cells-All P limit context ms (cand ∷ cands) f =
    let rest = knee_cells-All P limit context ms cands f in
    elim (Bool-cases (ltb cand 1)) [
      | inl zero_cand ↦ rw zero_cand rest
      | inr positive ↦ elim (Bool-cases (exceeds limit cand)) [
        | inl above ↦ rw (positive, above) rest
        | inr within_limit ↦ elim (Bool-cases (is_measured cand ms)) [
          | inl known ↦ rw (positive, within_limit, known) rest
          | inr new ↦ rw (positive, within_limit, new) (f cand positive within_limit, rest)
        ]
      ]
    ]

-- the result stands under the key of its workload, and its workload has no rate of arrival
pub record IsFiled (done : Completed) (m : MeasurementCell) : Type 0 where
  pub filed : is_completed (key m.workload) done ≡ true
  pub rateless : rate_or_zero m.workload.arrival_rate ≡ 0

-- a cell near the knee whose coordinate is not completed
abbrev pub IsNew : Planner → WorkloadCell → Type 0
IsNew p c = IsProbe p.max_concurrency c × (is_completed (key c) p.completed ≡ false)

-- what `refine` makes of a plan
pub record Refined (p q : Planner) : Type 0 where
  pub distinct : IsDistinct q.plan
  pub same_done : q.completed ≡ p.completed
  pub longer : Longer (IsNew p) p.plan q.plan
